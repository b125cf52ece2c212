-- ===== src/Heap/Removal.antt =====
-- `remove` takes an entry out of a heap, and fills its place with the last one.
use o.Prelude.{
  ℕ, zero, suc, ◌+◌, ◌-◌, ◌<◌, ◌≡◌, ◌≢◌, inl, inr, refl, ap, ◌∙◌, Bool, true, false, none, arith,
  mod32, ◌==◌, ltb, Bool-cases, as_u32, ℕ_discrete,
}
use o.Heap.{Stored, Store, Hole, update, index_at, compare_at, commit, shift, read}
use o.Heap.Path.{HolePath, parent, repair, raise, lower, apply}
use o.Heap.Entry.{remove}
use o.Heap.Gap.{view}
use o.Heap.Climb.{weight}
use o.Heap.Moves.{
  hole_at, IsOpen, IsPlaced, IsHeap, IsCommitted, commit-IsCommitted, repair-IsPlaced,
}
use o.Heap.Place.{index_in, len_in}
use o.Heap.Domain.{rank_lt, rank_gt}

-- The same hole, with another length and value: no shift reads them.
abbrev relabel : ℕ → Stored → Hole → Hole
relabel n x h = record { owner = record (h.owner) { len = n }; value = x; position = h.position }

raise-relabel :
    (k end n : ℕ) (x : Stored) (h : Hole)
    → raise k end (relabel n x h) ≡ relabel n x (raise k end h)
unfolding raise shift
raise-relabel zero end n x h = refl
raise-relabel (suc k) end n x h = elim (Bool-cases (h.position == end)) [
  | inl e ↦ rw e refl
  | inr e ↦ rw e (raise-relabel k end n x (shift h (parent h.position)))
]

lower-relabel :
    (d end n : ℕ) (x : Stored) (h : Hole)
    → lower d end (relabel n x h) ≡ relabel n x (lower d end h)
unfolding lower shift
lower-relabel zero end n x h = refl
lower-relabel (suc d) end n x h = lower-relabel d end n x (shift h _)

apply-relabel :
    (owner : Store) (path : HolePath) (n : ℕ) (x y : Stored)
    → apply (record owner { len = n }) path x ≡ relabel n x (apply owner path y)
unfolding apply
apply-relabel owner path n x y = elim (Bool-cases (ltb path.end path.start)) [
  | inl e ↦ rw e (raise-relabel _ path.end n x (hole_at owner y path.start))
  | inr e ↦ elim (Bool-cases (ltb path.start path.end)) [
    | inl l ↦ rw (e, l) (lower-relabel _ path.end n x (hole_at owner y path.start))
    | inr l ↦ rw (e, l) refl
  ]
]

-- Filling the hole from the last entry is a commit of that entry.
shift_tail :
    (h : Hole) (m n : ℕ) (x y : Stored) (tail : ℕ)
    → h.owner.entries tail ≡ x
    → h.value ≡ x
    → h.owner.len ≡ n
    → record (shift (relabel m y h) tail).owner { len = n } ≡ commit true h
unfolding shift commit
shift_tail h m n x y tail e f g = rw (e, f, g) refl

-- What a removal leaves: a heap without the entry, which it returns.
pub record IsRemoved (tie : Bool) (owner : Store) (position : ℕ) (result : Store × Stored)
    : Type 0 where
  pub heap : IsHeap tie (result.0)
  pub gone : view (result.0) (index_at owner position) ≡ none
  pub others : (k : ℕ) → k ≢ index_at owner position → view (result.0) k ≡ view owner k
  pub len : result.0.len + 1 ≡ owner.len
  pub capacity : result.0.capacity ≡ owner.capacity
  pub value : result.1 ≡ owner.entries position

module _ {tie : Bool} {owner : Store} (h : IsHeap tie owner) (position : ℕ)
    (l : position < owner.len) where
  -- The owner that the path of a removal is about.
  abbrev shrunk : Store
  shrunk = record owner {
    len = owner.len - 1;
    positions = update owner.positions (index_at owner position) none;
  }

  abbrev last : Stored
  last = owner.entries (owner.len - 1)

  distinct : (p q : ℕ) → p < owner.len → q < owner.len → p ≢ q → index_at owner p ≢ index_at owner q
  distinct p q j k n e = ground (arith, h.indexed.forth p j, h.indexed.forth q k)

  taken : position ≢ owner.len - 1 → IsOpen tie shrunk last position
  taken n = (
    record {
      domain = h.indexed.domain;
      inside = omega arith;
      value_in = (h.indexed.forth (owner.len - 1) (omega arith)).1;
      forth = λ p k m. ground (
        arith,
        h.indexed.forth p,
        distinct p position (omega arith) l m,
        distinct p (owner.len - 1) (omega arith) (omega arith) (omega arith),
      );
      back = λ k p m q. ground (arith, h.indexed.back k p);
    },
    record {
      edges = λ c k m r s. h.ordered c k (omega arith);
      bridged = λ c k m r s.
          omega
            (arith, h.ordered c k (omega arith), h.ordered position s l, ap (weight tie owner) r);
    },
  )

  filled :
      position ≢ owner.len - 1
      → let path =
          repair position
            (owner.len - 1)
            (compare_at tie owner)
            (compare_at tie owner (owner.len - 1)) in
        IsPlaced tie (hole_at shrunk last position) (apply shrunk path last)
  filled n =
      let tail_in : index_at owner (owner.len - 1) < mod32 =
        index_in h last (owner.len - 1) (omega arith) in
      repair-IsPlaced shrunk last position (compare_at tie owner)
        (compare_at tie owner (owner.len - 1)) (taken n) (omega (arith, len_in h last))
        (λ p k. rank_lt tie last (owner.entries p) tail_in (index_in h last p (omega arith)))
        (λ p k m. rank_gt tie last (owner.entries p) tail_in (index_in h last p (omega arith)))
        (λ p q k m r s.
          rank_lt tie (owner.entries p) (owner.entries q) (index_in h last p (omega arith))
            (index_in h last q (omega arith)))

  view-shrunk : (k : ℕ) → k ≢ index_at owner position → view shrunk k ≡ view owner k
  view-shrunk k n = ground arith

  committed-IsRemoved :
      (s : Store)
      → position ≢ owner.len - 1
      → IsCommitted tie shrunk s last
      → IsRemoved tie owner position (s, owner.entries position)
  committed-IsRemoved s n c =
      let apart = distinct position (owner.len - 1) l (omega arith) n in
      let there = (h.indexed.forth (owner.len - 1) (omega arith)).0 in
      record {
        heap = c.heap;
        gone = c.others (index_at owner position) apart ∙ ground arith;
        others = λ k m. elim (ℕ_discrete k (index_at owner (owner.len - 1))) [
          | yes e ↦ rw e (c.own ∙ ground (arith, there))
          | no e ↦ c.others k e ∙ view-shrunk k m
        ];
        len = omega (arith, c.len);
        capacity = c.capacity;
        value = refl;
      }

  from_commit :
      {s t : Store}
      → s ≡ t
      → IsRemoved tie owner position (t, owner.entries position)
      → IsRemoved tie owner position (s, owner.entries position)
  from_commit e r = rw e r

  last-IsRemoved :
      position ≡ owner.len - 1 → IsRemoved tie owner position (shrunk, owner.entries position)
  last-IsRemoved e = record {
    heap = record {
      indexed = record {
        domain = h.indexed.domain;
        forth = λ p k.
            ground (arith, h.indexed.forth p, distinct p position (omega arith) l (omega arith));
        back = λ k p q. ground (arith, h.indexed.back k p);
      };
      ordered = λ c k m. h.ordered c k (omega arith);
    };
    gone = ground arith;
    others = λ k m. view-shrunk k m;
    len = omega arith;
    capacity = refl;
    value = refl;
  }

  -- The work of `remove` before it sets the length, at a position before the last.
  filled_result :
      position ≢ owner.len - 1
      → let tail = owner.len - 1 in
        let path = repair position tail (compare_at tie owner) (compare_at tie owner tail) in
        let rest : Store = record shrunk { len = owner.len } in
        let hole = shift (apply rest path (owner.entries position)) tail in
        IsRemoved tie owner position (record (hole.owner) { len = tail }, hole.value)
  unfolding shift
  filled_result n =
      let tail = owner.len - 1 in
      let path = repair position tail (compare_at tie owner) (compare_at tie owner tail) in
      let end : Hole = apply shrunk path last in
      let placed = filled n in
      let whole : record (shift (relabel owner.len (owner.entries position) end) tail).owner {
        len = tail;
      }
          ≡ commit true end =
        shift_tail end owner.len tail last (owner.entries position) tail
          (placed.0.outside tail (omega arith)) placed.0.value placed.0.len in
      let done : IsCommitted tie shrunk (commit true end) last =
        commit-IsCommitted tie true (hole_at shrunk last position) end placed (λ q. absurd (cc)) in
      rw (apply-relabel shrunk path owner.len (owner.entries position) last)
        (from_commit whole (committed-IsRemoved (commit true end) n done))

  -- On a heap over a domain that fits 32 bits, `remove` at a position inside it returns the entry
  -- there, and yields a heap of one entry less which holds nothing under that entry's index and else
  -- what the heap held.
  pub remove-IsRemoved : IsRemoved tie owner position (remove tie owner position)
  unfolding remove read
  remove-IsRemoved =
      let small : as_u32 (owner.len - 1) ≡ owner.len - 1 = omega (arith, len_in h last) in
      elim (ℕ_discrete position (owner.len - 1)) [
        | yes e ↦
            let at_end : (position == owner.len - 1) ≡ true = ground arith in
            rw (at_end, small) (last-IsRemoved e)
        | no n ↦
            let inner : (position == owner.len - 1) ≡ false = ground arith in
            rw (inner, small) (filled_result n)
      ]
