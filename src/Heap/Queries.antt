-- ===== src/Heap/Queries.antt =====
-- What is read of a heap, and its empty states, against the map that it holds.
use mathlib.Core.Path.{subst}
use o.Prelude.{
  ◌↔◌, ok, err, ℕ, zero, suc, ◌+◌, ◌≤◌, ◌<◌, ◌≡◌, ◌≢◌, ◌⊎◌, ap, ◌∙◌, true, inl, inr, refl, sym,
  Bool, none, some, arith, mod32, if◌then◌else◌, ◌==◌, ltb, Bool-cases, Option-cases,
}
use o.Heap.{Key, Stored, Store, reindex, index_at}
use o.Heap.Path.{parent}
use o.Heap.Entry.{
  vacant, occupied, entry, current, out_of_range, empty_slot, other_generation, found, same_key,
  new, lookup, probe, peek, clear_entries, clear,
}
use o.Heap.Gap.{IsIndexed, rank, view}
use o.Heap.Climb.{weight}
use o.Heap.Moves.{IsHeap}
use o.Heap.Laws.{view-outside}

same_key-path : (a b : Key) → (same_key a b ≡ true) ↔ (a ≡ b)
same_key-path a b = ground arith

module _ {tie : Bool} {s : Store} (key : Key) (h : IsHeap tie s) where
  -- Where the reverse map has nothing, no entry has the index.
  absent_entries : s.positions key.index ≡ none → (q : ℕ) → q < s.len → index_at s q ≢ key.index
  absent_entries e q l w = ground (arith, e, w, h.indexed.forth q)

  same_entry :
      (r : ℕ)
      → s.positions key.index ≡ some r
      → (q : ℕ) → q < s.len
      → index_at s q ≡ key.index
      → q ≡ r
  same_entry r e q l w = ground (arith, e, w, h.indexed.forth q)

  probe_absent :
      s.positions key.index ≡ none
      → probe s key ≡ (if ltb key.index s.capacity then empty_slot else out_of_range)
  unfolding probe lookup
  probe_absent e = ground (arith, e)

  probe_present :
      (r : ℕ)
      → s.positions key.index ≡ some r
      → (r < s.len)
        × (index_at s r ≡ key.index)
        × (key.index < s.capacity)
        × (probe s key
            ≡ (if same_key (s.entries r).identity key then found r else other_generation))
  unfolding probe lookup
  probe_present r e =
      let at = h.indexed.back key.index r e in
      let inside : key.index < s.capacity = ground (arith, at, h.indexed.forth r) in
      (at.0, at.1, inside, ground (arith, e, inside))

-- On a heap, `probe` tells the keys apart by the entries alone, without the reverse map: a key outside
-- the domain; one whose index no entry has; one whose index an entry of another generation has; and one
-- that an entry has, which it finds at that entry's position.
pub probe-entries :
    (tie : Bool) (s : Store) (key : Key) (p : ℕ)
    → IsHeap tie s
    → ((probe s key ≡ found p) ↔ ((p < s.len) × ((s.entries p).identity ≡ key)))
      × ((probe s key ≡ other_generation)
          ↔ ((q : ℕ) × (q < s.len) × (index_at s q ≡ key.index) × ((s.entries q).identity ≢ key)))
      × ((probe s key ≡ empty_slot)
          ↔ ((key.index < s.capacity) × ((q : ℕ) → q < s.len → index_at s q ≢ key.index)))
      × ((probe s key ≡ out_of_range) ↔ (s.capacity ≤ key.index))
probe-entries tie s key p h = elim (Option-cases (s.positions key.index)) [
  | inl e ↦
      let answer = probe_absent key h e in
      let gone = absent_entries key h e in
      (
        (λ w. absurd (ground (arith, answer, w)), λ (l, w). absurd (gone p l (ap Key.index w))),
        (λ w. absurd (ground (arith, answer, w)), λ (q, l, w, d). absurd (gone q l w)),
        (λ w. (ground (arith, answer, w), gone), λ (l, w). ground (arith, answer, l)),
        (λ w. ground (arith, answer, w), λ l. ground (arith, answer, l)),
      )
  | inr (r, e) ↦
      let (l, i, inside, answer) = probe_present key h r e in
      let own = same_entry key h r e in
      let eq = same_key-path (s.entries r).identity key in
      (
        (
          λ w. elim (Bool-cases (same_key (s.entries r).identity key)) [
            | inl b ↦
                let same : r ≡ p = ground (arith, answer, b, w) in
                subst (λ x. (x < s.len) × ((s.entries x).identity ≡ key)) same (l, eq.0 b)
            | inr b ↦ absurd (ground (arith, answer, b, w))
          ],
          λ (m, w).
              let same : p ≡ r = own p m (ap Key.index w) in
              let b : same_key (s.entries r).identity key ≡ true =
                eq.1 (ap (λ x. (s.entries x).identity) (sym same) ∙ w) in
              answer ∙ rw b (ap found (sym same)),
        ),
        (
          λ w. (r, l, i, λ d. ground (arith, answer, w, eq.1 d)),
          λ (q, m, w, d). elim (Bool-cases (same_key (s.entries r).identity key)) [
            | inl b ↦ absurd (d (ap (λ x. (s.entries x).identity) (own q m w) ∙ eq.0 b))
            | inr b ↦ ground (arith, answer, b)
          ],
        ),
        (λ w. absurd (ground (arith, answer, w)), λ (m, w). absurd (w r l i)),
        (λ w. absurd (ground (arith, answer, w)), λ m. absurd (omega (arith, m, inside))),
      )
]

root_least :
    {tie : Bool} {s : Store} (k c : ℕ)
    → IsHeap tie s
    → c < k
    → c < s.len
    → weight tie s 0 ≤ weight tie s c
root_least zero c h l m = absurd (omega arith)
root_least {tie} {s} (suc k) c h l m = elim (Bool-cases (c == 0)) [
  | inl e ↦ ground arith
  | inr e ↦ omega (
    arith,
    root_least {tie = tie} k (parent c) h (ground arith) (ground arith),
    h.ordered c (ground arith) m,
  )
]

-- Nothing that a heap holds ranks below its root.
pub root_rank :
    {tie : Bool} {s : Store} (k : ℕ) (f : Stored)
    → IsHeap tie s
    → view s k ≡ some f
    → weight tie s 0 ≤ rank tie f
root_rank {tie} {s} k f h v = elim (Option-cases (s.positions k)) [
  | inl q ↦ absurd (ground (arith, q, v))
  | inr (p, q) ↦
      let inside = h.indexed.back k p q in
      let least = root_least {tie = tie} (p + 1) p h (omega arith) inside.0 in
      let same : s.entries p ≡ f = ground (arith, q, v) in rw (sym same) least
]

-- On a heap over a domain that fits 32 bits, what `peek` returns is held, and no entry that the heap
-- holds has a lower priority, nor, where ties go by index, an equal one with a lower index. `peek`
-- returns nothing only from a heap that holds nothing.
pub peek-IsMinimum :
    (tie : Bool) (s : Store)
    → IsHeap tie s
    → ((e : Stored) × (peek s ≡ some (e.identity, e.priority))
        × (view s e.identity.index ≡ some e)
        × ((k : ℕ) (f : Stored) → view s k ≡ some f → rank tie e ≤ rank tie f))
      ⊎ ((peek s ≡ none) × ((k : ℕ) → view s k ≡ none))
unfolding peek
peek-IsMinimum tie s h = elim (Bool-cases (s.len == 0)) [
  | inl e ↦ inr (
    ground arith,
    λ k. elim (Option-cases (s.positions k)) [
      | inl q ↦ ground (arith, q)
      | inr (p, q) ↦ absurd (ground (arith, h.indexed.back k p q))
    ],
  )
  | inr e ↦
      inl (s.entries 0, ground arith, ground (arith, h.indexed.forth 0), λ k f v. root_rank k f h v)
]

clear_entries-empty :
    (n : ℕ) (s : Store)
    → IsIndexed s
    → s.len ≡ n
    → ((clear_entries n s).len ≡ 0)
      × ((k : ℕ) → (clear_entries n s).positions k ≡ none)
      × ((clear_entries n s).capacity ≡ s.capacity)
unfolding clear_entries
clear_entries-empty zero s v e = (
  refl,
  λ k. elim (Option-cases (s.positions k)) [
    | inl q ↦ q
    | inr (p, q) ↦ absurd (omega (arith, v.back k p q))
  ],
  refl,
)
clear_entries-empty (suc n) s v e =
    let rest = reindex (record s { len = n }) (s.entries n).identity none in
    let smaller : IsIndexed rest = record {
      domain = v.domain;
      forth = λ p l. ground (arith, v.forth p, v.forth n);
      back = λ k p q. ground (arith, v.back k p);
    } in
    clear_entries-empty n rest smaller refl

-- On a heap, `clear` leaves a heap over the same domain that holds nothing, with no entry and no
-- reverse position.
pub clear-empty :
    (tie : Bool) (s : Store)
    → IsHeap tie s
    → IsHeap tie (clear s)
      × ((clear s).len ≡ 0)
      × ((k : ℕ) → (clear s).positions k ≡ none)
      × ((clear s).capacity ≡ s.capacity)
unfolding clear
clear-empty tie s h =
    let c = clear_entries-empty s.len s h.indexed refl in
    (
      record {
        indexed = record {
          domain = omega (arith, c.2, h.indexed.domain);
          forth = λ p l. absurd (omega (arith, c.0));
          back = λ k p q. absurd (ground (arith, c.1 k));
        };
        ordered = λ p l m. absurd (omega (arith, c.0));
      },
      c.0,
      c.1,
      c.2,
    )

-- A new store whose capacity fits 32 bits is a heap, whatever its entries hold.
pub new-IsHeap :
    (tie : Bool) (capacity : ℕ) (entries : ℕ → Stored)
    → capacity < mod32
    → IsHeap tie (new capacity entries)
unfolding new
new-IsHeap tie capacity entries h = record {
  indexed = record {
    domain = h;
    forth = λ p l. absurd (omega arith);
    back = λ k p q. absurd (ground arith);
  };
  ordered = λ c k l. absurd (omega arith);
}

-- On a heap, `current` at any index is what the heap holds under it.
pub current-view :
    (tie : Bool) (s : Store) (index : ℕ) → IsHeap tie s → current s index ≡ view s index
unfolding current
current-view tie s index h = elim (Bool-cases (ltb index s.capacity)) [
  | inl e ↦ rw e refl
  | inr e ↦ let outside = view-outside {tie = tie} index h (ground arith) in rw (e, outside) refl
]

-- `Lookup::try_new` and `probe` agree: an occupied entry is a probe that finds its position, a
-- vacant one an empty slot, and the error, which carries the capacity, a key outside the domain.
entry-probe :
    (s : Store) (key : Key) (p : ℕ)
    → ((entry s key ≡ ok (occupied p)) ↔ (probe s key ≡ found p))
      × ((entry s key ≡ ok vacant) ↔ (probe s key ≡ empty_slot))
      × ((entry s key ≡ err s.capacity) ↔ (probe s key ≡ out_of_range))
unfolding entry probe lookup
entry-probe s key p = ground arith
