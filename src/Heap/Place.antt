-- ===== src/Heap/Place.antt =====
-- `insert`, `replace` and `update` place a value in a heap.
use Prim.Native.Nat.{Ordering}
use Prim.Native.Nat.Ordering.{lt, eq, gt}
use o.Prelude.{
  ℕ, ◌+◌, ◌≤◌, ◌<◌, ◌≡◌, refl, ap, Bool, true, not, none, some, arith, mod32, ◌==◌, as_u32,
}
use o.Heap.{Stored, Store, Hole, index_at, compare_value, compare_at, is_lt, is_gt, commit, read}
use o.Heap.Path.{up, down, repair, apply}
use o.Heap.Entry.{insert, replace, update_path, update_value}
use o.Heap.Gap.{rank}
use o.Heap.Climb.{weight, IsKept-refl, AgreesBefore}
use o.Heap.Sink.{AgreesAfter, AgreesPairs}
use o.Heap.Moves.{
  hole_at, IsOpen, IsPlaced, IsHeap, IsCommitted, commit-IsCommitted, up-IsPlaced, down-IsPlaced,
  repair-IsPlaced,
}
use o.Heap.Domain.{rank_lt, rank_gt, rank-eq, IsIndexed-len, IsIndexed-room}

apply_still :
    (owner : Store) (position : ℕ) (value : Stored)
    → apply owner (record { start = position; end = position }) value ≡ hole_at owner value position
unfolding apply
apply_still owner position value = ground arith

commit_position :
    (hole : Hole) (value : Stored)
    → hole.value ≡ value
    → (commit true hole).positions value.identity.index ≡ some hole.position
unfolding commit
commit_position hole value e = ground (arith, e)

module _ {tie : Bool} {owner : Store} (h : IsHeap tie owner) (value : Stored) where
  pub index_in : (p : ℕ) → p < owner.len → index_at owner p < mod32
  index_in p l = omega (arith, (h.indexed.forth p l).1, h.indexed.domain)

  -- The tests against an owner agree with its ranks.
  before :
      (start : ℕ)
      → start ≤ owner.len
      → value.identity.index < owner.capacity
      → AgreesBefore tie
          (hole_at owner value start)
          (λ p. is_lt (compare_value tie owner value p))
          start
  before start l i p k =
      rank_lt tie value (owner.entries p) (omega (arith, h.indexed.domain))
        (index_in p (omega arith))

  after :
      (start : ℕ)
      → value.identity.index < owner.capacity
      → AgreesAfter tie
          (hole_at owner value start)
          (λ p. is_gt (compare_value tie owner value p))
          start
  after start i p k l =
      let t =
        rank_gt tie value (owner.entries p) (omega (arith, h.indexed.domain)) (index_in p l) in
      t

  pairs : (start : ℕ) → AgreesPairs tie (hole_at owner value start) (compare_at tie owner) start
  pairs start p q k l m n =
      rank_lt tie (owner.entries p) (owner.entries q) (index_in p m) (index_in q n)

  -- Lifting an entry out of a heap, for a value of its key, leaves an open hole.
  lifted :
      (position : ℕ)
      → position < owner.len
      → index_at owner position ≡ value.identity.index
      → IsOpen tie owner value position
  lifted position l e = (
    record {
      domain = h.indexed.domain;
      inside = l;
      value_in = ground (arith, h.indexed.forth position);
      forth = λ p k n. ground (arith, h.indexed.forth p, h.indexed.forth position);
      back = λ k p n q. ground (arith, h.indexed.back k p);
    },
    record {
      edges = λ c k m n o. h.ordered c k m;
      bridged = λ c k m n o.
          omega (arith, h.ordered c k m, h.ordered position o l, ap (weight tie owner) n);
    },
  )

  -- A vacant key appends an open hole.
  appended :
      value.identity.index < owner.capacity
      → owner.positions value.identity.index ≡ none
      → IsOpen tie (record owner { len = owner.len + 1 }) value owner.len
  appended i e = (
    record {
      domain = h.indexed.domain;
      inside = omega arith;
      value_in = i;
      forth = λ p k n. ground (arith, h.indexed.forth p);
      back = λ k p n q. ground (arith, h.indexed.back k p);
    },
    record {
      edges = λ c k m n o. h.ordered c k (omega arith);
      bridged = λ c k m n o. absurd (omega arith);
    },
  )

  pub len_in : owner.len < mod32
  len_in = omega (arith, IsIndexed-len owner h.indexed, h.indexed.domain)

  -- On a heap over a domain that fits 32 bits, `insert` of a value whose key is vacant yields a heap
  -- with one entry more, which holds the value under its index and else what the heap held.
  pub insert-IsCommitted :
      value.identity.index < owner.capacity
      → owner.positions value.identity.index ≡ none
      → IsCommitted tie (record owner { len = owner.len + 1 }) (insert tie owner value) value
  unfolding insert
  insert-IsCommitted i e =
      let room = IsIndexed-room owner value.identity.index h.indexed i e in
      let grown : Store = record owner { len = owner.len + 1 } in
      let small : as_u32 owner.len ≡ owner.len = omega (arith, len_in) in
      let path = up owner.len (compare_value tie owner value) in
      let placed : IsPlaced tie (hole_at grown value owner.len) (apply grown path value) =
        up-IsPlaced grown value owner.len (compare_value tie owner value) (appended i e)
          (λ c k l m. absurd (omega arith)) (before owner.len (omega arith) i) in
      rw small (
        commit-IsCommitted tie true (hole_at grown value owner.len) (apply grown path value) placed
          (λ q. absurd (cc)))

  -- On a heap over a domain that fits 32 bits, `replace` of the entry at a position by a value with the same index yields a heap
  -- of as many entries, which holds the value under that index, at the position that is returned, and
  -- else what the heap held. The entry that was there is returned.
  pub replace-IsCommitted :
      (position : ℕ)
      → position < owner.len
      → index_at owner position ≡ value.identity.index
      → IsCommitted tie owner (replace tie owner position value).0 value
        × ((replace tie owner position value).0.positions value.identity.index
            ≡ some ((replace tie owner position value).1))
        × ((replace tie owner position value).2 ≡ owner.entries position)
  unfolding replace read
  replace-IsCommitted position l e =
      let i : value.identity.index < owner.capacity = ground (arith, h.indexed.forth position) in
      let open_hole = lifted position l e in
      let path = repair position owner.len (compare_at tie owner) (compare_value tie owner value) in
      let placed : IsPlaced tie (hole_at owner value position) (apply owner path value) =
        repair-IsPlaced owner value position (compare_at tie owner) (compare_value tie owner value)
          open_hole len_in (before position (omega arith) i) (after position i) (pairs position) in
      (
        commit-IsCommitted tie true (hole_at owner value position) (apply owner path value) placed
            (λ q. absurd (cc)),
        commit_position (apply owner path value) value placed.0.value,
        refl,
      )

  update_path-IsPlaced :
      (position : ℕ)
      → position < owner.len
      → index_at owner position ≡ value.identity.index
      → IsPlaced tie
          (hole_at owner value position)
          (apply owner (update_path tie owner position value) value)
  update_path-IsPlaced position l e = for_outcome (compare_value tie owner value position) refl
    where
      i : value.identity.index < mod32
      i = ground (arith, h.indexed.forth position, h.indexed.domain)

      outcome :
          (compare_value tie owner value position ≡ lt → rank tie value < weight tie owner position)
          × (compare_value tie owner value position ≡ gt
              → weight tie owner position < rank tie value)
          × (compare_value tie owner value position ≡ eq
              → rank tie value ≡ weight tie owner position)
      outcome = rank-eq tie value (owner.entries position) i (index_in position l)

      in_domain : value.identity.index < owner.capacity
      in_domain = ground (arith, h.indexed.forth position)

      for_outcome :
          (o : Ordering)
          → compare_value tie owner value position ≡ o
          → IsPlaced tie (hole_at owner value position) (
              apply owner
                (elim o [
                  | lt ↦ up position (compare_value tie owner value)
                  | gt ↦
                      down position owner.len (compare_at tie owner) (compare_value tie owner value)
                  | eq ↦ record { start = position; end = position }
                ])
                value)
      for_outcome lt q =
          up-IsPlaced owner value position (compare_value tie owner value) (lifted position l e)
            (λ c k m n. omega (arith, outcome.0 q, h.ordered c k m, ap (weight tie owner) n))
            (before position (omega arith) in_domain)
      for_outcome gt q =
          down-IsPlaced owner value position (compare_at tie owner) (compare_value tie owner value)
            (lifted position l e) (λ k. omega (arith, outcome.1 q, h.ordered position k l)) len_in
            (after position in_domain) (pairs position)
      for_outcome eq q = rw (apply_still owner position value) (
        IsKept-refl (hole_at owner value position),
        record {
          linked = (lifted position l e).0;
          gap = (lifted position l e).1;
          below = λ k. omega (arith, outcome.2 q, h.ordered position k l);
          above = λ c k m n. omega (arith, outcome.2 q, h.ordered c k m, ap (weight tie owner) n);
        },
      )

  -- On a heap over a domain that fits 32 bits, `update` of the entry at a position by a value with the same index yields a heap
  -- of as many entries, which holds the value under that index and else what the heap held, although
  -- it writes no reverse position when the value stays where it is.
  pub update_value-IsCommitted :
      (position : ℕ)
      → position < owner.len
      → index_at owner position ≡ value.identity.index
      → IsCommitted tie owner (update_value tie owner position value) value
  unfolding update_value read
  update_value-IsCommitted position l e =
      let hole = apply owner (update_path tie owner position value) value in
      let placed = update_path-IsPlaced position l e in
      commit-IsCommitted tie (not (hole.position == position)) (hole_at owner value position) hole
        placed (λ q. ground (arith, placed.0.own, placed.0.value, h.indexed.forth position))
