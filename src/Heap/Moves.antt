-- ===== src/Heap/Moves.antt =====
-- Whole paths: `up`, `down` and `repair`, applied by `Path::apply`, end where the value fits.
use Prim.Native.Nat.{Ordering}
use o.Prelude.{
  ℕ, zero, suc, ◌+◌, ◌-◌, ◌≤◌, ◌<◌, ◌≡◌, ◌≢◌, inl, inr, refl, ◌∙◌, sym, Bool, true, false, some,
  arith, mod32, ◌==◌, ltb, Bool-cases,
}
use o.Heap.{Store, Stored, Hole, is_lt, is_gt, commit}
use o.Heap.Path.{HolePath, parent, up, down, repair, raise, lower, apply, leading_zeros}
use o.Heap.Gap.{IsLinked, IsIndexed, rank, view, commit-IsIndexed}
use o.Heap.Climb.{
  weight, IsGap, IsAboveChildren, IsSettled, IsKept, UpPath, UpPath-le, up_end-UpPath, AgreesBefore,
  raise-IsSettled,
}
use o.Heap.Sink.{AgreesAfter, AgreesPairs, lower-IsSettled}
use o.Heap.Descent.{DownPath, DownPath-le, down_end-DownPath, leading_zeros-DownPath}

-- A value on its way to a position, in a hole there.
abbrev pub hole_at : Store → Stored → ℕ → Hole
hole_at owner value position = record { owner = owner; value = value; position = position }

-- A hole that a path left: nothing is lost, and the value fits.
abbrev pub IsPlaced : Bool → Hole → Hole → Type 0
IsPlaced tie h h' = IsKept h h' × IsSettled tie h'

raise-end : (k end : ℕ) (h : Hole) → 0 < k → h.position ≡ end → raise k end h ≡ h
unfolding raise
raise-end zero end h l e = absurd (omega arith)
raise-end (suc k) end h l e = ground arith

apply-raise :
    (owner : Store) (path : HolePath) (value : Stored)
    → path.end ≤ path.start
    → apply owner path value ≡ raise (path.start + 1) path.end (hole_at owner value path.start)
unfolding apply
apply-raise owner path value h = elim (Bool-cases (ltb path.end path.start)) [
  | inl e ↦ rw e refl
  | inr e ↦
      let same : (ltb path.start path.end) ≡ false = ground arith in
      rw (e, same)
        (sym (
          raise-end (path.start + 1) path.end (hole_at owner value path.start) (omega arith)
            (ground arith)))
]

apply-lower :
    (owner : Store) (path : HolePath) (value : Stored) (d : ℕ)
    → path.start + d ≤ path.end
    → (path.start ≡ path.end → d ≡ 0)
    → leading_zeros (path.start + 1) - leading_zeros (path.end + 1) ≡ d
    → apply owner path value ≡ lower d path.end (hole_at owner value path.start)
unfolding apply lower
apply-lower owner path value d h z e =
    let not_up : (ltb path.end path.start) ≡ false = ground arith in
    elim (Bool-cases (ltb path.start path.end)) [
      | inl l ↦ rw (not_up, l, e) refl
      | inr l ↦ rw (not_up, l, z (ground arith)) refl
    ]

-- A hole at a position, which the order allows for.
abbrev pub IsOpen : Bool → Store → Stored → ℕ → Type 0
IsOpen tie owner value start =
    IsLinked (hole_at owner value start) × IsGap (weight tie owner) owner.len start

module _ {tie : Bool} (owner : Store) (value : Stored) (start : ℕ) where
  UpPath-IsPlaced :
      {less : ℕ → Bool} {end : ℕ}
      → IsOpen tie owner value start
      → UpPath less end start
      → IsAboveChildren (weight tie owner) owner.len start (rank tie value)
      → AgreesBefore tie (hole_at owner value start) less start
      → IsPlaced tie
          (hole_at owner value start)
          (apply owner (record { start = start; end = end }) value)
  UpPath-IsPlaced {less} {end} (v, g) p a b =
      let done =
        raise-IsSettled {tie = tie} {less = less} p (start + 1) (hole_at owner value start)
          (omega arith) refl v g a b in
      rw (apply-raise owner (record { start = start; end = end }) value (UpPath-le p))
        (done.0, done.1)

  -- Where the value is above the children of the hole, `up` finds its place.
  pub up-IsPlaced :
      (compare : ℕ → Ordering)
      → IsOpen tie owner value start
      → IsAboveChildren (weight tie owner) owner.len start (rank tie value)
      → AgreesBefore tie (hole_at owner value start) (λ p. is_lt (compare p)) start
      → IsPlaced tie (hole_at owner value start) (apply owner (up start compare) value)
  up-IsPlaced compare g a b =
      UpPath-IsPlaced g (up_end-UpPath (start + 1) compare start (omega arith)) a b

  DownPath-IsPlaced :
      {at : ℕ → ℕ → Ordering} {greater : ℕ → Bool} {end d : ℕ}
      → IsOpen tie owner value start
      → DownPath owner.len at greater end d start
      → owner.len < mod32
      → (0 < start → weight tie owner (parent start) ≤ rank tie value)
      → AgreesAfter tie (hole_at owner value start) greater start
      → AgreesPairs tie (hole_at owner value start) at start
      → IsPlaced tie
          (hole_at owner value start)
          (apply owner (record { start = start; end = end }) value)
  DownPath-IsPlaced {end = end} {d = d} (v, g) p n b a r =
      let bound = DownPath-le p in
      let inside : end < owner.len = bound.1 v.inside in
      let done = lower-IsSettled {tie = tie} p (hole_at owner value start) refl refl v g b a r in
      let path : HolePath = record { start = start; end = end } in
      let same : apply owner path value ≡ lower d end (hole_at owner value start) =
        apply-lower owner path value d bound.0 (λ e. omega (arith, bound.0))
          (leading_zeros-DownPath p (omega arith)) in
      rw same (done.0, done.1)

  -- Where the parent of the hole is above the value, `down` finds its place.
  pub down-IsPlaced :
      (at : ℕ → ℕ → Ordering) (compare : ℕ → Ordering)
      → IsOpen tie owner value start
      → (0 < start → weight tie owner (parent start) ≤ rank tie value)
      → owner.len < mod32
      → AgreesAfter tie (hole_at owner value start) (λ p. is_gt (compare p)) start
      → AgreesPairs tie (hole_at owner value start) at start
      → IsPlaced tie
          (hole_at owner value start)
          (apply owner (down start owner.len at compare) value)
  down-IsPlaced at compare g b n a r =
      let found = down_end-DownPath (owner.len + 1) compare start (omega arith) in
      DownPath-IsPlaced g found.1 n b a r

  -- `repair` finds its place in any case.
  pub repair-IsPlaced :
      (at : ℕ → ℕ → Ordering) (compare : ℕ → Ordering)
      → IsOpen tie owner value start
      → owner.len < mod32
      → AgreesBefore tie (hole_at owner value start) (λ p. is_lt (compare p)) start
      → AgreesAfter tie (hole_at owner value start) (λ p. is_gt (compare p)) start
      → AgreesPairs tie (hole_at owner value start) at start
      → IsPlaced tie
          (hole_at owner value start)
          (apply owner (repair start owner.len at compare) value)
  unfolding repair
  repair-IsPlaced at compare (v, g) n b a r = elim (Bool-cases (start == 0)) [
    | inl z ↦ rw z (down-IsPlaced at compare (v, g) (λ l. ground arith) n a r)
    | inr z ↦ elim (Bool-cases (is_lt (compare (parent start)))) [
      | inr l ↦
          rw (z, l) (down-IsPlaced at compare (v, g) (λ q. ground (arith, b (parent start))) n a r)
      | inl l ↦
          rw (z, l)
            (UpPath-IsPlaced (v, g)
              (UpPath.step (ground arith) l
                (up_end-UpPath (parent start + 1) compare (parent start) (omega arith)))
              (λ c p q e. ground (arith, b (parent start), g.bridged c p q e)) b)
    ]
  ]

-- The heap order: no entry is above its parent.
abbrev pub IsOrdered : Bool → Store → Type 0
IsOrdered tie s = (c : ℕ) → 0 < c → c < s.len → weight tie s (parent c) ≤ weight tie s c

-- A store with both: the reverse map and the heap order.
pub record IsHeap (tie : Bool) (s : Store) : Type 0 where
  pub indexed : IsIndexed s
  pub ordered : IsOrdered tie s

commit-IsOrdered : (tie place : Bool) (h : Hole) → IsSettled tie h → IsOrdered tie (commit place h)
unfolding commit
commit-IsOrdered tie true h s = λ c k l. ground (arith, s.gap.edges c k l, s.below, s.above c k l)
commit-IsOrdered tie false h s = λ c k l. ground (arith, s.gap.edges c k l, s.below, s.above c k l)

commit-len :
    (place : Bool) (h : Hole)
    → ((commit place h).len ≡ h.owner.len) × ((commit place h).capacity ≡ h.owner.capacity)
unfolding commit
commit-len true h = (refl, refl)
commit-len false h = (refl, refl)

-- What a commit yields: a heap that holds the value under its index, and else what there was.
pub record IsCommitted (tie : Bool) (before after : Store) (value : Stored) : Type 0 where
  pub heap : IsHeap tie after
  pub own : view after value.identity.index ≡ some value
  pub others : (k : ℕ) → k ≢ value.identity.index → view after k ≡ view before k
  pub len : after.len ≡ before.len
  pub capacity : after.capacity ≡ before.capacity

pub commit-IsCommitted :
    (tie place : Bool) (h h' : Hole)
    → IsPlaced tie h h'
    → (place ≡ false → h'.owner.positions h'.value.identity.index ≡ some h'.position)
    → IsCommitted tie h.owner (commit place h') h.value
commit-IsCommitted tie place h h' (t, s) q =
    let done = commit-IsIndexed place h' s.linked q in
    rw (sym t.value) record {
      heap = record { indexed = done.0; ordered = commit-IsOrdered tie place h' s };
      own = done.1;
      others = λ k n. done.2 k n ∙ t.views k (rw t.value at n);
      len = rw (sym t.len) (commit-len place h').0;
      capacity = rw (sym t.capacity) (commit-len place h').1;
    }
