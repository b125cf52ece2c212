-- ===== src/Heap/Sink.antt =====
-- The loop of `apply` that moves the hole down the path of `down`.
use Prim.Native.Nat.{Ordering}
use o.Prelude.{
  ℕ, suc, ◌+◌, ◌-◌, ◌*◌, ◌/◌, ◌^◌, ◌≤◌, ◌<◌, ◌≡◌, ◌≢◌, ◌⊎◌, inl, inr, refl, ap, Bool, true, false,
  arith, Bool-cases,
}
use o.Heap.{Hole, is_lt, shift}
use o.Heap.Path.{parent, child_of, lower}
use o.Heap.Gap.{IsLinked, rank, shift-IsLinked}
use o.Heap.Climb.{weight, IsGap, IsSettled, IsKept, IsKept-refl, IsKept-shift}
use o.Heap.Descent.{has_child, DownPath, stop, step, child_of-in, ancestor}

-- The tests of a path agree with the entries behind a position.
abbrev pub AgreesAfter : Bool → Hole → (ℕ → Bool) → ℕ → Type 0
AgreesAfter tie h greater pos =
    (p : ℕ)
    → pos < p
    → p < h.owner.len
    → (greater p ≡ true → weight tie h.owner p < rank tie h.value)
      × (greater p ≡ false → rank tie h.value ≤ weight tie h.owner p)

abbrev pub AgreesPairs : Bool → Hole → (ℕ → ℕ → Ordering) → ℕ → Type 0
AgreesPairs tie h at pos =
    (p q : ℕ)
    → pos < p
    → pos < q
    → p < h.owner.len
    → q < h.owner.len
    → (is_lt (at p q) ≡ true → weight tie h.owner p < weight tie h.owner q)
      × (is_lt (at p q) ≡ false → weight tie h.owner q ≤ weight tie h.owner p)

-- The child that `down` compares is a smallest one.
child_of-least :
    (tie : Bool) (h : Hole) (at : ℕ → ℕ → Ordering) (len pos c : ℕ)
    → h.owner.len ≡ len
    → AgreesPairs tie h at pos
    → has_child len pos ≡ true
    → 0 < c
    → c < h.owner.len
    → parent c ≡ pos
    → weight tie h.owner (child_of len at pos) ≤ weight tie h.owner c
unfolding child_of
child_of-least tie h at len pos c n a e k l m = ground (arith, a (pos * 2 + 1 + 1) (pos * 2 + 1))

shift-IsGap_down :
    (tie : Bool) (h : Hole) (s : ℕ)
    → parent s ≡ h.position
    → h.position < s
    → s < h.owner.len
    → weight tie h.owner s < rank tie h.value
    → ((c : ℕ)
        → 0 < c
        → c < h.owner.len
        → parent c ≡ h.position
        → weight tie h.owner s ≤ weight tie h.owner c)
    → IsGap (weight tie h.owner) h.owner.len h.position
    → IsGap (weight tie (shift h s).owner) h.owner.len s
      × (weight tie (shift h s).owner (parent s) ≤ rank tie h.value)
unfolding shift
shift-IsGap_down tie h s e k i l m g = (
  record {
    edges = λ c p q r t. ground (arith, g.edges c p q, g.bridged s, m c p q);
    bridged = λ c p q r t. ground (arith, g.edges c p q);
  },
  ground arith,
)

-- One round of the loop, with the level that it computes at hand.
lower-suc :
    (d end s : ℕ) (h : Hole)
    → (end + 1) / 2 ^ d - 1 ≡ s
    → lower (suc d) end h ≡ lower d end (shift h s)
unfolding lower
lower-suc d end s h e = ap (λ x. lower d end (shift h x)) e

lower-zero : (end : ℕ) (h : Hole) → lower 0 end h ≡ h
unfolding lower
lower-zero end h = refl

-- Sinking the hole along the path of `down` ends where the value fits.
pub lower-IsSettled :
    {tie : Bool} {len : ℕ} {at : ℕ → ℕ → Ordering} {greater : ℕ → Bool} {end d pos : ℕ}
    → DownPath len at greater end d pos
    → (h : Hole) → h.owner.len ≡ len
    → h.position ≡ pos
    → IsLinked h
    → IsGap (weight tie h.owner) h.owner.len h.position
    → (0 < h.position → weight tie h.owner (parent h.position) ≤ rank tie h.value)
    → AgreesAfter tie h greater pos
    → AgreesPairs tie h at pos
    → IsKept h (lower d end h) × IsSettled tie (lower d end h) × ((lower d end h).position ≡ end)
unfolding shift
lower-IsSettled {tie} {len} {at} {greater} {end} (stop {pos = pos} q s) h n f v g b a r =
    rw (lower-zero end h) (
      IsKept-refl h,
      record { linked = v; gap = g; below = b; above = λ c k l m. above_child c k l m s },
      omega arith,
    )
  where
    above_child :
        (c : ℕ)
        → 0 < c
        → c < h.owner.len
        → parent c ≡ h.position
        → (has_child len pos ≡ false) ⊎ (greater (child_of len at pos) ≡ false)
        → rank tie h.value ≤ weight tie h.owner c
    above_child c k l m s = elim (Bool-cases (has_child len pos)) [
      | inr e ↦ ground arith
      | inl e ↦
          let inside = child_of-in len at pos e in
          let least = child_of-least tie h at len pos c n r e k l (omega arith) in
          let no_more : rank tie h.value ≤ weight tie h.owner (child_of len at pos) =
            ground (arith, a (child_of len at pos), inside.0, inside.1) in
          omega (arith, least, no_more)
    ]
lower-IsSettled {tie} {len} {at} {greater} {end} (step {d = d} {pos = pos} e t p) h n f v g b a r =
    let s = child_of len at pos in
    let inside = child_of-in len at pos e in
    let source : (end + 1) / 2 ^ d - 1 ≡ s = omega (arith, ancestor p) in
    let bound : s < h.owner.len = omega (arith, inside) in
    let apart : s ≢ h.position = omega (arith, inside) in
    let least : (c : ℕ)
        → 0 < c
        → c < h.owner.len
        → parent c ≡ h.position
        → weight tie h.owner s ≤ weight tie h.owner c =
      λ c k l m. child_of-least tie h at len pos c n r e k l (omega arith) in
    let lighter : weight tie h.owner s < rank tie h.value = ground (arith, a s) in
    let next =
      shift-IsGap_down tie h s (omega (arith, inside)) (omega (arith, inside)) bound lighter least
        g in
    let ih =
      lower-IsSettled {tie = tie} p (shift h s) n refl (shift-IsLinked h s v bound apart) next.0
        (λ z. next.1) (λ q x y. ground (arith, a q, inside))
        (λ q u x y z w. ground (arith, r q u, inside)) in
    rw (lower-suc d end s h source)
      (IsKept-shift h (lower d end (shift h s)) s v bound apart ih.0, ih.1, ih.2)
