-- ===== src/Heap/Descent.antt =====
-- The path that `down` decides, and its levels as `apply` computes them from the end of it.
use Prim.Native.Nat.{Ordering}
use native.Mathlib.Nat.{div-div-eq-div-mul, pow-suc}
use o.Prelude.{
  ℕ, zero, suc, ◌+◌, ◌-◌, ◌/◌, ◌^◌, ◌≤◌, ◌<◌, ◌≡◌, ◌⊎◌, inl, inr, refl, ◌∙◌, sym, ap, Bool, true,
  false, arith, leb, ◌&&◌, Bool-cases,
}
use o.Heap.{is_gt}
use o.Heap.Path.{parent, child_of, down_end, bits_from, leading_zeros}

-- Whether a position has a child, as the loop of `down` tests it.
abbrev pub has_child : ℕ → ℕ → Bool
has_child len pos = leb 2 len && leb pos ((len - 2) / 2)

-- The decision of `down`: as many levels down from a start to the end, each above a smaller child.
pub data DownPath (len : ℕ) (at : ℕ → ℕ → Ordering) (greater : ℕ → Bool) (end : ℕ)
    : ℕ → ℕ → Type 0 where
  stop :
      {pos : ℕ}
      → pos ≡ end
      → (has_child len pos ≡ false) ⊎ (greater (child_of len at pos) ≡ false)
      → DownPath len at greater end 0 pos
  step :
      {d pos : ℕ}
      → has_child len pos ≡ true
      → greater (child_of len at pos) ≡ true
      → DownPath len at greater end d (child_of len at pos)
      → DownPath len at greater end (suc d) pos

pub child_of-in :
    (len : ℕ) (at : ℕ → ℕ → Ordering) (pos : ℕ)
    → has_child len pos ≡ true
    → (pos < child_of len at pos)
      × (child_of len at pos < len)
      × ((child_of len at pos + 1) / 2 ≡ pos + 1)
      × (parent (child_of len at pos) ≡ pos)
unfolding child_of
child_of-in len at pos h = (ground arith, ground arith, ground arith, ground arith)

module _ {len : ℕ} {at : ℕ → ℕ → Ordering} where
  -- The fuel of `down` suffices.
  pub down_end-DownPath :
      (k : ℕ) (compare : ℕ → Ordering) (pos : ℕ)
      → len - pos < k
      → (d : ℕ) × DownPath len at (λ p. is_gt (compare p)) (down_end k len at compare pos) d pos
  unfolding down_end
  down_end-DownPath zero compare pos h = absurd (omega arith)
  down_end-DownPath (suc k) compare pos h = elim (Bool-cases (has_child len pos)) [
    | inr e ↦ rw e (0, stop refl (inl e))
    | inl e ↦ elim (Bool-cases (is_gt (compare (child_of len at pos)))) [
      | inr g ↦ rw (e, g) (0, stop refl (inr g))
      | inl g ↦
          let inside = child_of-in len at pos e in
          let ih = down_end-DownPath k compare (child_of len at pos) (omega (arith, inside)) in
          rw (e, g) (suc ih.0, step e g ih.1)
    ]
  ]

module _ {len : ℕ} {at : ℕ → ℕ → Ordering} {greater : ℕ → Bool} {end : ℕ} where
  pub DownPath-le :
      {d pos : ℕ} → DownPath len at greater end d pos → (pos + d ≤ end) × (pos < len → end < len)
  DownPath-le (stop e s) = (omega arith, λ l. omega arith)
  DownPath-le (step {pos = pos} c g p) =
      let inside = child_of-in len at pos c in
      let ih = DownPath-le p in (omega (arith, inside, ih.0), λ l. ih.1 (inside.1))

  -- The position from which the path has `d` more levels, as the loop of `apply` computes it.
  pub ancestor : {d pos : ℕ} → DownPath len at greater end d pos → (end + 1) / 2 ^ d ≡ pos + 1
  ancestor (stop e s) = omega arith
  ancestor (step {d = d} {pos = pos} c g p) =
      let inside = child_of-in len at pos c in
      ap (λ n. (end + 1) / n) (pow-suc 2 d)
      ∙ sym (div-div-eq-div-mul (end + 1) (2 ^ d) 2)
      ∙ ap (λ n. n / 2) (ancestor p)
      ∙ inside.2

bits_from-suc : (k x : ℕ) → x < 2 ^ k → bits_from (suc k) x ≡ bits_from k x
unfolding bits_from
bits_from-suc zero x h = ground arith
bits_from-suc (suc k) x h =
    let ih = bits_from-suc k (x / 2) (omega (arith, pow-suc 2 k)) in ground (arith, ih)

bits_from-le : (k x : ℕ) → bits_from k x ≤ k
unfolding bits_from
bits_from-le zero x = omega arith
bits_from-le (suc k) x = ground (arith, bits_from-le k (x / 2))

bits_from-half : (k x : ℕ) → 1 < x → bits_from (suc k) x ≡ bits_from k (x / 2) + 1
unfolding bits_from
bits_from-half k x h = ground arith

-- A child has one digit more than its parent, both counted from 1.
bits_from-child :
    (k x : ℕ) → 1 < x → x < 2 ^ suc k → bits_from (suc k) x ≡ bits_from (suc k) (x / 2) + 1
bits_from-child k x h l =
    let half = bits_from-suc k (x / 2) (omega (arith, pow-suc 2 k)) in
    rw half (bits_from-half k x h)

module _ {len : ℕ} {at : ℕ → ℕ → Ordering} {greater : ℕ → Bool} {end : ℕ} where
  digits :
      {d pos : ℕ} (k : ℕ)
      → DownPath len at greater end d pos
      → end + 1 < 2 ^ suc k
      → bits_from (suc k) (end + 1) ≡ bits_from (suc k) (pos + 1) + d
  digits k (stop e s) h = rw e (omega arith)
  digits k (step {d = d} {pos = pos} c g p) h =
      let inside = child_of-in len at pos c in
      let x = child_of len at pos + 1 in
      let child =
        bits_from-child k x (omega (arith, inside.0)) (omega (arith, (DownPath-le p).0)) in
      let same : bits_from (suc k) (x / 2) ≡ bits_from (suc k) (pos + 1) =
        ap (bits_from (suc k)) inside.2 in
      omega (arith, digits k p h, child, same)

  -- The number of levels is the difference of the counts of leading zeros.
  pub leading_zeros-DownPath :
      {d pos : ℕ}
      → DownPath len at greater end d pos
      → end + 1 < 2 ^ 64
      → leading_zeros (pos + 1) - leading_zeros (end + 1) ≡ d
  unfolding leading_zeros
  leading_zeros-DownPath {pos = pos} p h = omega (arith, digits 63 p h, bits_from-le 64 (end + 1))
