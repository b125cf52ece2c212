-- ===== src/Alloc/Size.antt =====
-- Saturated sizes read the exact ones wherever those fit.
use Prim.Native.Nat.{bit_and}
use native.Mathlib.Omega.{div_any}
use native.Mathlib.Nat.{mod-lt, div-lt_iff_lt-mul, suc-mul, mul-le-mul_right, pow-le-pow_right}
use o.Prelude.{
  ℕ, suc, ◌+◌, ◌-◌, ◌*◌, ◌/◌, ◌%◌, ◌^◌, ◌<◌, ◌≤◌, ◌≡◌, ap, ◌∙◌, ltb, mod64, arith, Bool-cases, inl,
  inr, and_high, two_pow-pos,
}
use o.Alloc.{saturating_add, saturating_mul, round_up, isize_max}

-- Alignments are powers of two.
abbrev pub IsAlign : ℕ → Type 0
IsAlign align = (k : ℕ) × (k ≤ 62) × (align ≡ 2 ^ k)

-- A word that is the size where that is at most `isize_max`, and above it where the size is.
pub record Reads (word size : ℕ) : Type 0 where
  pub exact : size ≤ isize_max → word ≡ size
  pub above : isize_max < size → isize_max < word
  pub bounded : word < mod64

pub align-bound : (k : ℕ) → k ≤ 62 → 2 ^ k ≤ 2 ^ 62
align-bound k l = pow-le-pow_right (omega arith) l

-- A size rounded up is the least multiple that is not below it.
pub round_up-split :
    (size align : ℕ)
    → 0 < align
    → round_up size align + (size + (align - 1)) % align ≡ size + (align - 1)
round_up-split size align l = omega (arith, div_any (size + (align - 1)) align)

pub round_up-between :
    (size align : ℕ)
    → 0 < align
    → (size ≤ round_up size align) × (round_up size align < size + align)
round_up-between size align l =
    let split = round_up-split size align l in
    let low = mod-lt (size + (align - 1)) l in
    (omega (arith, split, low), omega (arith, split, low))

pub round_word :
    (word align : ℕ)
    → IsAlign align
    → word < mod64
    → bit_and word (mod64 - align) ≡ word - word % align
round_word word align (k, l, e) m =
    let clear : bit_and word (mod64 - 2 ^ k) ≡ word - word % 2 ^ k =
      and_high k word (omega (arith, l)) m in
    rw e clear

-- Rounding a word up reads the rounded size.
pub round_up-Reads :
    (word size align : ℕ)
    → IsAlign align
    → Reads word size
    → Reads (bit_and (saturating_add word (align - 1)) (mod64 - align)) (round_up size align)
round_up-Reads word size align (k, l, e) v =
    let bound : align ≤ 2 ^ 62 = rw e (align-bound k l) in
    let some_bit : 0 < align = rw e (two_pow-pos k) in
    let total = saturating_add word (align - 1) in
    let fit : total < mod64 = ground (arith, v.bounded) in
    let cleared = round_word total align (k, l, e) fit in
    let low = mod-lt total some_bit in
    let split = round_up-split size align some_bit in
    let between = round_up-between size align some_bit in
    let same : size ≤ isize_max → bit_and total (mod64 - align) ≡ round_up size align = λ m.
      let at : total ≡ size + (align - 1) = ground (arith, m, v.exact m, bound) in
      cleared ∙ ap (λ t. t - t % align) at ∙ omega (arith, split) in
    record {
      exact = λ m. same (omega (arith, m, between));
      above = λ m. elim (Bool-cases (ltb isize_max size)) [
        | inl b ↦
            let big : isize_max < word = v.above (ground (arith, b)) in
            let large : isize_max + align ≤ total = ground (arith, big, bound) in
            rw cleared (omega (arith, large, low))
        | inr b ↦ rw (same (ground (arith, b))) m
      ];
      bounded = rw cleared (omega (arith, fit));
    }

pub sum-Reads :
    (word size each len : ℕ)
    → Reads word size
    → Reads (saturating_add word (saturating_mul each len)) (size + each * len)
sum-Reads word size each len v = record {
  exact = λ l. ground (arith, l, v.exact, v.above, v.bounded);
  above = λ l. ground (arith, l, v.exact, v.above, v.bounded);
  bounded = ground (arith, v.bounded);
}

pub round_up_mono : (a b align : ℕ) → 0 < align → a ≤ b → round_up a align ≤ round_up b align
round_up_mono a b align l m =
    let n = (b + (align - 1)) / align in
    let below : a + (align - 1) < suc n * align =
      omega
        (arith, m, suc-mul n align, div_any (b + (align - 1)) align, mod-lt (b + (align - 1)) l) in
    let fewer : (a + (align - 1)) / align < suc n = (div-lt_iff_lt-mul l).1 below in
    mul-le-mul_right align (omega (arith, fewer))
