-- ===== src/Prelude/Masks.antt =====
-- A bitwise `and` with a mask of low digits is a remainder.
use Prim.Native.Nat.{
  ℕ, zero, suc, ◌+◌, ◌-◌, ◌*◌, ◌/◌, ◌%◌, ◌^◌, ◌≤◌, ◌<◌, min, bit_and, bit_and-bitwise, digits,
}
use mathlib.Core.Path.{◌≡◌, refl, sym, ap, ◌∙◌}
use native.Mathlib.Omega.{arith, pow_step, div_any}
use native.Mathlib.Nat.{
  mod-lt, mod-one, mul_assoc, mul-add-mod_self_left, mod-eq_of_lt, zero-mod, one-le-pow, one-mul,
  mul-suc,
}

pub two_pow-pos : (k : ℕ) → 0 < 2 ^ k
two_pow-pos k = one-le-pow k 2 (omega arith)

-- The lowest digit of a remainder by an even number stands apart.
mod_double : (a m : ℕ) → 0 < m → a % (2 * m) ≡ (a / 2) % m * 2 + a % 2
mod_double a m l =
    let x = a / 2 in
    let q = x / m in
    let s = x % m in
    let r = a % 2 in
    let whole : a ≡ 2 * m * q + (s * 2 + r) = omega (arith, div_any x m, mul_assoc 2 m q) in
    let low : s * 2 + r < 2 * m = omega (arith, mod-lt x l) in
    ap (λ y. y % (2 * m)) whole ∙ mul-add-mod_self_left (2 * m) q (s * 2 + r) ∙ mod-eq_of_lt low

digits_zero : (n a : ℕ) → digits (λ b. 0) min n a 0 ≡ 0
digits_zero zero a = refl
digits_zero (suc n) zero = refl
digits_zero (suc n) (suc a) = omega (arith, digits_zero n (suc a / 2))

digits_mask : (k n a : ℕ) → a ≤ n → digits (λ b. 0) min n a (2 ^ k - 1) ≡ a % 2 ^ k
digits_mask zero n a l = digits_zero n a ∙ sym (mod-one a)
digits_mask (suc k) zero zero l = sym (zero-mod (2 ^ suc k))
digits_mask (suc k) zero (suc a) l = absurd (omega arith)
digits_mask (suc k) (suc n) zero l = sym (zero-mod (2 ^ suc k))
digits_mask (suc k) (suc n) (suc a) l =
    let p = two_pow-pos k in
    let half : (2 ^ suc k - 1) / 2 ≡ 2 ^ k - 1 = omega (arith, p, pow_step 2 k) in
    let odd : (2 ^ suc k - 1) % 2 ≡ 1 = omega (arith, p, pow_step 2 k) in
    let ih = digits_mask k n (suc a / 2) (omega arith) in
    let low : digits (λ b. 0) min n (suc a / 2) ((2 ^ suc k - 1) / 2) ≡ (suc a / 2) % 2 ^ k =
      ap (digits (λ b. 0) min n (suc a / 2)) half ∙ ih in
    let split : suc a % 2 ^ suc k ≡ (suc a / 2) % 2 ^ k * 2 + suc a % 2 =
      ap (λ y. suc a % y) (pow_step 2 k) ∙ mod_double (suc a) (2 ^ k) p in
    omega (arith, odd, low, split)

pub and_mask : (k a : ℕ) → bit_and a (2 ^ k - 1) ≡ a % 2 ^ k
and_mask k a = bit_and-bitwise a (2 ^ k - 1) ∙ digits_mask k a a (omega arith)

zero_plus : (b : ℕ) → zero + b ≡ b
zero_plus b = omega arith

suc_plus : (a b : ℕ) → suc a + b ≡ suc (a + b)
suc_plus a b = omega arith

two_pow_add : (a b : ℕ) → 2 ^ (a + b) ≡ 2 ^ a * 2 ^ b
two_pow_add zero b = ap (λ y. 2 ^ y) (zero_plus b) ∙ sym (one-mul (2 ^ b))
two_pow_add (suc a) b =
    ap (λ y. 2 ^ y) (suc_plus a b)
    ∙ pow_step 2 (a + b)
    ∙ omega (arith, two_pow_add a b, mul_assoc 2 (2 ^ a) (2 ^ b))
    ∙ ap (λ y. y * 2 ^ b) (sym (pow_step 2 a))

-- A power of two up to the 64th divides it.
pub word_multiple : (k : ℕ) → k ≤ 64 → (c : ℕ) × (2 ^ k * suc c ≡ 2 ^ 64)
word_multiple k l =
    let c = 2 ^ (64 - k) - 1 in
    let whole : suc c ≡ 2 ^ (64 - k) = omega (arith, two_pow-pos (64 - k)) in
    let sum : k + (64 - k) ≡ 64 = omega arith in
    (c, ap (λ y. 2 ^ k * y) whole ∙ sym (two_pow_add k (64 - k)) ∙ ap (λ y. 2 ^ y) sum)

-- An `and` with a mask of high digits clears the low ones.
digits_high :
    (k w c n a : ℕ)
    → suc c ≡ 2 ^ w
    → a ≤ n
    → a < 2 ^ k * 2 ^ w
    → digits (λ b. 0) min n a (2 ^ k * c) ≡ a - a % 2 ^ k
digits_high zero w c n a e l m =
    let mask : 2 ^ 0 * c ≡ 2 ^ w - 1 = omega (arith, e, one-mul c) in
    let low : a < 2 ^ w = omega (arith, m, one-mul (2 ^ w)) in
    ap (digits (λ b. 0) min n a) mask
    ∙ digits_mask w n a l
    ∙ mod-eq_of_lt low
    ∙ omega (arith, mod-one a)
digits_high (suc k) w c zero zero e l m = omega arith
digits_high (suc k) w c zero (suc a) e l m = absurd (omega arith)
digits_high (suc k) w c (suc n) zero e l m = omega arith
digits_high (suc k) w c (suc n) (suc a) e l m =
    let p = two_pow-pos k in
    let twice : 2 ^ suc k * c ≡ 2 * (2 ^ k * c) =
      ap (λ y. y * c) (pow_step 2 k) ∙ mul_assoc 2 (2 ^ k) c in
    let whole : 2 ^ suc k * 2 ^ w ≡ 2 * (2 ^ k * 2 ^ w) =
      ap (λ y. y * 2 ^ w) (pow_step 2 k) ∙ mul_assoc 2 (2 ^ k) (2 ^ w) in
    let half : (2 ^ suc k * c) / 2 ≡ 2 ^ k * c = omega (arith, twice) in
    let even : (2 ^ suc k * c) % 2 ≡ 0 = omega (arith, twice) in
    let ih = digits_high k w c n (suc a / 2) e (omega arith) (omega (arith, m, whole)) in
    let high : digits (λ b. 0) min n (suc a / 2) ((2 ^ suc k * c) / 2)
        ≡ suc a / 2 - (suc a / 2) % 2 ^ k =
      ap (digits (λ b. 0) min n (suc a / 2)) half ∙ ih in
    let split : suc a % 2 ^ suc k ≡ (suc a / 2) % 2 ^ k * 2 + suc a % 2 =
      ap (λ y. suc a % y) (pow_step 2 k) ∙ mod_double (suc a) (2 ^ k) p in
    omega (arith, even, high, split)

pub and_high : (k a : ℕ) → k ≤ 64 → a < 2 ^ 64 → bit_and a (2 ^ 64 - 2 ^ k) ≡ a - a % 2 ^ k
and_high k a l m =
    let w = 64 - k in
    let c = 2 ^ w - 1 in
    let top : suc c ≡ 2 ^ w = omega (arith, two_pow-pos w) in
    let sum : k + w ≡ 64 = omega (arith, l) in
    let whole : 2 ^ k * 2 ^ w ≡ 2 ^ 64 = sym (two_pow_add k w) ∙ ap (λ y. 2 ^ y) sum in
    let split : 2 ^ k * c + 2 ^ k ≡ 2 ^ k * 2 ^ w =
      sym (mul-suc (2 ^ k) c) ∙ ap (λ y. 2 ^ k * y) top in
    let mask : 2 ^ 64 - 2 ^ k ≡ 2 ^ k * c = omega (arith, split, whole) in
    ap (bit_and a) mask
    ∙ bit_and-bitwise a (2 ^ k * c)
    ∙ digits_high k w c a a top (omega arith) (omega (arith, m, whole))
