-- ===== src/Map/Circle.antt =====
-- The circle of buckets: what the masked steps and distances of src/depot/map/raw compute, for an
-- extent that is a power of two.
use Prim.Native.Nat.{bit_and}
use native.Mathlib.Nat.{mod-lt, mod-eq_of_lt, mod_self, mul-add-mod_self_left, mul-suc}
use o.Prelude.{
  ℕ, suc, ◌+◌, ◌-◌, ◌*◌, ◌%◌, ◌^◌, ◌<◌, ◌≤◌, ◌≡◌, ◌≢◌, ap, ◌∙◌, false, leb, ◌==◌, if◌then◌else◌,
  mod64, wrapping_sub, arith, and_mask, two_pow-pos, word_multiple, Bool-cases, inl, inr,
}
use o.Map.{mask}

-- An extent that `Plan` admits: a power of two, at most 2 ^ 31.
pub record IsExtent (n : ℕ) : Type 0 where
  pub digits : ℕ
  pub small : digits ≤ 31
  pub is_power : n ≡ 2 ^ digits

abbrev pub after : ℕ → ℕ → ℕ
after n i = if i + 1 == n then 0 else i + 1

-- The number of steps from one bucket to another.
abbrev pub steps : (n a b : ℕ) → ℕ
steps n a b = if leb a b then b - a else b + n - a

pub steps_less : (n a b : ℕ) → a < n → b < n → a ≢ b → steps n (after n a) b < steps n a b
steps_less n a b l m o = ground arith

pub steps_one :
    (n a b : ℕ)
    → a < n
    → b < n
    → a ≢ b
    → (steps n a (after n a) ≡ 1) × (after n a ≢ a) × (0 < steps n a b)
steps_one n a b l m o = ground arith

pub steps_lt : (n a b : ℕ) → a < n → b < n → steps n a b < n
steps_lt n a b l m = ground arith

pub steps_further :
    (n a b c : ℕ)
    → a < n
    → b < n
    → c < n
    → b ≢ c
    → steps n a b ≤ steps n a c
    → (steps n a (after n b) ≡ steps n a b + 1) × (steps n a (after n b) ≤ steps n a c)
steps_further n a b c l m o p q = ground (arith, q)

pub steps_same : (n a b c : ℕ) → a < n → b < n → c < n → steps n a b ≡ steps n a c → b ≡ c
steps_same n a b c l m o p = ground (arith, p)

module _ {n : ℕ} (e : IsExtent n) where
  pub extent-positive : 0 < n
  extent-positive = omega (arith, e.is_power, two_pow-pos e.digits)

  -- What is left of a word above the extent's digits.
  word : (c : ℕ) × (n * suc c ≡ 2 ^ 64)
  word =
      let (c, p) = word_multiple e.digits (omega (arith, e.small)) in
      (c, ap (λ x. x * suc c) e.is_power ∙ p)

  extent-small : n ≤ 2 ^ 64
  extent-small = omega (arith, word.1, mul-suc n word.0)

  masked : (a : ℕ) → bit_and a (n - 1) ≡ a % n
  masked a = rw e.is_power (and_mask e.digits a)

  pub mask-extent : mask n ≡ n - 1
  mask-extent = omega (arith, extent-positive, extent-small)

  pub start-home : (a : ℕ) → bit_and a (n - 1) < n
  start-home a = ground (arith, masked a, mod-lt a extent-positive)

  pub after_mask : (i : ℕ) → i < n → bit_and (i + 1) (n - 1) ≡ after n i
  after_mask i l = elim (Bool-cases (i + 1 == n)) [
    | inl b ↦
        masked (i + 1) ∙ (ap (λ x. x % n) (ground (arith, b)) ∙ mod_self n ∙ ground (arith, b))
    | inr b ↦ masked (i + 1) ∙ mod-eq_of_lt (ground (arith, b)) ∙ ground (arith, b)
  ]

  around :
      (a b : ℕ)
      → a < n
      → b < n
      → leb a b ≡ false
      → wrapping_sub mod64 b a ≡ n * word.0 + (b + n - a)
  around a b l m p =
      let q : b < a = ground (arith, p) in
      let small : (b + mod64 - a) % mod64 ≡ b + mod64 - a = omega (arith, q, extent-small) in
      small ∙ omega (arith, word.1, mul-suc n word.0)

  pub steps_mask :
      (a b : ℕ) → a < n → b < n → bit_and (wrapping_sub mod64 b a) (n - 1) ≡ steps n a b
  steps_mask a b l m = masked (wrapping_sub mod64 b a) ∙ elim (Bool-cases (leb a b)) [
    | inl p ↦
        ap (λ x. x % n) (ground (arith, p, extent-small))
        ∙ mod-eq_of_lt {n = b - a} (omega (arith, m))
        ∙ ground (arith, p)
    | inr p ↦
        ap (λ x. x % n) (around a b l m p)
        ∙ mul-add-mod_self_left n word.0 (b + n - a)
        ∙ mod-eq_of_lt {n = b + n - a} (ground (arith, p))
        ∙ ground (arith, p)
  ]
