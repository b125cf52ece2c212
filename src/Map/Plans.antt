-- ===== src/Map/Plans.antt =====
-- src/depot/map/plan.rs: the buckets of a plan.
use native.Mathlib.Omega.{pow_step}
use o.Prelude.{
  ℕ, zero, suc, ◌+◌, ◌*◌, ◌^◌, ◌<◌, ◌≤◌, ◌≡◌, ◌≢◌, ◌↔◌, true, false, ◌⊎◌, inl, inr, refl, sym, ap,
  ◌∙◌, Bool-cases, ltb, ◌==◌, ok, arith,
}
use o.Map.{Plan, plan_max, new_plan, doubled, plan_buckets}
use o.Map.Circle.{IsExtent}

-- Doubling a power of two up to a value that 2 ^ 31 bounds.
doubled-power :
    (rounds e value : ℕ)
    → e ≤ 31
    → 31 ≤ e + rounds
    → value ≤ 2 ^ 31
    → (d : ℕ) × (d ≤ 31) × (doubled rounds (2 ^ e) value ≡ 2 ^ d) × (value ≤ 2 ^ d)
unfolding doubled
doubled-power zero e value l m n = let top : e ≡ 31 = omega arith in (e, l, refl, rw top n)
doubled-power (suc rounds) e value l m n = elim (Bool-cases (ltb (2 ^ e) value)) [
  | inl b ↦
      let below : 2 ^ e < value = ground (arith, b) in
      let low : e ≢ 31 = λ t. absurd (omega (arith, n, rw t at below)) in
      let (d, p, q, r) =
        doubled-power rounds (suc e) value (omega (arith, l, low)) (omega (arith, m)) n in
      (d, p, rw b (ap (λ x. doubled rounds x value) (sym (pow_step 2 e)) ∙ q), r)
  | inr b ↦ (e, l, rw b refl, ground (arith, b))
]

-- What a plan lays out for a capacity.
pub record IsPlan (capacity : ℕ) (self : Plan) : Type 0 where
  pub kept : self.capacity.count ≡ capacity
  pub small : capacity ≤ plan_max
  pub shape :
      ((plan_buckets self ≡ 0) × (capacity ≡ 0))
      ⊎ (IsExtent (plan_buckets self) × (capacity * 2 ≤ plan_buckets self) × (capacity ≢ 0))

planned :
    (capacity count : ℕ) (self : Plan)
    → self.capacity.count ≡ count
    → count ≡ capacity
    → capacity ≤ plan_max
    → IsPlan capacity self
unfolding plan_buckets
planned capacity count self e f l = elim (Bool-cases (count == 0)) [
  | inl b ↦
      let none_left : (self.capacity.count == 0) ≡ true = ground (arith, b, e) in
      record {
        kept = e ∙ f;
        small = l;
        shape = inl (rw (plan_buckets, none_left) refl, ground (arith, b, f));
      }
  | inr b ↦
      let some_left : (self.capacity.count == 0) ≡ false = ground (arith, b, e) in
      let (d, p, q, r) =
        doubled-power 64 0 (self.capacity.count * 2) (omega arith) (omega arith)
          (omega (arith, e, f, l)) in
      let whole : plan_buckets self ≡ 2 ^ d = rw (plan_buckets, some_left) q in
      record {
        kept = e ∙ f;
        small = l;
        shape = inr (
          record { digits = d; small = p; is_power = whole },
          omega (arith, whole, r, e, f),
          ground (arith, b, f),
        );
      }
]

-- A capacity is planned exactly if it is at most 2 ^ 30, and the plan keeps it; its buckets are none
-- for none, and are else a power of two, at most 2 ^ 31 and at least twice the capacity.
pub new_plan-ok_iff :
    (capacity : ℕ) (self : Plan) → (new_plan capacity ≡ ok self) ↔ IsPlan capacity self
unfolding new_plan
new_plan-ok_iff capacity self = (
  λ e. planned capacity self.capacity.count self refl (ground (arith, e)) (ground (arith, e)),
  λ v. ground (arith, v.kept, v.small),
)
