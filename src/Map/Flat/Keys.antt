-- ===== src/Map/Flat/Keys.antt =====
-- Maps from keys, changed at one key.
use o.Prelude.{
  ◌≡◌, ◌↔◌, inl, inr, ◌⊎◌, refl, sym, ◌∙◌, Bool, true, false, Option, none, some, Bool-cases,
  if◌then◌else◌,
}

module _ {ℓ κ} {V : Type ℓ} {K : Type κ} (eq : K → K → Bool) where
  -- The map with a value at a key, and without a key.
  abbrev pub enter : (K → Option V) → K → V → K → Option V
  enter m j v k = if eq j k then some v else m k

  abbrev pub erase : (K → Option V) → K → K → Option V
  erase m j k = if eq j k then none else m k

  module _ (eq_iff : (a b : K) → (eq a b ≡ true) ↔ (a ≡ b)) (m : K → Option V) (j k : K) where
    eq_ne : (j ≡ k → ⊥) → eq j k ≡ false
    eq_ne h = elim (Bool-cases (eq j k)) [ inl e ↦ absurd (h ((eq_iff j k).0 e)) | inr e ↦ e ]

    pub enter_new : (v : V) → j ≡ k → enter m j v k ≡ some v
    enter_new v e = rw ((eq_iff j k).1 e) refl

    pub enter_old : (v : V) → (j ≡ k → ⊥) → enter m j v k ≡ m k
    enter_old v h = rw (eq_ne h) refl

    pub enter_cases :
        (v w : V) → enter m j v k ≡ some w → ((j ≡ k) × (v ≡ w)) ⊎ ((j ≡ k → ⊥) × (m k ≡ some w))
    enter_cases v w e = elim (Bool-cases (eq j k)) [
      | inl b ↦ inl ((eq_iff j k).0 b, let f : some v ≡ some w = sym (rw b refl) ∙ e in cc)
      | inr b ↦ inr (λ p. let f = (eq_iff j k).1 p in cc, sym (rw b refl) ∙ e)
    ]

    pub erase_old : (j ≡ k → ⊥) → erase m j k ≡ m k
    erase_old h = rw (eq_ne h) refl

    pub erase-some : (v : V) → erase m j k ≡ some v → (j ≡ k → ⊥) × (m k ≡ some v)
    erase-some v e = elim (Bool-cases (eq j k)) [
      | inl b ↦ let f : none ≡ some v = sym (rw b refl) ∙ e in absurd (cc)
      | inr b ↦ (λ p. let f = (eq_iff j k).1 p in cc, sym (rw b refl) ∙ e)
    ]
