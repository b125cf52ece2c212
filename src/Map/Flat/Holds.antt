-- ===== src/Map/Flat/Holds.antt =====
-- What a flat table holds for the keys of its values, and what a probe for a key finds.
use o.Prelude.{
  ℕ, ◌<◌, ◌≤◌, ◌≡◌, ◌≢◌, ◌⊎◌, ◌↔◌, inl, inr, ap, ◌∙◌, Bool, true, Option, none, some, Result,
  Option-cases, ◌==◌, arith,
}
use o.Map.{State, occupied, vacant, full, empty_control, plan_max, start, scan}
use o.Map.Circle.{steps}
use o.Map.Closing.{IsDirectory}
use o.Map.Counting.{occupied_count, count-vacant}
use o.Map.Lookup.{Outcome, found, missed, scan-Outcome}
use o.Map.Flat.{Flat, Infallible, sure, probe}

module _ {ℓ κ} {V : Type ℓ} {K : Type κ} (key : V → K) (hash : K → ℕ) where
  -- The table holds `size` values, exactly those that the map has for their keys, each under its hash.
  pub record Holds (self : Flat V) (m : K → Option V) (size : ℕ) : Type (ℓ ⊔ κ) where
    pub word : self.capacity ≤ plan_max
    pub len : self.len ≡ size
    pub fits : size ≤ self.capacity
    pub counted : occupied_count self.table.buckets self.table.controls ≡ size
    pub shape :
        ((self.table.buckets ≡ 0) × (self.capacity ≡ 0))
        ⊎ (IsDirectory self.table × (self.capacity < self.table.buckets))
    pub placed :
        (i : ℕ)
        → i < self.table.buckets
        → self.table.controls i ≢ empty_control
        → self.table.hashes i ≡ hash (key (self.table.payloads i))
    pub unique :
        (i j : ℕ)
        → i < self.table.buckets
        → j < self.table.buckets
        → self.table.controls i ≢ empty_control
        → self.table.controls j ≢ empty_control
        → key (self.table.payloads i) ≡ key (self.table.payloads j)
        → i ≡ j
    pub entered :
        (i : ℕ)
        → i < self.table.buckets
        → self.table.controls i ≢ empty_control
        → m (key (self.table.payloads i)) ≡ some (self.table.payloads i)
    pub present :
        (k : K) (v : V)
        → m k ≡ some v
        → (i : ℕ) × (i < self.table.buckets)
          × (self.table.controls i ≢ empty_control)
          × (self.table.payloads i ≡ v)
          × (key v ≡ k)

  -- The bucket of the key; or no value of it, and a vacant bucket behind occupied ones, or no bucket.
  pub data Looked (self : Flat V) (m : K → Option V) (k : K) : Option State → Type (ℓ ⊔ κ) where
    at :
        (b : ℕ)
        → b < self.table.buckets
        → self.table.controls b ≢ empty_control
        → key (self.table.payloads b) ≡ k
        → Looked self m k (some (occupied b))
    gone :
        (b : ℕ)
        → b < self.table.buckets
        → self.table.controls b ≡ empty_control
        → ((j : ℕ)
            → j < self.table.buckets
            → steps self.table.buckets (start self.table (hash k)) j
              < steps self.table.buckets (start self.table (hash k)) b
            → self.table.controls j ≢ empty_control)
        → m k ≡ none
        → Looked self m k (some (vacant b))
    void : self.table.buckets ≡ 0 → m k ≡ none → Looked self m k (some full)

  module _ (eq : K → K → Bool) (eq_iff : (a b : K) → (eq a b ≡ true) ↔ (a ≡ b)) where
    -- A key without a bucket is not in the map.
    absent :
        {self : Flat V} {m : K → Option V} {size : ℕ} (k : K)
        → Holds self m size
        → ((i : ℕ)
            → i < self.table.buckets
            → self.table.controls i ≢ empty_control
            → key (self.table.payloads i) ≡ k
            → ⊥)
        → m k ≡ none
    absent {m = m} k h e = elim (Option-cases (m k)) [
      | inl n ↦ n
      | inr (v, p) ↦ let (i, l, o, q, r) = h.present k v p in absurd (e i l o (ap key q ∙ r))
    ]

    Outcome-Looked :
        {self : Flat V} {m : K → Option V} {size : ℕ} (k : K) {r : Option (Result Infallible State)}
        → Holds self m size
        → Outcome self.table (hash k) (λ b. eq (key (self.table.payloads b)) k) r
        → Looked self m k (sure r)
    Outcome-Looked {self} k h (found b l o e t) = at b l o ((eq_iff _ _).0 t)
    Outcome-Looked {self} k h (missed b l o c n) = gone b l o c (
        absent k h (λ i p q e.
          let same : self.table.hashes i ≡ hash k = h.placed i p q ∙ ap hash e in
          let t = (eq_iff _ _).1 e in let f = n i p q same in cc))

    pub probe-Looked :
        {self : Flat V} {m : K → Option V} {size : ℕ} (k : K)
        → Holds self m size
        → Looked self m k (probe self (hash k) (λ v. eq (key v) k))
    unfolding probe
    probe-Looked {self} {size = size} k h = elim h.shape [
      | inl (e, c) ↦
          let idle : (self.table.buckets == 0) ≡ true = ground (arith, e) in
          rw (probe, scan, idle) (void e (absent k h (λ i l o q. absurd (omega (arith, l, e)))))
      | inr (d, l) ↦
          let (spare, p, o) =
            count-vacant self.table.buckets self.table.controls
              (omega (arith, l, h.counted, h.fits)) in
          Outcome-Looked k h (
            scan-Outcome self.table d Infallible (hash k) (λ b. eq (key (self.table.payloads b)) k)
              spare p o true)
    ]
