-- ===== src/Map/Lookup.antt =====
-- What a scan finds in a directory, with a matcher that cannot fail.
use o.Prelude.{
  ℕ, zero, suc, ◌<◌, ◌≤◌, ◌≡◌, ◌≢◌, refl, sym, ap, ◌∙◌, Bool, true, false, Option, some, Result, ok,
  arith, ℕ_discrete, dec_lt,
}
use o.Map.{Table, State, occupied, vacant, hit, gap, skip, candidate, empty_control, start, scan}
use o.Map.Circle.{after, steps, steps_less, steps_lt, steps_further, mask-extent, steps_same}
use o.Map.Closing.{IsDirectory, home}
use o.Map.Within.{bounded, within-walk}
use o.Map.Probing.{look, walk, scan-walk, start_in}

-- A bucket's entry of the hash that matches; or a vacant bucket with only occupied ones before it, and
-- no such entry anywhere.
pub data Outcome {ℓ κ} {P : Type ℓ} {E : Type κ} (self : Table P) (hash : ℕ) (m : ℕ → Bool)
    : Option (Result E State) → Type (ℓ ⊔ κ) where
  found :
      (b : ℕ)
      → b < self.buckets
      → self.controls b ≢ empty_control
      → self.hashes b ≡ hash
      → m b ≡ true
      → Outcome self hash m (some (ok (occupied b)))
  missed :
      (b : ℕ)
      → b < self.buckets
      → self.controls b ≡ empty_control
      → ((j : ℕ)
          → j < self.buckets
          → steps self.buckets (start self hash) j < steps self.buckets (start self hash) b
          → self.controls j ≢ empty_control)
      → ((i : ℕ)
          → i < self.buckets
          → self.controls i ≢ empty_control
          → self.hashes i ≡ hash
          → m i ≡ false)
      → Outcome self hash m (some (ok (vacant b)))

module _ {ℓ} {P : Type ℓ} (self : Table P) (d : IsDirectory self) where
  start-home : (i hash : ℕ) → self.hashes i ≡ hash → start self hash ≡ home self i
  unfolding start
  start-home i hash e = rw (start, mask-extent d.extent, ← e) refl

  gap_vacant : (hash i : ℕ) → candidate self i hash ≡ gap → self.controls i ≡ empty_control
  gap_vacant hash i c = ground (arith, c)

  hit_entry :
      (hash i : ℕ)
      → candidate self i hash ≡ hit
      → (self.controls i ≢ empty_control) × (self.hashes i ≡ hash)
  hit_entry hash i c = ground (arith, c)

  skip_other :
      (hash i : ℕ)
      → i < self.buckets
      → candidate self i hash ≡ skip
      → (self.controls i ≢ empty_control) × (self.hashes i ≢ hash)
  skip_other hash i l c = ground (arith, c, d.tags i)

  module _ {κ} (E : Type κ) (hash : ℕ) (m : ℕ → Bool) (spare : ℕ) (l : spare < self.buckets)
      (o : self.controls spare ≡ empty_control) where
    -- What the walk has seen before a bucket.
    abbrev Seen : ℕ → Type 0
    Seen i =
        (j : ℕ)
        → j < self.buckets
        → steps self.buckets (start self hash) j < steps self.buckets (start self hash) i
        → (self.controls j ≢ empty_control) × (self.hashes j ≡ hash → m j ≡ false)

    far_away :
        (b i : ℕ)
        → b < self.buckets
        → self.controls b ≡ empty_control
        → i < self.buckets
        → self.controls i ≢ empty_control
        → self.hashes i ≡ hash
        → steps self.buckets (start self hash) b ≤ steps self.buckets (start self hash) i
        → ⊥
    far_away b i p q n r t u =
        let inside : start self hash < self.buckets =
          start_in {E = E} self hash (λ b. ok false) d.extent in
        let apart : steps self.buckets (start self hash) b
            ≢ steps self.buckets (start self hash) i =
          λ w. r (
            sym (ap self.controls (steps_same self.buckets (start self hash) b i inside p n w))
            ∙ q) in
        let same = start-home i hash t in d.probed i b n p r (rw (← same) omega (arith, u, apart)) q

    missed_at :
        (b : ℕ)
        → b < self.buckets
        → self.controls b ≡ empty_control
        → Seen b
        → Outcome {E = E} self hash m (some (ok (vacant b)))
    missed_at b p q s =
        missed b p q (λ j n r. (s j n r).0)
          (λ i n r t.
            elim (dec_lt (steps self.buckets (start self hash) i)
              (steps self.buckets (start self hash) b)) [
                | yes u ↦ (s i n u).1 t
                | no u ↦ absurd (far_away b i p q n r t (omega (arith, u)))
              ])

    walk-Outcome :
        (count i : ℕ)
        → i < self.buckets
        → steps self.buckets i spare < count
        → steps self.buckets (start self hash) i ≤ steps self.buckets (start self hash) spare
        → Seen i
        → Outcome {E = E} self hash m (walk self.buckets (look self hash (λ b. ok (m b))) count i)
    unfolding walk
    walk-Outcome zero i n p q s = absurd (omega (arith, p))
    walk-Outcome (suc count) i n p q s =
        let inside : start self hash < self.buckets =
          start_in {E = E} self hash (λ b. ok false) d.extent in
        let onward : (self.controls i ≢ empty_control)
            → (self.hashes i ≡ hash → m i ≡ false)
            → Outcome {E = E} self hash m
                (walk self.buckets (look self hash (λ b. ok (m b))) count (after self.buckets i)) =
          λ a b.
            let apart : i ≢ spare = λ w. a (ap self.controls w ∙ o) in
            let further = steps_further self.buckets (start self hash) i spare inside n l apart q in
            walk-Outcome count (after self.buckets i) (ground (arith, n))
              (omega (arith, p, steps_less self.buckets i spare n l apart)) further.1
              (λ j x y. elim (ℕ_discrete j i) [
                | yes e ↦ (
                  λ w. a (ap self.controls (sym e) ∙ w),
                  λ h. ap m e ∙ b (ap self.hashes (sym e) ∙ h),
                )
                | no e ↦
                    let other : steps self.buckets (start self hash) j
                        ≢ steps self.buckets (start self hash) i =
                      λ w. e (steps_same self.buckets (start self hash) j i inside x n w) in
                    s j x (omega (arith, y, further.0, other))
              ]) in
        elim (candidate self i hash)
            as (λ c.
              candidate self i hash ≡ c
              → Outcome {E = E} self hash m
                  (walk self.buckets (look self hash (λ b. ok (m b))) (suc count) i)) [
                    | gap ↦ λ c. rw (walk, c) (missed_at i n (gap_vacant hash i c) s)
                    | skip ↦ λ c.
                        rw (walk, c)
                          (onward (skip_other hash i n c).0
                            (λ h. absurd ((skip_other hash i n c).1 h)))
                    | hit ↦ λ c.
                        elim (m i)
                            as (λ b.
                              m i ≡ b
                              → Outcome {E = E} self hash m (
                                  walk self.buckets (look self hash (λ b. ok (m b))) (suc count)
                                    i)) [
                                      | true ↦ λ e.
                                          rw (walk, c, e)
                                            (found i n (hit_entry hash i c).0 (hit_entry hash i c).1
                                              e)
                                      | false ↦ λ e.
                                          rw (walk, c, e) (onward (hit_entry hash i c).0 (λ h. e))
                                    ]
                          refl
                  ]
          refl

  -- Counting the buckets makes no difference where a walk answers.
  Outcome-bounded {κ} :
      (E : Type κ) (hash : ℕ) (m : ℕ → Bool) (r : Option (Result E State))
      → Outcome {E = E} self hash m r
      → Outcome {E = E} self hash m (bounded r)
  Outcome-bounded E hash m _ (found b p q r s) = found b p q r s
  Outcome-bounded E hash m _ (missed b p q r s) = missed b p q r s

  -- In a directory with a vacant bucket, a scan with a matcher that cannot fail, by an owner that keeps
  -- one or by an owner that counts the buckets, ends, and yields an occupied bucket with the hash whose
  -- entry matches; or, where no entry of the hash matches anywhere, a vacant bucket that is the first
  -- from the hash's own on.
  pub scan-Outcome {κ} :
      (E : Type κ) (hash : ℕ) (m : ℕ → Bool) (spare : ℕ)
      → spare < self.buckets
      → self.controls spare ≡ empty_control
      → (keeps : Bool) → Outcome {E = E} self hash m (scan keeps self hash (λ b. ok (m b)))
  scan-Outcome E hash m spare l o =
      let inside : start self hash < self.buckets =
        start_in {E = E} self hash (λ b. ok false) d.extent in
      let whole =
        walk-Outcome E hash m spare l o self.buckets (start self hash) inside
          (steps_lt self.buckets (start self hash) spare inside l) (ground arith)
          (λ j x y. absurd (ground (arith, y))) in
      λ keeps. elim keeps as (λ k. Outcome {E = E} self hash m (scan k self hash (λ b. ok (m b)))) [
        | true ↦ rw (scan-walk {E = E} self hash (λ b. ok (m b)) d.extent spare l o) whole
        | false ↦
            rw (within-walk {E = E} self hash (λ b. ok (m b)) d.extent)
              (Outcome-bounded E hash m _ whole)
      ]
