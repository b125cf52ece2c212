-- ===== src/Map/Within.antt =====
-- `raw::scan` of an owner that may keep no vacant bucket, which counts the buckets that are left.
use o.Prelude.{
  ℕ, zero, suc, ◌+◌, ◌-◌, ◌<◌, ◌≤◌, ◌≡◌, refl, ap, ◌∙◌, Bool, true, false, Option, none, some,
  Result, ok, err, arith,
}
use o.Map.{Table, State, full, hit, gap, skip, candidate, start, next_within, try_match, scan}
use o.Map.Circle.{IsExtent, after}
use o.Map.Probing.{
  look, walk, resume, try_match-resume, step_gap, step_skip, step_hit, moved_skip, moved_hit,
  start_in,
}

-- A walk that ends by itself, or after all that is left.
abbrev pub bounded {ℓ} : {E : Type ℓ} → Option (Result E State) → Option (Result E State)
bounded none = some (ok full)
bounded (some a) = some a

module _ {ℓ κ} {P : Type ℓ} {E : Type κ} (self : Table P) (hash : ℕ) (matches : ℕ → Result E Bool)
    (e : IsExtent self.buckets) where
  abbrev next_of : ℕ × ℕ → Option (State × (ℕ × ℕ))
  unfolding next_within
  next_of (index, left) = some (next_within self hash index left)

  abbrev Agree : (fuel left i : ℕ) → Type κ
  Agree fuel left i =
      resume next_of matches fuel (next_of (i, left))
      ≡ bounded (walk self.buckets (look self hash matches) left i)

  at_gap : (f left i : ℕ) → i < self.buckets → candidate self i hash ≡ gap → Agree f (suc left) i
  unfolding next_within walk resume
  at_gap f left i l q = rw (next_within, walk, resume, step_gap self hash matches e i l q, q) refl

  at_skip :
      (f left i : ℕ)
      → i < self.buckets
      → candidate self i hash ≡ skip
      → Agree f left (after self.buckets i)
      → Agree f (suc left) i
  unfolding next_within walk
  at_skip f left i l q r =
      rw
        (
          next_within,
          walk,
          step_skip self hash matches e i l q,
          moved_skip self hash matches e i l q,
          q,
        )
        r

  at_hit :
      (f left i : ℕ) (b : Result E Bool)
      → i < self.buckets
      → matches i ≡ b
      → candidate self i hash ≡ hit
      → (b ≡ ok false
          → try_match next_of matches f (after self.buckets i, left)
            ≡ bounded (walk self.buckets (look self hash matches) left (after self.buckets i)))
      → Agree f (suc left) i
  unfolding next_within walk resume
  at_hit f left i (err x) l p q r =
      rw (next_within, walk, resume, step_hit self hash matches e i l q, q, p) refl
  at_hit f left i (ok true) l p q r =
      rw (next_within, walk, resume, step_hit self hash matches e i l q, q, p) refl
  at_hit f left i (ok false) l p q r =
      rw
        (
          next_within,
          walk,
          resume,
          step_hit self hash matches e i l q,
          q,
          p,
          moved_hit self hash matches e i l q,
        )
        (r refl)

  within_from : (left f i : ℕ) → i < self.buckets → left ≤ f → Agree f left i
  unfolding next_within walk resume
  within_from zero f i l m = refl
  within_from (suc left) f i l m =
      let onward : after self.buckets i < self.buckets = ground (arith, l) in
      elim (candidate self i hash) as (λ c. candidate self i hash ≡ c → Agree f (suc left) i) [
        | gap ↦ λ c. at_gap f left i l c
        | skip ↦ λ c.
            at_skip f left i l c
              (within_from left f (after self.buckets i) onward (omega (arith, m)))
        | hit ↦ λ c. at_hit f left i (matches i) l refl c (λ h.
            try_match-resume next_of matches f (after self.buckets i, left) (omega (arith, m))
            ∙ within_from left (f - 1) (after self.buckets i) onward (omega (arith, m)))
      ]
        refl

  -- The scan of an owner that may keep no vacant bucket ends, with what a walk over all buckets finds,
  -- and is full where that ends without an answer.
  pub within-walk :
      scan false self hash matches
      ≡ bounded (walk self.buckets (look self hash matches) self.buckets (start self hash))
  unfolding scan next_within
  within-walk =
      try_match-resume next_of matches (self.buckets + 1) (start self hash, self.buckets)
        (omega arith)
      ∙ ap (λ f. resume next_of matches f (next_of (start self hash, self.buckets))) (omega arith)
      ∙ within_from self.buckets self.buckets (start self hash) (start_in self hash matches e)
          (omega arith)
