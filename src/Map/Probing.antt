-- ===== src/Map/Probing.antt =====
-- `raw::scan` against a walk over the buckets in circular order.
use o.Prelude.{
  ℕ, zero, suc, ◌-◌, ◌<◌, ◌≤◌, ◌≡◌, ◌≢◌, refl, sym, ap, ◌∙◌, Bool, true, false, Option, none, some,
  Result, ok, err, ◌==◌, arith,
}
use o.Map.{
  Table, State, occupied, vacant, full, hit, gap, skip, candidate, empty_control, start, advance,
  step, occupied_entry, vacant_entry, next_spare, try_match, scan,
}
use o.Map.Circle.{IsExtent, after, steps, steps_less, steps_lt, after_mask, start-home, mask-extent}

-- What a scan makes of one bucket, and of the first one of a circular order that ends it.
abbrev pub look {ℓ κ} :
    {P : Type ℓ} {E : Type κ} → Table P → ℕ → (ℕ → Result E Bool) → ℕ → Option (Result E State)
look {E = E} self hash matches i = elim (candidate self i hash) as (λ x. Option (Result E State)) [
  | gap ↦ some (ok (vacant i))
  | skip ↦ none
  | hit ↦ elim (matches i) as (λ x. Option (Result E State)) [
    | err e ↦ some (err e)
    | ok true ↦ some (ok (occupied i))
    | ok false ↦ none
  ]
]

unfoldable pub walk {ℓ} : {A : Type ℓ} → (n : ℕ) → (ℕ → Option A) → (count : ℕ) → ℕ → Option A
walk n f zero i = none
walk {A = A} n f (suc count) i = elim (f i) as (λ x. Option A) [
  | some a ↦ some a
  | none ↦ walk n f count (after n i)
]

skip_gap : skip ≢ gap
skip_gap e = ground (arith, e)

hit_gap : hit ≢ gap
hit_gap e = ground (arith, e)

-- One round of `try_match`, after `next`.
unfoldable pub resume {ℓ κ} :
    {S : Type ℓ} {E : Type κ}
    → (S → Option (State × S))
    → (ℕ → Result E Bool)
    → ℕ
    → Option (State × S)
    → Option (Result E State)
resume {E = E} next matches fuel o = elim o as (λ x. Option (Result E State)) [
  | none ↦ none
  | some (vacant b, after) ↦ some (ok (vacant b))
  | some (full, after) ↦ some (ok full)
  | some (occupied b, after) ↦ elim (matches b) as (λ x. Option (Result E State)) [
    | err e ↦ some (err e)
    | ok true ↦ some (ok (occupied b))
    | ok false ↦ try_match next matches fuel after
  ]
]

pub try_match-resume {ℓ κ} :
    {S : Type ℓ} {E : Type κ} (next : S → Option (State × S)) (matches : ℕ → Result E Bool)
    (fuel : ℕ) (s : S)
    → 0 < fuel
    → try_match next matches fuel s ≡ resume next matches (fuel - 1) (next s)
unfolding try_match resume
try_match-resume next matches zero s l = absurd (omega arith)
try_match-resume next matches (suc fuel) s l =
    ap (λ g. resume next matches g (next s)) (omega arith)

module _ {ℓ κ} {P : Type ℓ} {E : Type κ} (self : Table P) (hash : ℕ) (matches : ℕ → Result E Bool)
    (e : IsExtent self.buckets) where
  pub advance-after : (i : ℕ) → i < self.buckets → advance self i ≡ after self.buckets i
  unfolding advance
  advance-after i l = rw (advance, mask-extent e) (after_mask e i l)

  pub start_in : start self hash < self.buckets
  unfolding start
  start_in = rw (start, mask-extent e) (start-home e hash)

  module _ (i : ℕ) (l : i < self.buckets) where
    pub step_gap : candidate self i hash ≡ gap → step self hash i ≡ (i, some (vacant_entry i))
    unfolding step
    step_gap q = rw (step, q) refl

    pub step_skip : candidate self i hash ≡ skip → step self hash i ≡ (after self.buckets i, none)
    unfolding step
    step_skip q = rw (step, q, advance-after i l) refl

    pub step_hit :
        candidate self i hash ≡ hit
        → step self hash i ≡ (after self.buckets i, some (occupied_entry i))
    unfolding step
    step_hit q = rw (step, q, advance-after i l) refl

    pub moved_skip : candidate self i hash ≡ skip → (step self hash i).0 ≡ after self.buckets i
    moved_skip q = rw (step_skip q) refl

    pub moved_hit : candidate self i hash ≡ hit → (step self hash i).0 ≡ after self.buckets i
    moved_hit q = rw (step_hit q) refl

  -- One bucket of both, by what the scan makes of it.
  module _ (limit m f g i : ℕ) (l : i < self.buckets) where
    abbrev Agree : Type κ
    Agree =
        resume (next_spare self hash limit) matches g (next_spare self hash (suc f) i)
        ≡ walk self.buckets (look self hash matches) (suc m) i

    at_gap : candidate self i hash ≡ gap → Agree
    unfolding next_spare walk resume
    at_gap q = rw (next_spare, walk, resume, step_gap i l q, q) refl

    at_skip :
        candidate self i hash ≡ skip
        → resume
            (next_spare self hash limit)
            matches
            g
            (next_spare self hash f (after self.buckets i))
          ≡ walk self.buckets (look self hash matches) m (after self.buckets i)
        → Agree
    unfolding next_spare walk
    at_skip q r = rw (next_spare, walk, step_skip i l q, moved_skip i l q, q) r

    at_hit :
        (b : Result E Bool)
        → matches i ≡ b
        → candidate self i hash ≡ hit
        → (b ≡ ok false
            → try_match (next_spare self hash limit) matches g (after self.buckets i)
              ≡ walk self.buckets (look self hash matches) m (after self.buckets i))
        → Agree
    unfolding next_spare walk resume
    at_hit (err x) p q r = rw (next_spare, walk, resume, step_hit i l q, q, p) refl
    at_hit (ok true) p q r = rw (next_spare, walk, resume, step_hit i l q, q, p) refl
    at_hit (ok false) p q r =
        rw (next_spare, walk, resume, step_hit i l q, q, p, moved_hit i l q) (r refl)

  further :
      (m i spare : ℕ)
      → i < self.buckets
      → spare < self.buckets
      → self.controls spare ≡ empty_control
      → steps self.buckets i spare < suc m
      → candidate self i hash ≢ gap
      → (after self.buckets i < self.buckets)
        × (steps self.buckets (after self.buckets i) spare < m)
  further m i spare l n o p c =
      let apart : i ≢ spare = λ w. c (ground (arith, w, o)) in
      (ground (arith, l), omega (arith, p, steps_less self.buckets i spare l n apart))

  scan_from :
      (limit m f g i spare : ℕ)
      → i < self.buckets
      → spare < self.buckets
      → self.controls spare ≡ empty_control
      → steps self.buckets i spare < m
      → m ≤ f
      → m ≤ suc g
      → m ≤ limit
      → resume (next_spare self hash limit) matches g (next_spare self hash f i)
        ≡ walk self.buckets (look self hash matches) m i
  scan_from limit zero f g i spare l n o p q r s = absurd (omega (arith, p))
  scan_from limit (suc m) zero g i spare l n o p q r s = absurd (omega (arith, q))
  scan_from limit (suc m) (suc f) g i spare l n o p q r s =
      elim (candidate self i hash) as (λ c. candidate self i hash ≡ c → Agree limit m f g i l) [
        | gap ↦ λ c. at_gap limit m f g i l c
        | skip ↦ λ c.
            let (a, b) = further m i spare l n o p (λ w. skip_gap (sym c ∙ w)) in
            at_skip limit m f g i l c (
              scan_from limit m f g (after self.buckets i) spare a n o b (omega (arith, q))
                (omega (arith, r)) (omega (arith, s)))
        | hit ↦ λ c.
            let (a, b) = further m i spare l n o p (λ w. hit_gap (sym c ∙ w)) in
            at_hit limit m f g i l (matches i) refl c (λ h.
              try_match-resume (next_spare self hash limit) matches g (after self.buckets i)
                (omega (arith, b, r))
              ∙ scan_from limit m limit (g - 1) (after self.buckets i) spare a n o b
                  (omega (arith, s)) (omega (arith, r)) (omega (arith, s)))
      ]
        refl

  -- In a directory with a vacant bucket, the scan of an owner that keeps one ends, and yields what the
  -- first bucket that ends it says, from the hash's own bucket on in circular order: a vacant bucket,
  -- a matching entry of this hash, or the error of the matcher. It looks no further than all buckets.
  pub scan-walk :
      (spare : ℕ)
      → spare < self.buckets
      → self.controls spare ≡ empty_control
      → scan true self hash matches
        ≡ walk self.buckets (look self hash matches) self.buckets (start self hash)
  unfolding scan
  scan-walk spare l o =
      let n = self.buckets in
      let some_buckets : n == 0 ≡ false = ground (arith, l) in
      let close_by = steps_lt n (start self hash) spare start_in l in
      rw (scan, some_buckets)
        (try_match-resume (next_spare self hash n) matches n (start self hash) (omega (arith, l))
          ∙ scan_from n n n (n - 1) (start self hash) spare start_in l o close_by (omega arith)
              (omega arith) (omega arith))
