-- ===== src/Mem/Balance/Axes.antt =====
-- What holds on every axis.
use o.Prelude.{
  ℕ, suc, ◌+◌, ◌-◌, ◌≤◌, ◌<◌, ◌≡◌, List, [], ◌∷◌, Result, ok, err, refl, arith, ◌∙◌, wrapping_sub,
  wrapping_add, length, ◌%◌, min,
}
use native.Mathlib.Nat.{mod-eq_of_lt}
use o.Mem.Balance.{
  Balance, Cause, required, acquire_axis, and_axis, acquire_from, demand_from, raw_from,
  release_from,
}

-- An axis of one lane: its reserve, and the limit less what other lanes draw (`others`), which
-- together fit a word. What the lane holds above its reserve is drawn from the shared surplus.
pub record IsFairAxis (m limit others reserve held shared : ℕ) : Type 0 where
  pub conserved : shared + (held - reserve) + others ≡ limit
  pub fits_word : limit + reserve < m

-- Arrays of one length, all of whose axes are fair.
pub data IsFair (m : ℕ) : (limit others reserve held shared : List ℕ) → Type 0 where
  nil : IsFair m [] [] [] [] []
  cons :
      {l o r h s : ℕ} {ls os rs hs ss : List ℕ}
      → IsFairAxis m l o r h s
      → IsFair m ls os rs hs ss
      → IsFair m (l ∷ ls) (o ∷ os) (r ∷ rs) (h ∷ hs) (s ∷ ss)

-- Arrays of one length, the first at most the second on every axis.
abbrev pub AllLe : List ℕ → List ℕ → Type 0
AllLe [] [] = Unit {0}
AllLe (x ∷ xs) (y ∷ ys) = (x ≤ y) × AllLe xs ys
AllLe _ _ = ⊥

-- `a - b` on words, where it does not wrap.
wrapping_sub-eq : (m a b : ℕ) → a < m → b ≤ a → wrapping_sub m a b ≡ a - b
wrapping_sub-eq m a b h k =
    let shift : a + m - b ≡ (a - b) + m = omega arith in
    let wrap : ((a - b) + m) % m ≡ a - b = grind arith in rw shift wrap

module _ {m l o r h s : ℕ} (v : IsFairAxis m l o r h s) (axis a : ℕ) where
  -- On a fair axis the sum fits a word if the demand is available.
  pub acquire_axis-ok :
      required h r a ≤ s
      → (acquire_axis m axis h s r a ≡ ok (h + a, s - required h r a))
        × (wrapping_add m h a ≡ h + a)
        × (wrapping_sub m s (required h r a) ≡ s - required h r a)
        × IsFairAxis m l o r (h + a) (s - required h r a)
  unfolding acquire_axis required
  acquire_axis-ok q =
      let fits : h + a < m = omega arith in
      (
        ground (arith, wrapping_sub-eq m s (a - (r - h))),
        mod-eq_of_lt {n = h + a} {m = m} fits,
        wrapping_sub-eq m s (a - (r - h)) (omega arith) q,
        omega arith,
      )

  acquire_axis-demand :
      {entries : ℕ × ℕ} → acquire_axis m axis h s r a ≡ ok entries → required h r a ≤ s
  unfolding acquire_axis required
  acquire_axis-demand e = ground arith

  pub release_axis :
      a ≤ h
      → (wrapping_sub m h a ≡ h - a)
        × (wrapping_add m s (min (h - r) a) ≡ s + min (h - r) a)
        × IsFairAxis m l o r (h - a) (s + min (h - r) a)
  release_axis p = (
    wrapping_sub-eq m h a (omega arith) p,
    mod-eq_of_lt {n = s + min (h - r) a} {m = m} (omega arith),
    omega arith,
  )

  -- Releasing what an axis has just acquired restores it.
  acquire_release_axis :
      required h r a ≤ s
      → (wrapping_sub m (h + a) a ≡ h)
        × (wrapping_add m (s - required h r a) (min (h + a - r) a) ≡ s)
  unfolding required
  acquire_release_axis q = (
    wrapping_sub-eq m (h + a) a (omega arith) (omega arith) ∙ omega arith,
    mod-eq_of_lt {n = s - (a - (r - h)) + min (h + a - r) a} {m = m} (omega arith) ∙ omega arith,
  )

-- An admission with the demand available is the unchecked one, leaves a fair balance, and is undone
-- by a release.
pub acquire_from-ok :
    {m : ℕ} {ls os rs hs ss : List ℕ} (axis : ℕ) (xs : List ℕ)
    → IsFair m ls os rs hs ss
    → AllLe (demand_from hs rs xs) ss
    → (acquire_from m axis hs ss rs xs ≡ ok (raw_from m hs ss rs xs))
      × IsFair m ls os rs (raw_from m hs ss rs xs).held (raw_from m hs ss rs xs).shared
      × (release_from m (raw_from m hs ss rs xs).held (raw_from m hs ss rs xs).shared rs xs
          ≡ record { held = hs; shared = ss })
unfolding acquire_from raw_from release_from demand_from
acquire_from-ok axis [] nil q = (refl, nil, refl)
acquire_from-ok axis (x ∷ xs) nil q = (refl, nil, refl)
acquire_from-ok axis [] (cons v vs) q = elim q [ ]
acquire_from-ok axis (x ∷ xs) (cons v vs) q =
    let step = acquire_axis-ok v axis x q.0 in
    let back = acquire_release_axis v axis x q.0 in
    let ih = acquire_from-ok (suc axis) xs vs q.1 in
    (
      rw (step.0, ih.0, step.1, step.2),
      rw (step.1, step.2) (cons step.3 ih.1),
      rw (step.1, step.2, back.0, back.1, ih.2),
    )

and_axis-ok :
    (first : Result Cause (ℕ × ℕ)) (rest : Result Cause Balance) {b : Balance}
    → and_axis first rest ≡ ok b
    → (entries : ℕ × ℕ) × (b' : Balance) × (first ≡ ok entries) × (rest ≡ ok b')
and_axis-ok (ok entries) (ok b') e = (entries, b', refl, refl)
and_axis-ok (ok entries) (err c) e = cc
and_axis-ok (err c) rest e = cc

-- An admission that succeeds had its demand available.
pub acquire_from-demand :
    {m : ℕ} {ls os rs hs ss : List ℕ} (axis : ℕ) (xs : List ℕ)
    → IsFair m ls os rs hs ss
    → length xs ≡ length hs
    → {b : Balance} → acquire_from m axis hs ss rs xs ≡ ok b
    → AllLe (demand_from hs rs xs) ss
unfolding acquire_from demand_from
acquire_from-demand axis [] nil n e = tt
acquire_from-demand axis (x ∷ xs) nil n e = tt
acquire_from-demand axis [] (cons v vs) n e = absurd (omega arith)
acquire_from-demand {m = m} axis (x ∷ xs)
      (cons {l = l} {ls = ls} {os = os} {rs = rs} {hs = hs} {ss = ss} v vs) n e =
    let (entries, b', p, q) = and_axis-ok _ _ e in
    (
      acquire_axis-demand v axis x p,
      acquire_from-demand {m = m} {ls = ls} {os = os} {rs = rs} {hs = hs} {ss = ss} (suc axis) xs vs
          (omega arith) q,
    )

-- A release of at most what is held keeps a fair balance.
pub release_from-IsFair :
    {m : ℕ} {ls os rs hs ss : List ℕ} (xs : List ℕ)
    → IsFair m ls os rs hs ss
    → AllLe xs hs
    → IsFair m ls os rs (release_from m hs ss rs xs).held (release_from m hs ss rs xs).shared
unfolding release_from
release_from-IsFair [] nil q = nil
release_from-IsFair [] (cons v vs) q = elim q [ ]
release_from-IsFair (x ∷ xs) nil q = elim q [ ]
release_from-IsFair (x ∷ xs) (cons v vs) q =
    let step = release_axis v 0 x q.0 in
    rw (step.0, step.1) (cons step.2 (release_from-IsFair xs vs q.1))
