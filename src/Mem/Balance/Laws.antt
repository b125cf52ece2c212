-- ===== src/Mem/Balance/Laws.antt =====
-- Fair credit: admission, its reverse, and the guarantee of the reserve.
use o.Prelude.{
  ℕ, ◌+◌, ◌-◌, ◌≤◌, ◌≡◌, ◌<◌, wrapping_sub, ◌↔◌, List, [], ◌∷◌, length, ok, refl, arith, ◌%◌,
}
use o.Mem.Balance.{
  raw_from, Balance, required, demand_from, demand, acquire_raw, try_acquire, release_raw,
}
use o.Mem.Balance.Axes.{IsFair, AllLe, acquire_from-ok, acquire_from-demand, release_from-IsFair}

-- The accounts of a lane and its pool are fair.
abbrev pub IsFairBalance : ℕ → (limit others reserve : List ℕ) → Balance → Type 0
IsFairBalance m limit others reserve b = IsFair m limit others reserve b.held b.shared

module _ (m : ℕ) (limit others reserve amount : List ℕ) (b : Balance)
    (v : IsFairBalance m limit others reserve b) (n : length amount ≡ length b.held) where
  admitted :
      (c : Balance)
      → try_acquire m b reserve amount ≡ ok c
      → AllLe (demand b reserve amount) b.shared
        × (c ≡ acquire_raw m b reserve amount)
        × IsFairBalance m limit others reserve c
        × (release_raw m c reserve amount ≡ b)
  unfolding try_acquire demand acquire_raw release_raw
  admitted c e =
      let available = acquire_from-demand 0 amount v n e in
      let (p, q, r) = acquire_from-ok 0 amount v available in
      let same : c ≡ raw_from m b.held b.shared reserve amount = cc in
      rw same (available, refl, q, r)

  -- On fair accounts, with other lanes as they are, `try_acquire` yields accounts exactly when the
  -- demand fits the shared credit on every axis and they are those of the unchecked `acquire_raw`: no
  -- sum overflows then. The accounts that it yields are fair, and `release_raw` of the amount restores
  -- what was before.
  pub try_acquire_total :
      (c : Balance)
      → (try_acquire m b reserve amount ≡ ok c) ↔ (
          AllLe (demand b reserve amount) b.shared
          × (c ≡ acquire_raw m b reserve amount)
          × IsFairBalance m limit others reserve c
          × (release_raw m c reserve amount ≡ b))
  unfolding try_acquire demand acquire_raw
  try_acquire_total c = (λ e. admitted c e, λ (q, e, f, r). rw e ((acquire_from-ok 0 amount v q).0))

  -- On fair accounts, releasing at most what the lane holds on each axis keeps them fair, with other
  -- lanes as they are.
  pub release_raw-IsFair :
      AllLe amount b.held → IsFairBalance m limit others reserve (release_raw m b reserve amount)
  unfolding release_raw
  release_raw-IsFair q = release_from-IsFair amount v q

-- What the lane holds and the amount stay within the reserve on every axis.
pub data IsWithin : (held reserve amount : List ℕ) → Type 0 where
  nil : IsWithin [] [] []
  cons :
      {h r a : ℕ} {hs rs xs : List ℕ}
      → h + a ≤ r
      → IsWithin hs rs xs
      → IsWithin (h ∷ hs) (r ∷ rs) (a ∷ xs)

required-zero : (h r a : ℕ) → h + a ≤ r → required h r a ≡ 0
unfolding required
required-zero h r a p = omega arith

wrapping_sub-zero : (m s : ℕ) → s < m → wrapping_sub m s 0 ≡ s
wrapping_sub-zero m s h =
    let shift : s + m - 0 ≡ s + m = omega arith in
    let wrap : (s + m) % m ≡ s = grind arith in rw shift wrap

module _ {m : ℕ} where
  -- Within the reserve nothing is demanded.
  within_demand :
      {hs rs xs ls os ss : List ℕ}
      → IsWithin hs rs xs
      → IsFair m ls os rs hs ss
      → AllLe (demand_from hs rs xs) ss
  unfolding demand_from required
  within_demand nil IsFair.nil = tt
  within_demand (cons h w) (IsFair.cons v vs) = (omega arith, within_demand w vs)

  within_shared :
      {hs rs xs ls os ss : List ℕ}
      → IsWithin hs rs xs
      → IsFair m ls os rs hs ss
      → (raw_from m hs ss rs xs).shared ≡ ss
  unfolding raw_from required
  within_shared nil IsFair.nil = refl
  within_shared (cons {h = h} {r = r} {a = a} p w) (IsFair.cons {s = s} v vs) =
      rw (required-zero h r a p, wrapping_sub-zero m s (omega arith), within_shared w vs)

-- Credit up to the reserve of a lane is guaranteed: whatever the other lanes hold, on fair accounts
-- an amount that keeps the lane within its reserve on every axis is admitted, and the shared credit
-- stays as it is.
pub reserve_guaranteed :
    (m : ℕ) (limit others reserve amount : List ℕ) (b : Balance)
    → IsFairBalance m limit others reserve b
    → IsWithin b.held reserve amount
    → (c : Balance) × (try_acquire m b reserve amount ≡ ok c) × (c.shared ≡ b.shared)
unfolding try_acquire
reserve_guaranteed m limit others reserve amount b v w = (
  raw_from m b.held b.shared reserve amount,
  (acquire_from-ok 0 amount v (within_demand w v)).0,
  within_shared w v,
)
