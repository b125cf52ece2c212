-- ===== src/Mem/Balance.antt =====
-- src/mem/raw/balance.rs, with the accounts of pool.rs, lane.rs and state/mod.rs and the
-- acquisitions of charge.rs and grant.rs: fair credit, which is per lane up to a reserve and shared
-- above it. An array `[W; N]` is a list with an entry for each axis; `m` is the modulus of `W`.
pub mod Axes
pub mod Laws
pub mod Totals
pub mod Grants
pub mod Backed
mod Examples
use o.Prelude.{
  ℕ, suc, ◌+◌, ◌-◌, ◌≤◌, Bool, true, List, [], ◌∷◌, Result, ok, err, Option, none, some, ltb, leb,
  ◌&&◌, if◌then◌else◌, checked_add, wrapping_add, wrapping_sub, min,
}

pub record Balance : Type 0 where
  pub held : List ℕ
  pub shared : List ℕ

-- `fair::Cause`
pub data Cause : Type 0 where
  overflow : (axis held requested : ℕ) → Cause
  exhausted : (axis required available : ℕ) → Cause

pub required : ℕ → ℕ → ℕ → ℕ
required held reserve amount = amount - (reserve - held)

-- One round of the loop of `try_acquire`: the new entries of `held` and `shared`.
pub acquire_axis : ℕ → (axis held shared reserve amount : ℕ) → Result Cause (ℕ × ℕ)
unfolding required
acquire_axis m axis held shared reserve amount = elim (checked_add m held amount) [
  | none ↦ err (overflow axis held amount)
  | some total ↦
      if ltb shared (required held reserve amount)
      then err (exhausted axis (required held reserve amount) shared)
      else ok (total, wrapping_sub m shared (required held reserve amount))
]

abbrev pub push_axis : ℕ × ℕ → Result Cause Balance → Result Cause Balance
push_axis (h, s) (ok b) = ok (record { held = h ∷ b.held; shared = s ∷ b.shared })
push_axis (h, s) (err e) = err e

abbrev pub and_axis : Result Cause (ℕ × ℕ) → Result Cause Balance → Result Cause Balance
and_axis (ok entries) rest = push_axis entries rest
and_axis (err e) rest = err e

-- `try_acquire` from an axis on; the other shapes do not occur, as all arrays have length N.
pub acquire_from : ℕ → ℕ → (held shared reserve amount : List ℕ) → Result Cause Balance
acquire_from m axis (h ∷ hs) (s ∷ ss) (r ∷ rs) (a ∷ xs) =
    and_axis (acquire_axis m axis h s r a) (acquire_from m (suc axis) hs ss rs xs)
acquire_from m axis _ _ _ _ = ok (record { held = []; shared = [] })

unfoldable pub try_acquire : ℕ → Balance → (reserve amount : List ℕ) → Result Cause Balance
unfolding acquire_from
try_acquire m self reserve amount = acquire_from m 0 self.held self.shared reserve amount

-- `demand`
pub demand_from : (held reserve amount : List ℕ) → List ℕ
unfolding required
demand_from (h ∷ hs) (r ∷ rs) (a ∷ xs) = required h r a ∷ demand_from hs rs xs
demand_from _ _ _ = []

pub demand : Balance → (reserve amount : List ℕ) → List ℕ
unfolding demand_from
demand self reserve amount = demand_from self.held reserve amount

abbrev pub cons_balance : ℕ → ℕ → Balance → Balance
cons_balance h s b = record { held = h ∷ b.held; shared = s ∷ b.shared }

-- `acquire_raw`, unchecked
pub raw_from : ℕ → (held shared reserve amount : List ℕ) → Balance
unfolding required
raw_from m (h ∷ hs) (s ∷ ss) (r ∷ rs) (a ∷ xs) =
    cons_balance (wrapping_add m h a) (wrapping_sub m s (required h r a)) (raw_from m hs ss rs xs)
raw_from m _ _ _ _ = record { held = []; shared = [] }

pub acquire_raw : ℕ → Balance → (reserve amount : List ℕ) → Balance
unfolding raw_from
acquire_raw m self reserve amount = raw_from m self.held self.shared reserve amount

-- `release_raw`
pub release_from : ℕ → (held shared reserve amount : List ℕ) → Balance
release_from m (h ∷ hs) (s ∷ ss) (r ∷ rs) (a ∷ xs) =
    cons_balance (wrapping_sub m h a) (wrapping_add m s (min (h - r) a))
      (release_from m hs ss rs xs)
release_from m _ _ _ _ = record { held = []; shared = [] }

pub release_raw : ℕ → Balance → (reserve amount : List ℕ) → Balance
unfolding release_from
release_raw m self reserve amount = release_from m self.held self.shared reserve amount

-- `Lane::fits`: whether the amount fits the limit and the reserve, on every axis.
pub fits : ℕ → (limit reserve amount : List ℕ) → Bool
fits m (l ∷ ls) (r ∷ rs) (a ∷ xs) = leb a (wrapping_add m l r) && fits m ls rs xs
fits m _ _ _ = true

-- `Sum::add_raw` for an array
pub add_raw : ℕ → List ℕ → List ℕ → List ℕ
add_raw m (x ∷ xs) (y ∷ ys) = wrapping_add m x y ∷ add_raw m xs ys
add_raw m _ _ = []
