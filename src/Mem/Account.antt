-- ===== src/Mem/Account.antt =====
-- src/mem/raw/state/account.rs and src/mem/credit/mod.rs: one scalar account, and the credit ledger
-- that hands out refundable acquisitions of it. `HELD` is the first argument.
pub mod Laws
mod Examples
use o.Prelude.{
  ℕ, ◌+◌, ◌-◌, Bool, true, false, Option, none, some, Result, ok, err, ltb, leb, ◌==◌,
  if◌then◌else◌, mod64, wrapping_add, wrapping_sub, checked_sub, min,
}

-- The value of the cell: the credit left, or the credit in use if `HELD`.
abbrev pub Account : Type 0
Account = ℕ

-- `quota::Take`
pub data Take : Type 0 where
  taken exhausted : Take

-- `credit::Error`
pub record Error : Type 0 where
  pub need : ℕ
  pub spare : ℕ

abbrev pub spare_of : Bool → Account → ℕ → ℕ
spare_of held current limit = if held then wrapping_sub mod64 limit current else current

unfoldable pub try_acquire : Bool → Account → ℕ → ℕ → Result Error Account
try_acquire held current amount limit =
    if ltb (spare_of held current limit) amount
    then err (record { need = amount; spare = spare_of held current limit })
    else ok (if held then wrapping_add mod64 current amount else wrapping_sub mod64 current amount)

unfoldable pub refund : Bool → Account → ℕ → Account
refund held current amount =
    if held then wrapping_sub mod64 current amount else wrapping_add mod64 current amount

unfoldable pub reserve : Account → ℕ → Take × Account
reserve current amount = elim (checked_sub current amount) [
  | none ↦ (exhausted, current)
  | some left ↦ (taken, left)
]

unfoldable pub reserve_up : Account → ℕ → ℕ × Account
reserve_up spare limit =
    let amount = min spare limit in
    if amount == 0 then (amount, spare) else (amount, wrapping_sub mod64 spare amount)

unfoldable pub refund_spare : Account → ℕ → Account
unfolding refund
refund_spare current amount = if amount == 0 then current else refund false current amount

-- `credit::Ledger`
pub record Ledger : Type 0 where
  pub limit : ℕ
  pub remaining : Account

pub new : ℕ → Ledger
new limit = record { limit = limit; remaining = limit }

-- `credit::Ledger::try_acquire`: the lease that it returns holds `amount`.
pub acquire_credit : Ledger → ℕ → Result Error (ℕ × Ledger)
unfolding try_acquire
acquire_credit self amount = elim (try_acquire false self.remaining amount 0) [
  | err e ↦ err e
  | ok left ↦ ok (amount, record self { remaining = left })
]

-- Dropping that lease: `Lease::drop` calls `Return::return_item`.
pub return_credit : Ledger → ℕ → Ledger
unfolding refund
return_credit self amount = record self { remaining = refund false self.remaining amount }
