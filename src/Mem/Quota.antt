-- ===== src/Mem/Quota.antt =====
-- src/mem/quota.rs: a ledger of quota, exclusive leases and shared reservations of it. The type tags
-- carry no data. A closure that the source runs takes and returns the state that it may touch.
pub mod Laws
pub mod Admit
mod Examples
use o.Prelude.{ℕ, ◌-◌, Option, none, some, ◌==◌, if◌then◌else◌, mod64}
use o.Mem.Account.{Account, Take, reserve, reserve_up, refund, refund_spare}
use mathlib.Core.Bool.{false}

-- `Ledger`: its account. `Lease`: the quota that it still holds, beside its source.
abbrev pub Ledger : Type 0
Ledger = Account

abbrev pub Lease : Type 0
Lease = ℕ

-- `Shared`: a ledger of its own, drawn from its source.
abbrev pub Shared : Type 0
Shared = Ledger

pub data Admission {ℓ} (T : Type ℓ) : Type ℓ where
  item : T → Admission T
  empty exhausted : Admission T

-- `Ledger::take`
pub ledger_take : Ledger → Take × Ledger
unfolding reserve
ledger_take self = reserve self 1

-- `Return::return_item`
pub return_unit : Account → Account
unfolding refund
return_unit source = refund false source 1

-- `Ledger::admit_with`, with `reserve` and the return of its unit; `acquire` may use the ledger.
pub ledger_admit {ℓ} : {T : Type ℓ} → Ledger → (Ledger → Option T × Ledger) → Admission T × Ledger
unfolding ledger_take return_unit
ledger_admit self acquire = elim ((ledger_take self).0) [
  | Take.exhausted ↦ (exhausted, (ledger_take self).1)
  | Take.taken ↦ elim ((acquire (ledger_take self).1).0) [
    | none ↦ (empty, return_unit (acquire (ledger_take self).1).1)
    | some value ↦ (item value, (acquire (ledger_take self).1).1)
  ]
]

-- `Lease::reserve_up` and `reserve_all`
pub lease_reserve_up : Ledger → ℕ → Lease × Ledger
unfolding reserve_up
lease_reserve_up source limit = reserve_up source limit

pub lease_reserve_all : Ledger → Lease × Ledger
unfolding lease_reserve_up
lease_reserve_all source = lease_reserve_up source (mod64 - 1)

-- `Lease::admit_with`, with what the closure would return
pub lease_admit {ℓ} : {T : Type ℓ} → Lease → Option T → Admission T × Lease
lease_admit remaining acquired =
    if remaining == 0
    then (exhausted, remaining)
    else elim acquired [ none ↦ (empty, remaining) | some value ↦ (item value, remaining - 1) ]

-- `Lease::drop`
pub lease_drop : Account → Lease → Account
unfolding refund_spare
lease_drop source remaining = refund_spare source remaining

-- `Shared::reserve`, `reserve_up`, `reserve_all`, `lease_up_to` and `drop`
pub shared_reserve : Ledger → ℕ → Option Shared × Ledger
unfolding reserve
shared_reserve source count = elim ((reserve source count).0) [
  | Take.exhausted ↦ (none, (reserve source count).1)
  | Take.taken ↦ (some count, (reserve source count).1)
]

pub shared_reserve_up : Ledger → ℕ → Shared × Ledger
unfolding reserve_up
shared_reserve_up source limit = reserve_up source limit

pub shared_reserve_all : Ledger → Shared × Ledger
unfolding shared_reserve_up
shared_reserve_all source = shared_reserve_up source (mod64 - 1)

pub lease_up_to : Shared → ℕ → Lease × Shared
unfolding lease_reserve_up
lease_up_to self limit = lease_reserve_up self limit

-- `Shared::with`: after the closure, `Ledger::reset` to the unused amount that it proved.
pub shared_settle : Shared → ℕ → Shared
shared_settle self unused = unused

pub shared_drop : Account → Shared → Account
unfolding refund_spare
shared_drop source self = refund_spare source self
