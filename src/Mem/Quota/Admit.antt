-- ===== src/Mem/Quota/Admit.antt =====
-- `Ledger::admit_with`, whatever its closure does.
use o.Prelude.{
  Bool-cases, inl, inr, refl, ◌==◌, if◌then◌else◌, ◌+◌, ◌-◌, ◌<◌, ◌≡◌, ◌≢◌, none, some, arith,
  mod64, Option,
}
use o.Mem.Quota.{Ledger, Admission, item, empty, exhausted, ledger_admit}

-- What an admission comes to, by what the closure found and left: the unit that was taken is spent
-- with an item, and is otherwise back.
abbrev pub admission_of {ℓ} : {T : Type ℓ} → Option T × Ledger → Admission T × Ledger
admission_of (none, rest) = (empty, rest + 1)
admission_of (some value, rest) = (item value, rest)

ledger_admit_cases {ℓ} :
    {T : Type ℓ} (self rest : Ledger) (acquire : Ledger → Option T × Ledger)
    → self < mod64
    → (self ≡ 0 → ledger_admit self acquire ≡ (exhausted, self))
      × ((value : T)
          → self ≢ 0
          → acquire (self - 1) ≡ (some value, rest)
          → ledger_admit self acquire ≡ (item value, rest))
      × (self ≢ 0
          → acquire (self - 1) ≡ (none, rest)
          → rest + 1 < mod64
          → ledger_admit self acquire ≡ (empty, rest + 1))
unfolding ledger_admit
ledger_admit_cases self rest acquire h =
    (λ e. ground arith, λ value ne e. ground arith, λ ne e room. ground arith)

admission_of-cases {ℓ} :
    {T : Type ℓ} (self : Ledger) (acquire : Ledger → Option T × Ledger) (found : Option T × Ledger)
    → self < mod64
    → self ≢ 0
    → acquire (self - 1) ≡ found
    → found.1 + 1 < mod64
    → ledger_admit self acquire ≡ admission_of found
admission_of-cases self acquire (none, rest) h n e k =
    (ledger_admit_cases self rest acquire h).2 n e k
admission_of-cases self acquire (some value, rest) h n e k =
    (ledger_admit_cases self rest acquire h).1 value n e

-- `Ledger::admit_with` runs its closure exactly when a unit is left, on the ledger without that unit.
-- The closure is arbitrary and may use the ledger itself. If what it leaves has room for the unit, the
-- unit is spent with the item, and is otherwise returned.
pub ledger_admit_total {ℓ} :
    {T : Type ℓ} (self : Ledger) (acquire : Ledger → Option T × Ledger)
    → self < mod64
    → (acquire (self - 1)).1 + 1 < mod64
    → ledger_admit self acquire
      ≡ (if self == 0 then (exhausted, self) else admission_of (acquire (self - 1)))
ledger_admit_total self acquire h k = elim (Bool-cases (self == 0)) [
  | inl z ↦ rw z ((ledger_admit_cases self 0 acquire h).0 (ground arith))
  | inr z ↦ rw z (admission_of-cases self acquire (acquire (self - 1)) h (ground arith) refl k)
]
