-- ===== src/Base/Num.antt =====
-- src/base/num/mod.rs: identities that never wrap. The bounded integers are in the children.
pub mod U32
pub mod U64
pub mod Size
pub mod Laws
mod Examples
use o.Prelude.{ℕ, ◌+◌, Option, none, some, ltb, if◌then◌else◌, mod64, checked_add}

-- `Epoch`, a non-zero `u64`; the thread marker carries no data.
pub record Epoch : Type 0 where
  pub value : ℕ

pub initial_epoch : Epoch
initial_epoch = record { value = 1 }

-- `Epoch::checked_add`, by `NonZero::checked_add`
pub epoch_add : Epoch → ℕ → Option Epoch
epoch_add self value = elim (checked_add mod64 self.value value) [
  | some next ↦ some (record { value = next })
  | none ↦ none
]

-- `Generation<MAX>`
pub record Generation (max : ℕ) : Type 0 where
  pub value : ℕ

pub initial_generation : (max : ℕ) → Generation max
initial_generation max = record { value = 0 }

-- `Generation::next`
pub next_generation : (max : ℕ) → Generation max → Option (Generation max)
next_generation max self =
    if ltb self.value max then some (record { value = self.value + 1 }) else none
