-- ===== src/Base/Num/U64.antt =====
-- src/base/num/bounded/mod.rs, `U64`.
use Prim.Native.Nat.{bit_and}
use o.Prelude.{ℕ, ◌≤◌, Option, none, some, ltb, leb, ◌&&◌, if◌then◌else◌, checked_sub}

pub record U64 (min max : ℕ) : Type 0 where
  pub value : ℕ

module _ (min max : ℕ) where
  unfoldable pub from_usize : ℕ → Option (U64 min max)
  from_usize value =
      if leb min value && leb value max then some (record { value = value }) else none

  unfoldable pub new : ℕ → Option (U64 min max)
  unfolding from_usize
  new value = from_usize value

  unfoldable pub clamp : ℕ → U64 min max
  clamp value =
      if ltb value min
      then record { value = min }
      else if ltb max value
      then record { value = max }
      else record { value = value }

-- `U64<0, MAX>::checked_sub`
unfoldable pub bounded_sub : (max : ℕ) → U64 0 max → ℕ → Option (U64 0 max)
bounded_sub max self value = elim (checked_sub self.value value) [
  | some rest ↦ some (record { value = rest })
  | none ↦ none
]

abbrev pub mask : (max : ℕ) → ℕ → U64 0 max
mask max value = record { value = bit_and value max }

abbrev pub IsU64 : {min max : ℕ} → U64 min max → Type 0
IsU64 {min} {max} v = (min ≤ v.value) × (v.value ≤ max)
