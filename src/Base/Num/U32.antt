-- ===== src/Base/Num/U32.antt =====
-- src/base/num/bounded/mod.rs, `U32` and `NonZeroU32`: the const parameters are explicit arguments.
use o.Prelude.{
  ℕ, ◌+◌, ◌-◌, ◌≤◌, Option, none, some, Result, ok, err, ltb, leb, ◌&&◌, if◌then◌else◌, mod32,
  as_u32, nonzero,
}

pub record U32 (min max : ℕ) : Type 0 where
  pub value : ℕ

-- `Overflow<MAX>`: by how much the extent exceeds `MAX`, which is not zero.
pub record Overflow (max : ℕ) : Type 0 where
  pub excess : ℕ

module _ (min max : ℕ) where
  unfoldable pub from_usize : ℕ → Option (U32 min max)
  from_usize value =
      if leb min value && leb value max then some (record { value = as_u32 value }) else none

  unfoldable pub new : ℕ → Option (U32 min max)
  unfolding from_usize
  new value = from_usize value

  -- `U32::exact::<VALUE>`, under its const assertion
  abbrev pub exact : ℕ → U32 min max
  exact value = record { value = value }

  unfoldable pub clamp : ℕ → U32 min max
  clamp value =
      if ltb value min
      then record { value = min }
      else if ltb max value
      then record { value = max }
      else record { value = as_u32 value }

  unfoldable pub abs_diff : U32 min max → U32 min max → U32 0 max
  abs_diff self other = record {
    value =
        if ltb self.value other.value then other.value - self.value else self.value - other.value;
  }

  unfoldable pub widen : (low high : ℕ) → U32 min max → U32 low high
  widen low high self = record { value = self.value }

unfoldable pub prefix : (max : ℕ) → ℕ → U32 0 max → U32 0 max
prefix max value limit = if ltb limit.value value then limit else record { value = as_u32 value }

unfoldable pub try_usize : (max : ℕ) → ℕ → Result (Overflow max) (U32 0 max)
try_usize max value = elim (nonzero (value - max)) [
  | some excess ↦ err (record { excess = excess })
  | none ↦ ok (record { value = as_u32 value })
]

-- `Overflow::actual`
unfoldable pub actual : (max : ℕ) → Overflow max → ℕ
actual max self = max + self.excess

pub record NonZeroU32 (min max : ℕ) : Type 0 where
  pub position : ℕ

module _ (min max : ℕ) where
  pub nonzero_new : ℕ → Option (NonZeroU32 min max)
  nonzero_new value = elim (nonzero value) [
    | some position ↦
        if leb min position && leb position max then some (record { position = position }) else none
    | none ↦ none
  ]

  -- `usize::BITS <= u32::BITS` is false: `usize` has 64 bits.
  unfoldable pub nonzero_from_usize : ℕ → Option (NonZeroU32 min max)
  unfolding nonzero_new
  nonzero_from_usize value = if leb value (mod32 - 1) then nonzero_new (as_u32 value) else none

  unfoldable pub into_u32 : NonZeroU32 min max → U32 min max
  into_u32 self = record { value = self.position }

  -- `NonZeroU32::into_index::<END>`, under its const assertion
  unfoldable pub into_index : (end : ℕ) → NonZeroU32 min max → U32 0 end
  into_index end self = record { value = self.position - 1 }

-- `U32::from_one`, at a nonzero `u32`
abbrev pub from_one : ℕ → U32 0 (mod32 - 2)
from_one position = record { value = position - 1 }

-- A value within its bounds.
abbrev pub IsU32 : {min max : ℕ} → U32 min max → Type 0
IsU32 {min} {max} v = (min ≤ v.value) × (v.value ≤ max)

abbrev pub IsNonZeroU32 : {min max : ℕ} → NonZeroU32 min max → Type 0
IsNonZeroU32 {min} {max} v = (min ≤ v.position) × (v.position ≤ max)
