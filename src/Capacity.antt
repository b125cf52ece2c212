-- ===== src/Capacity.antt =====
-- src/depot/capacity/mod.rs: counts of collections that are indexed by a `u32`.
pub mod Laws
mod Examples
use o.Prelude.{
  ℕ, ◌+◌, ◌-◌, Option, none, some, Result, ok, err, Bool, ltb, ◌==◌, ◌&&◌, ◌||◌, not, if◌then◌else◌,
  mod32, as_u32, nonzero, min,
}

-- `capacity::Count`
pub record Count : Type 0 where
  pub count : ℕ

-- `capacity::Error`
pub record Error : Type 0 where
  pub requested : ℕ

-- `u32::MAX as usize`
abbrev pub u32_max : ℕ
u32_max = mod32 - 1

pub try_index {ℓ} : {E : Type ℓ} → (count maximum : ℕ) → E → Result E Count
try_index count maximum error =
    if ltb u32_max count || (not (count == 0) && ltb maximum (count - 1))
    then err error
    else ok (record { count = as_u32 count })

pub try_count {ℓ} : {E : Type ℓ} → ℕ → E → Result E Count
unfolding try_index
try_count count error = try_index count u32_max error

-- `Count::try_from`
pub try_from : ℕ → Result Error Count
unfolding try_count
try_from count = try_count count (record { requested = count })

-- `Count::try_narrow`, at a nonzero count, by `NonZero::<u32>::try_from`
pub try_narrow {ℓ} : {E : Type ℓ} → ℕ → E → Result E ℕ
try_narrow count error = if ltb u32_max count then err error else ok count

pub try_nonzero : ℕ → Result Error ℕ
unfolding try_narrow
try_nonzero count = try_narrow count (record { requested = count })

-- `Count::nonzero`
pub nonzero_count : Count → Option ℕ
nonzero_count self = nonzero self.count

-- `Limit<MAX>`
pub record Limit (max : ℕ) : Type 0 where
  pub limit : ℕ

-- `Limit::<MAX>::MAX`
pub limit_max : ℕ → ℕ
limit_max max = if ltb u32_max max then u32_max else max

-- `NonZero::<u32>::MIN.saturating_add`
abbrev pub saturating_succ : ℕ → ℕ
saturating_succ value = min (1 + value) u32_max

pub new_limit : (max : ℕ) → ℕ → Option (Limit max)
unfolding limit_max
new_limit max value =
    if (value == 0) || ltb (limit_max max) value
    then none
    else some (record { limit = saturating_succ (as_u32 value - 1) })
