-- ===== src/Prelude/Words.antt =====
-- Machine words as native numbers: `usize` and `u64` have 64 bits, `u32` has 32.
use Prim.Native.Nat.{ℕ, ◌+◌, ◌-◌, ◌*◌, ◌%◌, ◌^◌}
use mathlib.Core.Option.{Option, none, some}
use package.o.Prelude.Tests.{leb, ltb, ◌==◌, if◌then◌else◌}

abbrev pub mod64 : ℕ
mod64 = 2 ^ 64

abbrev pub mod32 : ℕ
mod32 = 2 ^ 32

-- Wrapping operations at a given modulus.
abbrev pub wrapping_add : ℕ → ℕ → ℕ → ℕ
wrapping_add m a b = (a + b) % m

abbrev pub wrapping_sub : ℕ → ℕ → ℕ → ℕ
wrapping_sub m a b = (a + m - b) % m

abbrev pub wrapping_mul : ℕ → ℕ → ℕ → ℕ
wrapping_mul m a b = (a * b) % m

abbrev pub checked_add : ℕ → ℕ → ℕ → Option ℕ
checked_add m a b = if ltb (a + b) m then some (a + b) else none

abbrev pub checked_sub : ℕ → ℕ → Option ℕ
checked_sub a b = if leb b a then some (a - b) else none

-- `value as u32`
abbrev pub as_u32 : ℕ → ℕ
as_u32 value = value % mod32

-- `NonZero::new`
abbrev pub nonzero : ℕ → Option ℕ
nonzero value = if value == 0 then none else some value
