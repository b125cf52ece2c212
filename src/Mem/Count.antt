-- ===== src/Mem/Count.antt =====
-- src/mem/raw/mod.rs, `Count` and `Edge`, with src/mem/raw/state/live.rs and src/mem/rc.rs: a local
-- reference count of `u32` or `usize`, whose modulus is the first argument.
pub mod Laws
mod Examples
use o.Prelude.{
  ℕ, Bool, true, false, Option, none, some, Result, ok, err, ◌==◌, if◌then◌else◌, checked_add,
  wrapping_sub,
}

-- `Count<W>`
abbrev pub Count : Type 0
Count = ℕ

-- `rc::Error` and `rc::Release`
pub data RcError : Type 0 where
  exhausted : RcError

pub data Release : Type 0 where
  shared last : Release

pub empty : Count
empty = 0

pub one : Count
one = 1

pub is_empty : Count → Bool
is_empty count = count == 0

pub is_unique : Count → Bool
is_unique count = count == 1

pub activate : Count → Count
activate count = 1

pub start_pair : Count → Count
start_pair count = 2

pub retire : Count → Count
retire count = 0

module _ (m : ℕ) where
  -- `Live::try_retain`
  live_retain : Count → Result RcError Count
  live_retain value = elim (checked_add m value 1) [ some next ↦ ok next | none ↦ err exhausted ]

  -- `Live::release`
  live_release : Count → Option Count
  live_release value = let next = wrapping_sub m value 1 in if next == 0 then none else some next

  -- `Edge::try_retain`: the count that it leaves, and its result.
  pub try_retain : Count → Count × Result RcError (Unit {0})
  unfolding live_retain
  try_retain count = elim (live_retain count) [ ok next ↦ (next, ok tt) | err e ↦ (count, err e) ]

  -- `Edge::release`
  pub release : Count → Count × Release
  unfolding live_release
  release count = elim (live_release count) [ none ↦ (0, last) | some next ↦ (next, shared) ]
