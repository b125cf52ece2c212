-- ===== src/Map.antt =====
-- src/depot/map: the plan of a hash directory (plan.rs), its three planes with linear probing, and
-- removal by backshift (raw/mod.rs, raw/probe.rs). A plane is a function from a bucket to what it
-- holds there, which may be anything where nothing was written. A loop that only a vacant bucket ends
-- takes fuel and yields `none` without any left.
pub mod Edit
pub mod Flat
pub mod Circle
pub mod Backshift
pub mod Closing
pub mod Removal
pub mod Probing
pub mod Within
pub mod Lookup
pub mod Counting
pub mod Plans
mod Examples
use Prim.Native.Nat.{bit_and}
use o.Prelude.{
  ℕ, zero, suc, ◌+◌, ◌-◌, ◌*◌, ◌/◌, ◌%◌, ◌^◌, Bool, true, false, Option, none, some, Result, ok,
  err, ltb, ◌==◌, ◌&&◌, if◌then◌else◌, mod32, mod64, as_u32, wrapping_sub,
}
use o.Capacity.{Count, Error}

pub record Plan : Type 0 where
  pub capacity : Count

-- `Plan::MAX`
abbrev pub plan_max : ℕ
plan_max = 2 ^ 30

pub new_plan : ℕ → Result Error Plan
new_plan capacity =
    if ltb plan_max capacity
    then err (record { requested = capacity })
    else ok (record { capacity = record { count = as_u32 capacity } })

-- `usize::next_power_of_two`, by doubling from 1; 64 rounds pass every `usize`.
unfoldable pub doubled : ℕ → ℕ → ℕ → ℕ
doubled zero power value = power
doubled (suc rounds) power value =
    if ltb power value then doubled rounds (2 * power) value else power

unfoldable pub plan_buckets : Plan → ℕ
unfolding doubled
plan_buckets self = if self.capacity.count == 0 then 0 else doubled 64 1 (self.capacity.count * 2)

-- `map::Entry`, and `probe::State` and `Candidate`; a bucket is the `index` of its capability.
pub data Entry {ℓ κ} (O : Type ℓ) (V : Type κ) : Type (ℓ ⊔ κ) where
  occupied_entry : O → Entry O V
  vacant_entry : V → Entry O V

pub data State : Type 0 where
  occupied : ℕ → State
  vacant : ℕ → State
  full : State

pub data Candidate : Type 0 where
  hit : Candidate
  gap : Candidate
  skip : Candidate

-- `EMPTY`
abbrev pub empty_control : ℕ
empty_control = 128

pub record Table {ℓ} (P : Type ℓ) : Type ℓ where
  pub controls : ℕ → ℕ
  pub hashes : ℕ → ℕ
  pub payloads : ℕ → P
  pub buckets : ℕ

-- The planes that an allocation yields, and the directory over them.
pub record Fields {ℓ} (P : Type ℓ) : Type ℓ where
  pub controls : ℕ → ℕ
  pub hashes : ℕ → ℕ
  pub payloads : ℕ → P

abbrev pub from_fields {ℓ} : {P : Type ℓ} → Fields P → ℕ → Table P
from_fields fields buckets = record {
  controls = λ i. if ltb i buckets then empty_control else fields.controls i;
  hashes = fields.hashes;
  payloads = fields.payloads;
  buckets = buckets;
}

abbrev pub is_occupied {ℓ} : {P : Type ℓ} → Table P → ℕ → Bool
is_occupied self index = if self.controls index == empty_control then false else true

-- `Directory::hash` and `Directory::candidate`
abbrev pub hash_at {ℓ} : {P : Type ℓ} → Table P → ℕ → Option ℕ
hash_at self index = if self.controls index == empty_control then none else some (self.hashes index)

-- `(hash >> 57) as u8`
abbrev pub tag : ℕ → ℕ
tag hash = (hash / 2 ^ 57) % 256

abbrev pub candidate {ℓ} : {P : Type ℓ} → Table P → ℕ → ℕ → Candidate
candidate self index hash =
    if self.controls index == empty_control
    then gap
    else if (self.controls index == tag hash) && (self.hashes index == hash)
    then hit
    else skip

-- `buckets().wrapping_sub(1)`, and the index where a probe for a hash starts
abbrev pub mask : ℕ → ℕ
mask buckets = wrapping_sub mod64 buckets 1

unfoldable pub start {ℓ} : {P : Type ℓ} → Table P → ℕ → ℕ
start self hash = bit_and hash (mask self.buckets)

unfoldable pub advance {ℓ} : {P : Type ℓ} → Table P → ℕ → ℕ
advance self index = bit_and (index + 1) (mask self.buckets)

-- `Scan::step`: the index after it, and what it found
unfoldable pub step {ℓ} : {P : Type ℓ} → Table P → (hash index : ℕ) → ℕ × Option (Entry ℕ ℕ)
step self hash index = elim (candidate self index hash) as (λ x. ℕ × Option (Entry ℕ ℕ)) [
  | gap ↦ (index, some (vacant_entry index))
  | hit ↦ (advance self index, some (occupied_entry index))
  | skip ↦ (advance self index, none)
]

-- `Scan::<_, false>::next`: the state of the scan is its index and what is left.
unfoldable pub next_within {ℓ} : {P : Type ℓ} → Table P → (hash index left : ℕ) → State × (ℕ × ℕ)
next_within self hash index zero = (full, (index, 0))
next_within self hash index (suc left) =
    let (after, found) = step self hash index in
    elim found as (λ x. State × (ℕ × ℕ)) [
      | none ↦ next_within self hash after left
      | some (occupied_entry b) ↦ (occupied b, (after, left))
      | some (vacant_entry b) ↦ (vacant b, (after, left))
    ]

-- `Scan::<_, true>::next`
pub next_spare {ℓ} : {P : Type ℓ} → Table P → (hash fuel index : ℕ) → Option (State × ℕ)
next_spare self hash zero index = none
next_spare self hash (suc fuel) index =
    let (after, found) = step self hash index in
    elim found as (λ x. Option (State × ℕ)) [
      | none ↦ next_spare self hash fuel after
      | some (occupied_entry b) ↦ some (occupied b, after)
      | some (vacant_entry b) ↦ some (vacant b, after)
    ]

pub try_match {ℓ κ} :
    {S : Type ℓ} {E : Type κ}
    → (S → Option (State × S))
    → (ℕ → Result E Bool)
    → (fuel : ℕ) → S
    → Option (Result E State)
try_match next matches zero s = none
try_match {E = E} next matches (suc fuel) s = elim (next s) as (λ x. Option (Result E State)) [
  | none ↦ none
  | some (vacant b, after) ↦ some (ok (vacant b))
  | some (full, after) ↦ some (ok full)
  | some (occupied b, after) ↦ elim (matches b) as (λ x. Option (Result E State)) [
    | err e ↦ some (err e)
    | ok true ↦ some (ok (occupied b))
    | ok false ↦ try_match next matches fuel after
  ]
]

-- `raw::scan`
pub scan {ℓ κ} :
    {P : Type ℓ} {E : Type κ} → Bool → Table P → ℕ → (ℕ → Result E Bool) → Option (Result E State)
unfolding step next_spare next_within try_match
scan spare self hash matches =
    if spare
    then (if self.buckets == 0
        then some (ok full)
        else try_match (next_spare self hash self.buckets) matches self.buckets (start self hash))
    else try_match (λ (index, left). some (next_within self hash index left)) matches
        (self.buckets + 1) (start self hash, self.buckets)
