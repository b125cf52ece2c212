-- ===== src/Map/Flat.antt =====
-- src/depot/map/flat/mod.rs: the table that keeps a vacant bucket, by a logical capacity of at most half
-- of its buckets. An operation yields `none` only where a loop of the directory has run out of fuel.
pub mod Holds
pub mod Keys
pub mod Edits
pub mod Session
mod Examples
use mathlib.Core.Option
use o.Prelude.{
  List, [], ◌∷◌, ℕ, ◌+◌, Bool, true, false, Option, none, some, Result, ok, err, leb, ◌==◌,
  if◌then◌else◌, mod32, as_u32, wrapping_sub,
}
use o.Capacity.{Count}
use o.Map.{
  Plan, plan_buckets, Table, Fields, from_fields, State, occupied, vacant, full, Entry,
  occupied_entry, vacant_entry, scan,
}
use o.Map.Edit.{insert, remove, clear, member}

-- `flat::Table<V>`
pub record Flat {ℓ} (V : Type ℓ) : Type ℓ where
  pub table : Table V
  pub len : ℕ
  pub capacity : ℕ

-- `errors::Insert<V>`
pub data Refused {ℓ} (V : Type ℓ) : Type ℓ where
  full_insert : V → Refused V
  occupied_insert : V → Refused V

-- `Table::try_new`, given what its plan's allocation answers
unfoldable pub try_new {ℓ κ} :
    {V : Type ℓ} {E : Type κ} → Plan → Result E (Fields V) → Result E (Flat V)
unfolding plan_buckets
try_new {V = V} {E = E} plan fields = elim fields as (λ x. Result E (Flat V)) [
  | err e ↦ err e
  | ok planes ↦ ok (record {
    table = from_fields planes (plan_buckets plan);
    len = 0;
    capacity = plan.capacity.count;
  })
]

-- `std::convert::Infallible`
pub data Infallible : Type 0 where

abbrev pub sure : Option (Result Infallible State) → Option State
sure none = none
sure (some (ok state)) = some state
sure (some (err e)) = elim e as (λ x. Option State) [ ]

-- `Probe::scan`, with a matcher on values
pub probe {ℓ} : {V : Type ℓ} → Flat V → ℕ → (V → Bool) → Option State
unfolding scan
probe self hash matches =
    sure (scan {E = Infallible} true self.table hash (λ b. ok (matches (self.table.payloads b))))

-- `Probe::find`, the bucket that `Table::get` and `Table::occupied` give a view of
pub find {ℓ} : {V : Type ℓ} → Flat V → ℕ → (V → Bool) → Option (Option ℕ)
unfolding probe
find self hash matches = elim (probe self hash matches) as (λ x. Option (Option ℕ)) [
  | none ↦ none
  | some (occupied b) ↦ some (some b)
  | some (vacant b) ↦ some none
  | some full ↦ some none
]

pub get {ℓ} : {V : Type ℓ} → Flat V → ℕ → (V → Bool) → Option (Option V)
unfolding find
get {V = V} self hash matches = elim (find self hash matches) as (λ x. Option (Option V)) [
  | none ↦ none
  | some none ↦ some none
  | some (some b) ↦ some (some (self.table.payloads b))
]

-- `Probe::entry`, with `Vacancy::new` on a vacant bucket
pub entry {ℓ} : {V : Type ℓ} → Flat V → ℕ → (V → Bool) → Option (Entry ℕ (Option ℕ))
unfolding probe
entry self hash matches = elim (probe self hash matches) as (λ x. Option (Entry ℕ (Option ℕ))) [
  | none ↦ none
  | some (occupied b) ↦ some (occupied_entry b)
  | some (vacant b) ↦ some (vacant_entry (if leb self.capacity self.len then none else some b))
  | some full ↦ some (vacant_entry none)
]

-- `Vacancy::insert`
abbrev pub fill {ℓ} : {V : Type ℓ} → Flat V → (bucket hash : ℕ) → V → Flat V
fill self bucket hash value = record self {
  table = insert self.table bucket hash value;
  len = as_u32 (self.len + 1);
}

pub try_insert {ℓ} :
    {V : Type ℓ} → Flat V → ℕ → V → (V → Bool) → Option (Result (Refused V) (Flat V))
unfolding entry
try_insert {V = V} self hash value matches =
    elim (entry self hash matches) as (λ x. Option (Result (Refused V) (Flat V))) [
      | none ↦ none
      | some (occupied_entry b) ↦ some (err (occupied_insert value))
      | some (vacant_entry none) ↦ some (err (full_insert value))
      | some (vacant_entry (some b)) ↦ some (ok (fill self b hash value))
    ]

-- `Found::remove`
pub take {ℓ} : {V : Type ℓ} → Flat V → ℕ → Option (Flat V × V)
unfolding remove
take {V = V} self bucket = elim (remove self.table bucket) as (λ x. Option (Flat V × V)) [
  | none ↦ none
  | some (table, value) ↦
      some (record self { table = table; len = wrapping_sub mod32 self.len 1 }, value)
]

-- `Table::remove`; `Table::retire` drops the value. A table without such an entry stays.
pub remove_entry {ℓ} : {V : Type ℓ} → Flat V → ℕ → (V → Bool) → Option (Flat V × Option V)
unfolding find take
remove_entry {V = V} self hash matches =
    elim (find self hash matches) as (λ x. Option (Flat V × Option V)) [
      | none ↦ none
      | some none ↦ some (self, none)
      | some (some b) ↦ elim (take self b) as (λ x. Option (Flat V × Option V)) [
        | none ↦ none
        | some (rest, value) ↦ some (rest, some value)
      ]
    ]

pub clear_table {ℓ} : {V : Type ℓ} → Flat V → Flat V
clear_table self = if self.len == 0 then self else record self { table = clear self.table; len = 0 }

-- What a caller does with a table of values that have keys, and what it is answered.
pub data Op (V K : Type 0) : Type 0 where
  look : K → Op V K
  put : V → Op V K
  pull : K → Op V K
  reset : Op V K
  measure : Op V K

pub data Reply (V : Type 0) : Type 0 where
  seen : Option V → Reply V
  stored : Result (Refused V) (Unit {0}) → Reply V
  done : Reply V
  sized : ℕ → Reply V

module _ {V K : Type 0} (key : V → K) (hash : K → ℕ) (eq : K → K → Bool) where
  pub call : Flat V → Op V K → Option (Flat V × Reply V)
  unfolding get try_insert remove_entry clear_table
  call self (look k) =
      elim (get self (hash k) (λ v. eq (key v) k)) as (λ x. Option (Flat V × Reply V)) [
        | none ↦ none
        | some found ↦ some (self, seen found)
      ]
  call self (put v) =
      elim (try_insert self (hash (key v)) v (λ w. eq (key w) (key v)))
        as (λ x. Option (Flat V × Reply V)) [
          | none ↦ none
          | some (ok after) ↦ some (after, stored (ok tt))
          | some (err e) ↦ some (self, stored (err e))
        ]
  call self (pull k) =
      elim (remove_entry self (hash k) (λ v. eq (key v) k)) as (λ x. Option (Flat V × Reply V)) [
        | none ↦ none
        | some (after, value) ↦ some (after, seen value)
      ]
  call self reset = some (clear_table self, done)
  call self measure = some (self, sized self.len)

  pub run : Flat V → List (Op V K) → Option (List (Reply V))
  unfolding call
  run self [] = some []
  run self (op ∷ ops) = elim (call self op) as (λ x. Option (List (Reply V))) [
    | none ↦ none
    | some (after, reply) ↦ Option.map (λ replies. reply ∷ replies) (run after ops)
  ]
