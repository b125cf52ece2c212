-- ===== src/Heap/Entry.antt =====
-- src/depot/heap/raw/hole.rs, entry/mod.rs, entry/vacancy.rs, mod.rs and keyed/mod.rs: the operations
-- of a heap. Each takes and returns the store that its handles lend out.

use Prim.Native.Nat.Ordering.{lt, eq, gt}
use o.Prelude.{
  ℕ, zero, suc, ◌+◌, ◌-◌, Bool, true, false, not, Option, none, some, Result, ok, err, ltb, ◌==◌,
  ◌&&◌, if◌then◌else◌, as_u32,
}
use o.Heap.{Key, Stored, Store, compare_value, compare_at, read, shift, commit, reindex}
use o.Heap.Path.{HolePath, up, down, repair, apply}

-- `Change`, and the states of `Lookup` and `Probe`, with the position of an occupied entry.
pub data Change : Type 0 where
  contents minimum : Change

pub data Lookup : Type 0 where
  vacant : Lookup
  occupied conflict : ℕ → Lookup

pub data Probe : Type 0 where
  out_of_range empty_slot other_generation : Probe
  found : ℕ → Probe

abbrev pub same_key : Key → Key → Bool
same_key a b = (a.index == b.index) && (a.generation == b.generation)

-- `Min::try_new`, for a capacity that was admitted and allocated; what the entries hold is unknown.
unfoldable pub new : ℕ → (ℕ → Stored) → Store
new capacity entries = record {
  capacity = capacity;
  len = 0;
  entries = entries;
  positions = λ i. none;
}

-- `Entry::change`
abbrev pub change_at : ℕ → Change
change_at position = if position == 0 then minimum else contents

module _ (tie : Bool) where
  -- `Hole::append` then `Vacancy::store`
  unfoldable pub insert : Store → Stored → Store
  insert owner value =
      let path = up owner.len (compare_value tie owner value) in
      commit true (apply (record owner { len = as_u32 path.start + 1 }) path value)

  -- `Hole::replace` then `finish`: the store, the entry's new position and the old value.
  unfoldable pub replace : Store → ℕ → Stored → Store × ℕ × Stored
  replace owner position value =
      let path = repair position owner.len (compare_at tie owner) (compare_value tie owner value) in
      let (old, rest) = read false owner position in
      let hole = apply rest path value in (commit true hole, hole.position, old)

  abbrev pub update_path : Store → ℕ → Stored → HolePath
  update_path owner position value = elim (compare_value tie owner value position) [
    | lt ↦ up position (compare_value tie owner value)
    | gt ↦ down position owner.len (compare_at tie owner) (compare_value tie owner value)
    | eq ↦ record { start = position; end = position }
  ]

  -- `Hole::update`
  unfoldable pub update_value : Store → ℕ → Stored → Store
  update_value owner position value =
      let (old, rest) = read false owner position in
      let hole = apply rest (update_path owner position value) value in
      commit (not (hole.position == position)) hole

  -- `Hole::remove`
  unfoldable pub remove : Store → ℕ → Store × Stored
  remove owner position =
      let tail = owner.len - 1 in
      let (value, rest) = read true owner position in
      let path = repair position tail (compare_at tie owner) (compare_at tie owner tail) in
      let hole = shift (apply rest path value) tail in
      if position == tail
      then (record rest { len = as_u32 tail }, value)
      else (record hole.owner { len = as_u32 tail }, hole.value)

  -- `Entry::set_min_slot`, by `prepare`, which keeps the stored key
  unfoldable pub set_min_slot : Store → ℕ → ℕ → Store × Change
  unfolding replace
  set_min_slot owner position priority =
      let current = owner.entries position in
      let (next, place, old) = replace owner position (record current { priority = priority }) in
      (
        next,
        if position == 0
            then (if current.priority == priority then contents else minimum)
            else change_at place,
      )

  -- `Entry::retire_min`
  unfoldable pub retire_min : Store → ℕ → Store × Change
  unfolding remove
  retire_min owner position = ((remove owner position).0, change_at position)

  -- `Slot::replace`, at a key of the domain
  unfoldable pub slot_replace : Store → Key → ℕ → Store
  unfolding insert replace
  slot_replace owner key priority =
      let value : Stored = record { identity = key; priority = priority } in
      elim (owner.positions key.index) [
        | none ↦ insert owner value
        | some position ↦ (replace owner position value).0
      ]

  -- `Slot::clear`
  unfoldable pub slot_clear : Store → Key → Store
  unfolding remove
  slot_clear owner key = elim (owner.positions key.index) [
    | none ↦ owner
    | some position ↦ (remove owner position).0
  ]

  -- `Slot::retire`
  unfoldable pub slot_retire : Store → Key → Store
  unfolding remove
  slot_retire owner key = elim (owner.positions key.index) [
    | none ↦ owner
    | some position ↦
        if same_key (owner.entries position).identity key then (remove owner position).0 else owner
  ]

  -- `keyed::Min::retire`: a key outside the domain is passed over.
  unfoldable pub retire : Store → Key → Store
  unfolding slot_retire
  retire owner key = if ltb key.index owner.capacity then slot_retire owner key else owner

-- `Slot::lookup`
unfoldable pub lookup : Store → Key → Lookup
lookup owner key = elim (owner.positions key.index) [
  | none ↦ vacant
  | some position ↦
      if same_key (owner.entries position).identity key
      then occupied position
      else conflict position
]

-- `Lookup::try_new`; the error carries the capacity.
unfoldable pub entry : Store → Key → Result ℕ Lookup
unfolding lookup
entry owner key = if ltb key.index owner.capacity then ok (lookup owner key) else err owner.capacity

-- `Lookup::probe`
unfoldable pub probe : Store → Key → Probe
unfolding lookup
probe owner key =
    if ltb key.index owner.capacity
    then elim (lookup owner key) [
      | vacant ↦ empty_slot
      | occupied position ↦ found position
      | conflict position ↦ other_generation
    ]
    else out_of_range

-- `Store::peek` and `Store::current`
unfoldable pub peek : Store → Option (Key × ℕ)
peek owner =
    let first = owner.entries 0 in
    if owner.len == 0 then none else some (first.identity, first.priority)

unfoldable pub current : Store → ℕ → Option Stored
current owner index =
    if ltb index owner.capacity
    then elim (owner.positions index) [
      | none ↦ none
      | some position ↦ some (owner.entries position)
    ]
    else none

-- The loop of `Store::clear`, from the last entry down
unfoldable pub clear_entries : ℕ → Store → Store
clear_entries zero owner = record owner { len = 0 }
clear_entries (suc k) owner =
    clear_entries k (reindex (record owner { len = k }) (owner.entries k).identity none)

unfoldable pub clear : Store → Store
unfolding clear_entries
clear owner = clear_entries owner.len owner
