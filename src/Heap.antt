-- ===== src/Heap.antt =====
-- src/depot/heap: minimum heaps over a fixed domain of keys, with a reverse map from each key's index
-- to its position (raw/store.rs, raw/source.rs, raw/hole.rs, hole/, entry/, mod.rs, indexed, keyed).
-- An allocation is a function from an index to what it holds there; `none` in the reverse map is
-- `Position::NONE`. A priority is a number, since the source only compares priorities by `Ord`.
-- `tie` is whether the store overrides `precedes` by the order of indices, as `keyed::Min` does.
pub mod Path
pub mod Entry
pub mod Gap
pub mod Climb
pub mod Descent
pub mod Sink
pub mod Moves
pub mod Domain
pub mod Place
pub mod Removal
pub mod Laws
pub mod Queries
pub mod Reports
mod Examples
use Prim.Native.Nat.{compare, Ordering}
use Prim.Native.Nat.Ordering.{lt, eq, gt}
use o.Prelude.{
  ℕ, ◌+◌, ◌*◌, ◌<◌, Bool, true, false, Option, none, some, ltb, leb, ◌==◌, ◌&&◌, if◌then◌else◌,
}

-- An `Address`: its index, and the generation that tells later owners of the index apart. A `Direct`
-- key has generation 0.
pub record Key : Type 0 where
  pub index : ℕ
  pub generation : ℕ

pub record Stored : Type 0 where
  pub identity : Key
  pub priority : ℕ

-- The planes of one allocation: the heap's prefix of `len` entries, and the reverse map.
pub record Store : Type 0 where
  pub capacity : ℕ
  pub len : ℕ
  pub entries : ℕ → Stored
  pub positions : ℕ → Option ℕ

pub record Hole : Type 0 where
  pub owner : Store
  pub value : Stored
  pub position : ℕ

abbrev pub update {ℓ} : {A : Type ℓ} → (ℕ → A) → ℕ → A → ℕ → A
update f i v j = if i == j then v else f j

abbrev pub index_at : Store → ℕ → ℕ
index_at s p = (s.entries p).identity.index

-- `Store::precedes`
pub precedes : Bool → Key → Key → Bool
precedes tie left right = tie && ltb left.index right.index

-- `compare` of raw/source.rs
pub compare_stored : Bool → Stored → Stored → Ordering
unfolding precedes
compare_stored tie left right = elim (compare left.priority right.priority) [
  | lt ↦ lt
  | gt ↦ gt
  | eq ↦
      if precedes tie left.identity right.identity
      then lt
      else if precedes tie right.identity left.identity
      then gt
      else eq
]

abbrev pub is_lt : Ordering → Bool
is_lt o = elim o [ lt ↦ true | eq ↦ false | gt ↦ false ]

abbrev pub is_gt : Ordering → Bool
is_gt o = elim o [ lt ↦ false | eq ↦ false | gt ↦ true ]

-- `Source::compare` and `Source::compare_at`
abbrev pub compare_value : Bool → Store → Stored → ℕ → Ordering
compare_value tie owner value position = compare_stored tie value (owner.entries position)

abbrev pub compare_at : Bool → Store → ℕ → ℕ → Ordering
compare_at tie owner left right = compare_stored tie (owner.entries left) (owner.entries right)

-- `Store::reindex`
abbrev pub reindex : Store → Key → Option ℕ → Store
reindex s key position = record s { positions = update s.positions key.index position }

-- `Source::read::<REMOVE>`: the value, and the owner that remains.
pub read : Bool → Store → ℕ → Stored × Store
read remove owner position =
    let value = owner.entries position in
    (value, if remove then reindex owner value.identity none else owner)

-- `Step::shift` with `Source::shift`: the entry at `source` moves into the hole.
pub shift : Hole → ℕ → Hole
shift hole source =
    let value = hole.owner.entries source in
    record hole {
      owner = record (reindex hole.owner value.identity (some hole.position)) {
        entries = update hole.owner.entries hole.position value;
      };
      position = source;
    }

-- `Hole::commit::<PLACE>` with `Source::write`
pub commit : Bool → Hole → Store
commit place hole =
    let owner = hole.owner in
    let placed = if place then reindex owner hole.value.identity (some hole.position) else owner in
    record placed { entries = update placed.entries hole.position hole.value }
