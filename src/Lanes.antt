-- ===== src/Lanes.antt =====
-- src/depot/queue/resident/lanes.rs with src/depot/queue/round/join.rs: residents of one store, free or in
-- the FIFO of a lane, and the ring of the lanes that have any. A lane is the number of its index, and a
-- resident is the number of its slot; payloads stay in their slots.
pub mod Frame
pub mod Ready
pub mod Push
pub mod Leave
pub mod Front
pub mod Calls
pub mod Parking
pub mod Fresh
pub mod History
mod Examples
use o.Prelude.{
  ℕ, ◌+◌, Bool, true, false, Option, none, some, Result, ok, err, ltb, ◌==◌, if◌then◌else◌,
}
use o.Links.{
  Hook, Hooks, Chain, end, update, decode, first, is_empty, new_chain, link_back, unlink, chain_pop,
  acquire_raw, recycle, seeded, park, try_unpark,
}
use o.Links.Circle.{Cycle, cycle_push, unlink_key, cycle_pop, cycle_move_back}

-- `Lanes`: the hooks of the residents, the chain and the hook of each lane, the ring and the free list.
pub record Lanes : Type 0 where
  pub entries : Hooks
  pub chains : ℕ → Chain
  pub lanes : Hooks
  pub round : Cycle
  pub free : ℕ

-- `Lanes::try_new`, after its allocation
unfoldable pub new_lanes : ℕ → Lanes
new_lanes capacity = record {
  entries = λ i. record { previous = i; next = if ltb (i + 1) capacity then i + 1 else end };
  chains = λ c. new_chain none;
  lanes = λ c. record { previous = c; next = end };
  round = end;
  free = seeded capacity;
}

-- `Join::insert` and `Join::push`
pub join_push : Lanes → (lane index : ℕ) → Lanes
join_push self lane index =
    let activate = is_empty (self.chains lane) in
    let (chain, entries) = link_back (self.chains lane) self.entries index in
    let (round, lanes) =
      if activate then cycle_push self.round self.lanes lane else (self.round, self.lanes) in
    record self {
      entries = entries;
      chains = update self.chains lane chain;
      lanes = lanes;
      round = round;
    }

-- `Join::remove`
pub join_remove : Lanes → (lane index : ℕ) → Lanes
join_remove self lane index =
    let (chain, entries) = unlink (self.chains lane) self.entries index in
    let (round, lanes) =
      if is_empty chain then unlink_key self.round self.lanes lane else (self.round, self.lanes) in
    record self {
      entries = entries;
      chains = update self.chains lane chain;
      lanes = lanes;
      round = round;
    }

-- `Join::remove_front::<ACTIVE, ROTATE>`, with `Pop::is_last`
pub remove_front : (active rotate : Bool) → Lanes → (lane index : ℕ) → Lanes
remove_front active rotate self lane index =
    let is_last = elim (decode (self.entries index).next) as (λ x. Bool) [
      | none ↦ true
      | some n ↦ false
    ] in
    let (chain, entries) = chain_pop (self.chains lane) self.entries index in
    let (round, lanes) =
      if is_last
      then (if active
          then cycle_pop self.round self.lanes lane
          else unlink_key self.round self.lanes lane)
      else if rotate
      then cycle_move_back active self.round self.lanes lane (if active then lane else self.round)
      else (self.round, self.lanes) in
    record self {
      entries = entries;
      chains = update self.chains lane chain;
      lanes = lanes;
      round = round;
    }

abbrev pub idled : Lanes → ℕ → Lanes
idled self index = record self {
  entries = update self.entries index (record { previous = index; next = end });
}

-- `Lanes::try_push`, with the index of the key, once `View::acquire` has answered
abbrev pub push_acquired : Lanes → (lane : ℕ) → Option ℕ × (ℕ × Hooks) → Result (Unit {0}) ℕ × Lanes
push_acquired self lane (none, rest) = (err tt, self)
push_acquired self lane (some index, (free, entries)) =
    (ok index, join_push (record self { entries = entries; free = free }) lane index)

pub try_push : Lanes → (lane : ℕ) → Result (Unit {0}) ℕ × Lanes
try_push self lane = push_acquired self lane (acquire_raw self.free self.entries)

-- `Lanes::pop`, with `Join::pop`
pub pop : Lanes → (lane : ℕ) → Option ℕ × Lanes
pop self lane = elim (first (self.chains lane)) as (λ x. Option ℕ × Lanes) [
  | none ↦ (none, self)
  | some index ↦ (some index, idled (remove_front false false self lane index) index)
]

-- `Lanes::take::<ROTATE>`, with `Join::active`
pub take : (rotate : Bool) → Lanes → Option ℕ × Lanes
take rotate self = elim (decode self.round) as (λ x. Option ℕ × Lanes) [
  | none ↦ (none, self)
  | some lane ↦
      let index = (self.chains lane).head in
      (some index, idled (remove_front true rotate self lane index) index)
]

-- `Index::is_linked` of the resident's hook
abbrev pub is_queued : Lanes → ℕ → Bool
is_queued self index = if (self.entries index).previous == index then false else true

-- `Lanes::<T, Plain>::remove`: the lane of a key that is in no FIFO
pub retire : Lanes → (lane index : ℕ) → Option ℕ × Lanes
retire self lane index =
    if is_queued self index
    then (let removed = join_remove self lane index in
        let (free, entries) = recycle removed.free removed.entries index in
        (none, record removed { free = free; entries = entries }))
    else (let (free, entries) = recycle self.free self.entries index in
        (some lane, record self { free = free; entries = entries }))

-- `Lanes::relink_back`
pub relink_back : Lanes → (lane index target : ℕ) → Lanes
relink_back self lane index target =
    if is_queued self index
    then (if lane == target then self else join_push (join_remove self lane index) target index)
    else join_push self target index

-- `Lanes::<T, Parking>::park`
pub park_front : Lanes → (lane : ℕ) → Option ℕ × Lanes
park_front self lane = elim (first (self.chains lane)) as (λ x. Option ℕ × Lanes) [
  | none ↦ (none, self)
  | some index ↦
      let taken = remove_front false false self lane index in
      (some index, record taken { entries = park taken.entries index })
]

-- A resident given to the free list
abbrev pub recycled : Lanes → ℕ → Lanes
recycled self index =
    let (free, entries) = recycle self.free self.entries index in
    record self { free = free; entries = entries }

-- `Lanes::<T, Parking>::claim`
pub claim : Lanes → (index : ℕ) → Option ℕ × Lanes
claim self index = elim (try_unpark self.entries index) as (λ x. Option ℕ × Lanes) [
  | none ↦ (none, self)
  | some entries ↦ (some index, recycled (record self { entries = entries }) index)
]

pub data Removal : Type 0 where
  linked : Removal
  parked : ℕ → Removal
  empty : Removal

-- `Lanes::<T, Parking>::remove`
pub remove : Lanes → (lane index : ℕ) → Removal × Lanes
remove self lane index =
    if is_queued self index
    then (linked, recycled (join_remove self lane index) index)
    else elim (try_unpark self.entries index) as (λ x. Removal × Lanes) [
      | none ↦ (empty, recycled self index)
      | some entries ↦ (parked index, recycled (record self { entries = entries }) index)
    ]
