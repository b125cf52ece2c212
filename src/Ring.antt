-- ===== src/Ring.antt =====
-- src/depot/queue/ring/mod.rs and state.rs, with the `RingStore` and `RingEdit` traits of
-- src/depot/raw/mod.rs and the views of src/depot/raw/ringcell/rings.rs: a FIFO with an exact
-- capacity. A slot that holds no initialised value is `none`; the word `W` is `u32`.
pub mod Position
pub mod Refine
pub mod Session
mod Examples
use o.Prelude.{
  ℕ, zero, suc, ◌+◌, ◌-◌, Bool, true, false, Option, none, some, Result, ok, err, ltb, leb, ◌==◌,
  if◌then◌else◌, List, [], ◌∷◌, length, get_elem?, set, replicate, as_u32, min,
}

-- `ring::State<u32>`
pub record State : Type 0 where
  pub head : ℕ
  pub len : ℕ

abbrev pub empty_state : State
empty_state = record { head = 0; len = 0 }

pub position : State → (capacity offset : ℕ) → ℕ
position self capacity offset =
    if ltb offset (capacity - self.head)
    then self.head + offset
    else offset - (capacity - self.head)

-- `prefix`: where the first run starts, and the lengths of the two runs.
unfoldable pub prefix : State → (capacity len : ℕ) → ℕ × ℕ × ℕ
prefix self capacity len =
    let first = min len (capacity - self.head) in (self.head, first, len - first)

-- `extend` also returns the state.
pub extend : State → (capacity len : ℕ) → State × ℕ × ℕ × ℕ
unfolding position prefix
extend self capacity len =
    let tail = position self capacity self.len in
    let added : State = record { head = as_u32 tail; len = as_u32 len } in
    let (start, first, second) = prefix added capacity len in
    (record self { len = as_u32 (self.len + len) }, start, first, second)

pub consume : State → (capacity len : ℕ) → State
unfolding position
consume self capacity len =
    let left = self.len - len in
    record {
      head = as_u32 (if left == 0 then 0 else position self capacity len);
      len = as_u32 left;
    }

-- `push::<FRONT>`: the state and the physical index to write.
pub claim : Bool → State → ℕ → State × ℕ
unfolding extend
claim front self capacity =
    if front
    then (let head = if self.head == 0 then capacity - 1 else self.head - 1 in
        (record { head = as_u32 head; len = as_u32 (self.len + 1) }, head))
    else (let (state, start, first, second) = extend self capacity 1 in (state, start))

-- `pop_front`: the state and the physical index to read.
unfoldable pub release : State → ℕ → State × ℕ
release self capacity =
    let next = self.head + 1 in
    (
      record { head = as_u32 (if next == capacity then 0 else next); len = as_u32 (self.len - 1) },
      self.head,
    )

-- `ring::Fifo<T>`: its slots, as many as its capacity, and its state.
pub record Fifo {ℓ} (T : Type ℓ) : Type ℓ where
  pub entries : List (Option T)
  pub state : State

abbrev pub capacity {ℓ} : {T : Type ℓ} → Fifo T → ℕ
capacity self = length self.entries

-- `Option<Option<T>>` from a slot: no slot and no value are alike to a read.
abbrev pub read {ℓ} : {T : Type ℓ} → Option (Option T) → Option T
read none = none
read (some slot) = slot

module _ {ℓ} {T : Type ℓ} where
  pub new : ℕ → Fifo T
  new capacity = record { entries = replicate capacity none; state = empty_state }

  pub len : Fifo T → ℕ
  len self = self.state.len

  pub is_empty : Fifo T → Bool
  is_empty self = self.state.len == 0

  pub is_full : Fifo T → Bool
  is_full self = self.state.len == capacity self

  -- `RingEdit::push::<FRONT>`, on a vacancy
  pub push : Bool → Fifo T → T → Fifo T
  push front self value =
      let (state, index) = claim front self.state (capacity self) in
      record { entries = set self.entries index (some value); state = state }

  -- `try_vacant` then `Vacant::push_back` or `push_front`; a full ring returns the value.
  try_push : Bool → Fifo T → T → Fifo T × Result T (Unit {0})
  unfolding push
  try_push front self value =
      if self.state.len == capacity self then (self, err value) else (push front self value, ok tt)

  pub push_back : Fifo T → T → Fifo T × Result T (Unit {0})
  unfolding try_push
  push_back self value = try_push false self value

  pub push_front : Fifo T → T → Fifo T × Result T (Unit {0})
  unfolding try_push
  push_front self value = try_push true self value

  -- `front_entry` then `Front::remove`: the value moves out of its slot.
  pub pop_front : Fifo T → Fifo T × Option T
  pop_front self =
      if self.state.len == 0
      then (self, none)
      else (let (state, index) = release self.state (capacity self) in
          (
            record { entries = set self.entries index none; state = state },
            read (get_elem? self.entries index),
          ))

  pub get : Fifo T → ℕ → Option T
  get self index =
      if leb self.state.len index
      then none
      else read (get_elem? self.entries (position self.state (capacity self) index))

  pub front : Fifo T → Option T
  front self = if self.state.len == 0 then none else read (get_elem? self.entries self.state.head)

  -- `clear` ends every value of the two runs.
  pub clear : Fifo T → Fifo T
  clear self =
      if self.state.len == 0
      then self
      else record { entries = replicate (capacity self) none; state = empty_state }

-- What a caller asks of a ring.
pub data Op {ℓ} (T : Type ℓ) : Type ℓ where
  put_back put_front : T → Op T
  take_front : Op T
  look : ℕ → Op T
  reset : Op T

-- What it sees: the value that a full ring gives back, or one that it took or looked at.
pub data Reply {ℓ} (T : Type ℓ) : Type ℓ where
  put : Result T (Unit {0}) → Reply T
  seen : Option T → Reply T
  done : Reply T

module _ {ℓ} {T : Type ℓ} where
  pub call : Fifo T → Op T → Fifo T × Reply T
  call self (put_back x) = let (next, r) = push_back self x in (next, put r)
  call self (put_front x) = let (next, r) = push_front self x in (next, put r)
  call self take_front = let (next, x) = pop_front self in (next, seen x)
  call self (look i) = (self, seen (get self i))
  call self reset = (clear self, done)

  pub run : Fifo T → List (Op T) → List (Reply T)
  unfolding call
  run self [] = []
  run self (op ∷ ops) = (call self op).1 ∷ run (call self op).0 ops
