-- ===== src/Ring/Position.antt =====
-- Ring positions, at a capacity that is a `u32`.
use o.Prelude.{
  Bool-cases, inl, inr, ◌⊎◌, ◌==◌, ℕ, ◌+◌, ◌-◌, ◌≤◌, ◌<◌, ◌≡◌, ◌≢◌, true, false, arith, mod32,
}
use o.Ring.{State, position, extend, consume, claim, release}

-- A state of a ring with `capacity` slots.
pub record IsState (capacity : ℕ) (s : State) : Type 0 where
  pub word : capacity < mod32
  pub head_in : s.head < capacity
  pub len_in : s.len ≤ capacity

module _ {capacity : ℕ} {s : State} (v : IsState capacity s) where
  pub position-lt : (i : ℕ) → i < capacity → position s capacity i < capacity
  unfolding position
  position-lt i h = ground (arith, v)

  -- Offsets below the capacity have slots of their own.
  pub position_injective :
      (i j : ℕ)
      → i < capacity
      → j < capacity
      → i ≢ j
      → position s capacity i ≢ position s capacity j
  unfolding position
  position_injective i j h k n = ground (arith, v)

  -- `push::<false>` writes the slot behind the last, and moves no other.
  pub claim_back :
      s.len < capacity
      → IsState capacity (claim false s capacity).0
        × ((claim false s capacity).1 ≡ position s capacity s.len)
        × ((claim false s capacity).0.len ≡ s.len + 1)
        × ((claim false s capacity).0.head ≡ s.head)
  unfolding claim
  claim_back h = ground (arith, v)

  -- `push::<true>` writes a slot before the first, and moves every other up by one.
  pub claim_front :
      s.len < capacity
      → IsState capacity (claim true s capacity).0
        × ((claim true s capacity).1 ≡ position (claim true s capacity).0 capacity 0)
        × ((claim true s capacity).0.len ≡ s.len + 1)
        × ((i : ℕ)
            → i < s.len
            → position (claim true s capacity).0 capacity (i + 1) ≡ position s capacity i)
  unfolding claim
  claim_front h =
      (ground (arith, v), ground (arith, v), ground (arith, v), λ i k. ground (arith, v))

  -- `pop_front` reads the first slot, and moves every other down by one.
  pub release_lem :
      0 < s.len
      → IsState capacity (release s capacity).0
        × ((release s capacity).1 ≡ position s capacity 0)
        × ((release s capacity).0.len ≡ s.len - 1)
        × ((i : ℕ)
            → i + 1 < s.len
            → position (release s capacity).0 capacity i ≡ position s capacity (i + 1))
  unfolding release position
  release_lem h =
      (ground (arith, v), ground (arith, v), ground (arith, v), λ i k. ground (arith, v))

  consume_origin :
      (n : ℕ) → n ≤ s.len → ((consume s capacity n).len ≢ 0) ⊎ ((consume s capacity n).head ≡ 0)
  unfolding consume
  consume_origin n h = elim (Bool-cases (s.len - n == 0)) [
    | inl e ↦ inr (ground (arith, v))
    | inr e ↦ inl (ground (arith, v))
  ]

  -- For a ring of at least one slot whose capacity is a `u32`, `consume` of a prefix leaves the other
  -- values in order and where they are, and a ring that it empties starts at slot zero.
  pub consume_total :
      (n : ℕ)
      → n ≤ s.len
      → IsState capacity (consume s capacity n)
        × ((consume s capacity n).len ≡ s.len - n)
        × (((consume s capacity n).len ≢ 0) ⊎ ((consume s capacity n).head ≡ 0))
        × ((i : ℕ)
            → n + i < s.len
            → position (consume s capacity n) capacity i ≡ position s capacity (n + i))
  unfolding consume
  consume_total n h =
      (ground (arith, v), ground (arith, v), consume_origin n h, λ i k. ground (arith, v))

  -- For a ring of at least one slot whose capacity is a `u32`, with room for `n` more values, `extend` claims the next `n` slots: the first run
  -- starts behind the last value, the second at slot zero, their lengths add up to `n`, the first
  -- holds offsets up to its length and the second the rest.
  pub extend_total :
      (n : ℕ)
      → n ≤ capacity - s.len
      → let (s', start, first, second) = extend s capacity n in
        IsState capacity s'
        × (s'.len ≡ s.len + n)
        × (s'.head ≡ s.head)
        × (first + second ≡ n)
        × ((i : ℕ) → i < first → position s capacity (s.len + i) ≡ start + i)
        × ((i : ℕ) → i < second → position s capacity (s.len + first + i) ≡ i)
  unfolding extend
  extend_total n h = (
    ground (arith, v),
    ground (arith, v),
    ground (arith, v),
    ground (arith, v),
    λ i k. ground (arith, v),
    λ i k. ground (arith, v),
  )
