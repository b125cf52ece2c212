-- ===== src/Lanes/Leave.antt =====
-- A resident that leaves its lane, and what becomes of the turns.
use o.Prelude.{
  ℕ, ◌+◌, ◌-◌, ◌<◌, ◌≡◌, ◌≢◌, sym, ◌∙◌, Bool, ◌==◌, ◌||◌, ltb, if◌then◌else◌, List, arith,
  Bool-cases, inl, inr,
}
use o.Links.Order.{IsLinked, Absent, removed}
use o.Links.Circle.{IsCycle, skipping}
use o.Links.Circle.Turns.{put_last}
use o.Links.Free.{IsFree, Lacks}
use o.Lanes.{Lanes}
use o.Lanes.Ready.{Schedule, IsReady, world}

-- The schedule without a resident of the lane at a turn: an empty lane leaves the ring, and another one
-- gets the last turn, if it is to.
abbrev pub left : (rotate : Bool) → Schedule → (c p q : ℕ) → Schedule
left rotate s c p q = record {
  order = removed s.order c p;
  count = if s.order.len c == 1 then s.count - 1 else s.count;
  ring =
      if s.order.len c == 1
      then skipping q s.ring
      else if rotate
      then put_last s.count q s.ring
      else s.ring;
  standing = s.standing;
}

module _ {bound : ℕ} {self : Lanes} {s : Schedule} {xs : List ℕ} (v : IsReady bound self s xs)
    (rotate : Bool) (c p q : ℕ) (l : p < s.order.len c) (m : q < s.count) (e : s.ring q ≡ c) where
  removed-Lacks :
      (d k : ℕ) → k < (removed s.order c p).len d → Lacks xs ((removed s.order c p).item d k)
  removed-Lacks d k n = elim (Bool-cases (c == d)) [
    | inr x ↦ rw x (v.apart d k (ground (arith, x, n)))
    | inl x ↦ elim (Bool-cases (ltb k p)) [
      | inl y ↦ rw (x, y) (v.apart c k (ground (arith, y, l)))
      | inr y ↦ rw (x, y) (v.apart c (k + 1) (ground (arith, x, y, n)))
    ]
  ]

  -- A lane other than this one has its turn at another place.
  other_turn : (k : ℕ) → k < s.count → k ≢ q → s.ring k ≢ c
  other_turn k n d f = d (v.round.apart k q n m (f ∙ sym e))

  left_active :
      (k : ℕ)
      → k < (left rotate s c p q).count
      → 0 < (left rotate s c p q).order.len ((left rotate s c p q).ring k)
  left_active k n =
      ground
        (arith, n, v.active k, v.active (k + 1), v.active q, e, other_turn k, other_turn (k + 1))

  left_turn :
      (d : ℕ)
      → 0 < (left rotate s c p q).order.len d
      → (k : ℕ) × (k < (left rotate s c p q).count) × ((left rotate s c p q).ring k ≡ d)
  left_turn d n =
      let (k, a, b) = v.turn d (ground (arith, n)) in
      let off : (s.order.len c ≡ 1) → k ≢ q = λ x y. ground (arith, n, x, y, b, e) in
      elim (Bool-cases ((s.order.len c == 1) || rotate)) [
        | inr x ↦ (k, ground (arith, x, a), ground (arith, x, b))
        | inl x ↦ elim (Bool-cases (ltb k q)) [
          | inl y ↦ (k, ground (arith, m, y, a), ground (arith, x, y, m, b))
          | inr y ↦ elim (Bool-cases (k == q)) [
            | inl z ↦ (s.count - 1, ground (arith, x, z, m, off), ground (arith, x, z, m, off, b))
            | inr z ↦ (k - 1, ground (arith, x, y, z, a), ground (arith, x, y, z, a, b))
          ]
        ]
      ]

  removed-away : (j : ℕ) → Absent s.order j → Absent (removed s.order c p) j
  removed-away j a d k n = ground (arith, n, a d k, a c k, a c (k + 1))

  pub left-IsReady :
      (after : Lanes)
      → IsLinked (world after) (removed s.order c p)
      → IsCycle after.round after.lanes (left rotate s c p q).count (left rotate s c p q).ring
      → IsFree bound after.free after.entries xs
      → ((j : ℕ) → Absent s.order j → after.entries j ≡ self.entries j)
      → IsReady bound after (left rotate s c p q) xs
  left-IsReady after x y z w = record {
    linked = x;
    round = y;
    active = left_active;
    turn = left_turn;
    free = z;
    apart = removed-Lacks;
    out = λ j h e. let (a, b, f) = v.out j h e in (removed-away j a, b, w j a ∙ f);
  }
