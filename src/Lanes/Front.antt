-- ===== src/Lanes/Front.antt =====
-- `Join::remove_front` and `Join::remove`, and the hook of the resident that left.
use mathlib.Core.Path.{subst}
use o.Prelude.{
  ap, ◌∙◌, Option, ℕ, ◌+◌, ◌-◌, ◌<◌, ◌≡◌, refl, sym, Bool, true, false, ◌==◌, if◌then◌else◌, none,
  some, List, ◌∷◌, arith, Bool-cases, inl, inr,
}
use o.Links.{Hook, update, decode, is_empty, unlink, chain_pop, recycle}
use o.Links.Order.{IsLinked, Absent, removed}
use o.Links.Moves.{unlink-IsLinked, chain_pop-IsLinked}
use o.Links.Chains.{len-bound}
use o.Links.Circle.{IsCycle, skipping, unlink_key, cycle_pop, cycle_move_back, unlink_key-IsCycle}
use o.Links.Circle.Turns.{put_last, from_equal, cycle_pop-head, move_back-IsCycle}
use o.Links.Free.{Lacks, IsFree-update, recycle-IsFree}
use o.Lanes.{Lanes, remove_front, join_remove}
use o.Lanes.Frame.{agree-IsFree, agree-IsLinked, chain_pop_frame, unlink_frame}
use o.Lanes.Ready.{Standing, inside, standing_hook, stood, Schedule, IsReady, world, free-Absent}
use o.Lanes.Leave.{left, left-IsReady}

pub not_both : {h : Hook} → ◌≡◌ {A = Option Hook} none (some h) → ⊥
not_both e = ground (arith, e)

-- A resident that is neither queued nor free is held with the hook that it is given.
pub touch-IsReady :
    {bound : ℕ} {self : Lanes} {s : Schedule} {xs : List ℕ} (i : ℕ) (x : Standing) (h : Hook)
    → IsReady bound self s xs
    → Absent s.order i
    → Lacks xs i
    → ((g : Hook) → standing_hook x i ≡ some g → h ≡ g)
    → IsReady bound (record self { entries = update self.entries i h }) (stood s i x) xs
touch-IsReady {bound} {self} {s} {xs} i x h v a f t = record {
  linked =
      agree-IsLinked (world self) s.order (update self.entries i h) v.linked
        (λ c k l. ground (arith, a c k l));
  round = v.round;
  active = v.active;
  turn = v.turn;
  free = IsFree-update bound self.free self.entries i h xs f v.free;
  apart = v.apart;
  out = λ j g e. elim (Bool-cases (i == j)) [
    | inl b ↦
        let here : i ≡ j = ground (arith, b) in
        let own : standing_hook x i ≡ some g = ap (standing_hook x) here ∙ rw b at e in
        (subst (Absent s.order) here a, subst (Lacks xs) here f, rw b (t g own))
    | inr b ↦ let (p, q, r) = v.out j g (rw b at e) in (p, q, rw b r)
  ];
}

-- Standings that agree are the same.
restand :
    {bound : ℕ} {self : Lanes} {s : Schedule} {xs : List ℕ} (t : ℕ → Standing)
    → ((j : ℕ) → t j ≡ s.standing j)
    → IsReady bound self s xs
    → IsReady bound self (record s { standing = t }) xs
restand t f v = record {
  linked = v.linked;
  round = v.round;
  active = v.active;
  turn = v.turn;
  free = v.free;
  apart = v.apart;
  out = λ j g e. v.out j g (ap (λ x. standing_hook x j) (sym (f j)) ∙ e);
}

pub recycle-IsReady :
    {bound : ℕ} {self : Lanes} {s : Schedule} {xs : List ℕ} (i : ℕ)
    → i < bound
    → IsReady bound self s xs
    → Absent s.order i
    → Lacks xs i
    → let (free, entries) = recycle self.free self.entries i in
      IsReady bound (record self { free = free; entries = entries }) (stood s i inside) (i ∷ xs)
unfolding recycle
recycle-IsReady {bound} {self} {s} {xs} i l v a f =
    let t =
      touch-IsReady i inside (record { previous = i; next = self.free }) v a f
        (λ g e. absurd (not_both e)) in
    record {
      linked = t.linked;
      round = v.round;
      active = v.active;
      turn = v.turn;
      free = recycle-IsFree bound self.free self.entries i xs l f v.free;
      apart = λ c k p. (λ e. a c k p (sym e), v.apart c k p);
      out = λ j g e. elim (Bool-cases (i == j)) [
        | inl b ↦ absurd (not_both (rw b at e))
        | inr b ↦ let (p, q, r) = t.out j g e in (p, (ground (arith, b), q), r)
      ];
    }

-- A resident that is parked, or was touched otherwise, is free once it is recycled.
pub reclaim-IsReady :
    {bound : ℕ} {self : Lanes} {s : Schedule} {xs : List ℕ} (i : ℕ) (h : Hook)
    → i < bound
    → IsReady bound self s xs
    → Absent s.order i
    → Lacks xs i
    → let (free, entries) = recycle self.free (update self.entries i h) i in
      IsReady bound (record self { free = free; entries = entries }) (stood s i inside) (i ∷ xs)
reclaim-IsReady {s = s} i h l v a f =
    restand (update s.standing i inside) (λ j. ground arith)
      (recycle-IsReady i l (touch-IsReady i inside h v a f (λ g e. absurd (not_both e))) a f)

module _ {bound : ℕ} {self : Lanes} {s : Schedule} {xs : List ℕ} (v : IsReady bound self s xs)
    (q : ℕ) (m : q < s.count) where
  last_next :
      elim (decode (self.entries (s.order.item (s.ring q) 0)).next) as (λ x. Bool) [
        | none ↦ true
        | some n ↦ false
      ]
      ≡ (s.order.len (s.ring q) == 1)
  last_next = ground (arith, v.active q m, v.linked.next (s.ring q) 0, v.linked.proper (s.ring q) 1)

  front_round :
      (active rotate : Bool)
      → (active ≡ true → q ≡ 0)
      → (active ≡ false → rotate ≡ false)
      → let after = remove_front active rotate self (s.ring q) (s.order.item (s.ring q) 0) in
        let t = left rotate s (s.ring q) 0 q in IsCycle after.round after.lanes t.count t.ring
  unfolding remove_front
  front_round active rotate f g = elim (Bool-cases (s.order.len (s.ring q) == 1)) [
    | inl e ↦ rw (remove_front, last_next, e) (gone active f)
    | inr e ↦ rw (remove_front, last_next, e) (stays active rotate f g)
  ]
    where
      gone :
          (active : Bool)
          → (active ≡ true → q ≡ 0)
          → let x =
              if active
              then cycle_pop self.round self.lanes (s.ring q)
              else unlink_key self.round self.lanes (s.ring q) in
            IsCycle x.0 x.1 (s.count - 1) (skipping q s.ring)
      gone false f = unlink_key-IsCycle v.round q m
      gone true f = rw (f refl) (
          from_equal (cycle_pop-head v.round (omega (arith, m)))
            (unlink_key-IsCycle v.round 0 (omega (arith, m))))

      stays :
          (active rotate : Bool)
          → (active ≡ true → q ≡ 0)
          → (active ≡ false → rotate ≡ false)
          → let x =
              if rotate
              then cycle_move_back active self.round self.lanes
                  (s.ring q)
                  (if active then s.ring q else self.round)
              else (self.round, self.lanes) in
            IsCycle x.0 x.1 s.count (if rotate then put_last s.count q s.ring else s.ring)
      stays active false f g = v.round
      stays false true f g = absurd (ground (arith, g refl))
      stays true true f g =
          rw (f refl) (move_back-IsCycle v.round true 0 (omega (arith, m)) (inr refl))

  remove_front-IsLinked :
      (active rotate : Bool)
      → IsLinked
          (world (remove_front active rotate self (s.ring q) (s.order.item (s.ring q) 0)))
          (removed s.order (s.ring q) 0)
  unfolding remove_front chain_pop
  remove_front-IsLinked active rotate =
      chain_pop-IsLinked (world self) s.order (s.ring q) v.linked (v.active q m)
        (omega (arith, len-bound (world self) s.order (s.ring q) v.linked))

  -- A lane gives its front up, with its turn where that was the last one.
  pub remove_front-IsReady :
      (active rotate : Bool)
      → (active ≡ true → q ≡ 0)
      → (active ≡ false → rotate ≡ false)
      → let after = remove_front active rotate self (s.ring q) (s.order.item (s.ring q) 0) in
        IsReady bound after (left rotate s (s.ring q) 0 q) xs
  unfolding remove_front
  remove_front-IsReady active rotate f g =
      left-IsReady v rotate (s.ring q) 0 q (v.active q m) m refl _
        (remove_front-IsLinked active rotate) (front_round active rotate f g)
        (agree-IsFree bound self.free self.entries _ xs
          (λ j p.
            chain_pop_frame (world self) s.order v.linked (s.ring q) j
              (free-Absent s.order xs v.apart j p) (v.active q m))
          v.free)
        (λ j a. chain_pop_frame (world self) s.order v.linked (s.ring q) j a (v.active q m))

  module _ (p : ℕ) (l : p < s.order.len (s.ring q)) where
    join_remove-IsLinked :
        IsLinked
          (world (join_remove self (s.ring q) (s.order.item (s.ring q) p)))
          (removed s.order (s.ring q) p)
    unfolding join_remove
    join_remove-IsLinked =
        unlink-IsLinked (world self) s.order (s.ring q) p v.linked l
          (omega (arith, len-bound (world self) s.order (s.ring q) v.linked))

    part_empty :
        is_empty (unlink (self.chains (s.ring q)) self.entries (s.order.item (s.ring q) p)).0
        ≡ (s.order.len (s.ring q) == 1)
    unfolding unlink is_empty
    part_empty = ground (
      arith,
      l,
      v.linked.head (s.ring q),
      v.linked.previous (s.ring q) p,
      v.linked.next (s.ring q) p,
      v.linked.proper (s.ring q) 0,
      v.linked.proper (s.ring q) (p - 1),
      v.linked.proper (s.ring q) (p + 1),
    )

    part_round :
        let after = join_remove self (s.ring q) (s.order.item (s.ring q) p) in
        let t = left false s (s.ring q) p q in IsCycle after.round after.lanes t.count t.ring
    unfolding join_remove
    part_round = elim (Bool-cases (s.order.len (s.ring q) == 1)) [
      | inl e ↦ rw (join_remove, part_empty, e) (unlink_key-IsCycle v.round q m)
      | inr e ↦ rw (join_remove, part_empty, e) v.round
    ]

    -- A lane gives a resident up, with its turn where that was the last one.
    pub join_remove-IsReady :
        let after = join_remove self (s.ring q) (s.order.item (s.ring q) p) in
        IsReady bound after (left false s (s.ring q) p q) xs
    unfolding join_remove
    join_remove-IsReady =
        left-IsReady v false (s.ring q) p q l m refl _ join_remove-IsLinked part_round
          (agree-IsFree bound self.free self.entries _ xs
            (λ j n.
              unlink_frame (world self) s.order v.linked (s.ring q) j
                (free-Absent s.order xs v.apart j n) p l)
            v.free)
          (λ j a. unlink_frame (world self) s.order v.linked (s.ring q) j a p l)
