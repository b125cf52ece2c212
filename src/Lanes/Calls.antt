-- ===== src/Lanes/Calls.antt =====
-- The calls on lanes that are ready: what each answers, and what it leaves.
use mathlib.Core.Path.{subst}
use o.Prelude.{
  ℕ, ◌-◌, ◌<◌, ◌≡◌, ◌≢◌, refl, sym, Bool, true, false, ◌==◌, if◌then◌else◌, List, ◌∷◌, arith,
  Bool-cases, inl, inr, none, some,
}
use o.Links.{end, decode, first}
use o.Links.Chains.{removed-Absent}
use o.Lanes.{Lanes, join_push, join_remove, pop, take, is_queued, retire, relink_back}
use o.Lanes.Ready.{inside, idle, stood, out_facts, Schedule, IsReady, world}
use o.Lanes.Push.{queued, join_push-IsReady}
use o.Lanes.Leave.{left}
use o.Lanes.Front.{touch-IsReady, recycle-IsReady, remove_front-IsReady, join_remove-IsReady}

module _ {bound : ℕ} {self : Lanes} {s : Schedule} {xs : List ℕ} (v : IsReady bound self s xs) where
  pub first_item :
      (c : ℕ)
      → first (self.chains c) ≡ (if s.order.len c == 0 then none else some (s.order.item c 0))
  unfolding first
  first_item c = ground (arith, v.linked.head c, v.linked.proper c 0)

  pub first_lane : decode self.round ≡ (if s.count == 0 then none else some (s.ring 0))
  first_lane = ground (arith, v.round.head, v.round.proper 0)

  -- A resident of a lane is queued, by its own hook.
  pub member-is_queued : (c p : ℕ) → p < s.order.len c → is_queued self (s.order.item c p) ≡ true
  member-is_queued c p l =
      ground (arith, v.linked.previous c p, v.linked.proper c p, v.linked.apart c c p (p - 1))

  pub idle-is_queued : (i : ℕ) → (self.entries i).previous ≡ i → is_queued self i ≡ false
  idle-is_queued i e = ground (arith, e)

  pub held_front : (q : ℕ) → q < s.count → (s.order.len (s.ring q) == 0) ≡ false
  held_front q m = ground (arith, v.active q m)

  pub pop-IsReady :
      (q : ℕ)
      → q < s.count
      → IsReady bound
          (pop self (s.ring q)).1
          (stood (left false s (s.ring q) 0 q) (s.order.item (s.ring q) 0) idle)
          xs
  unfolding pop
  pop-IsReady q m =
      rw (pop, first_item (s.ring q), held_front q m)
        (touch-IsReady (s.order.item (s.ring q) 0) idle _
          (remove_front-IsReady v q m false false (λ e. absurd (ground (arith, e))) (λ e. refl))
          (removed-Absent (world self) s.order (s.ring q) 0 v.linked (v.active q m))
          (v.apart (s.ring q) 0 (v.active q m)) (λ g e. ground (arith, e)))

  pub take-IsReady :
      (rotate : Bool)
      → 0 < s.count
      → IsReady bound
          (take rotate self).1
          (stood (left rotate s (s.ring 0) 0 0) (s.order.item (s.ring 0) 0) idle)
          xs
  unfolding take
  take-IsReady rotate m =
      let some_turn : (s.count == 0) ≡ false = ground (arith, m) in
      let front : (self.chains (s.ring 0)).head ≡ s.order.item (s.ring 0) 0 =
        ground (arith, v.linked.head (s.ring 0), v.active 0 m) in
      rw (take, first_lane, some_turn, front)
        (touch-IsReady (s.order.item (s.ring 0) 0) idle _
          (remove_front-IsReady v 0 m true rotate (λ e. refl) (λ e. absurd (ground (arith, e))))
          (removed-Absent (world self) s.order (s.ring 0) 0 v.linked (v.active 0 m))
          (v.apart (s.ring 0) 0 (v.active 0 m)) (λ g e. ground (arith, e)))

  pub retire-IsReady :
      (q p : ℕ)
      → q < s.count
      → p < s.order.len (s.ring q)
      → s.order.item (s.ring q) p < bound
      → IsReady bound
          (retire self (s.ring q) (s.order.item (s.ring q) p)).1
          (stood (left false s (s.ring q) p q) (s.order.item (s.ring q) p) inside)
          (s.order.item (s.ring q) p ∷ xs)
  unfolding retire
  retire-IsReady q p m l b =
      rw (retire, member-is_queued (s.ring q) p l)
        (recycle-IsReady (s.order.item (s.ring q) p) b (join_remove-IsReady v q m p l)
          (removed-Absent (world self) s.order (s.ring q) p v.linked l) (v.apart (s.ring q) p l))

  relink_other :
      (q p target : ℕ)
      → p < s.order.len (s.ring q)
      → s.ring q ≢ target
      → relink_back self (s.ring q) (s.order.item (s.ring q) p) target
        ≡ join_push
            (join_remove self (s.ring q) (s.order.item (s.ring q) p))
            target
            (s.order.item (s.ring q) p)
  unfolding relink_back
  relink_other q p target l d =
      let other : (s.ring q == target) ≡ false = ground (arith, d) in
      rw (relink_back, member-is_queued (s.ring q) p l, other) refl

  pub relink_back-IsReady :
      (q p target : ℕ)
      → q < s.count
      → p < s.order.len (s.ring q)
      → target < end
      → s.ring q ≢ target
      → IsReady bound
          (relink_back self (s.ring q) (s.order.item (s.ring q) p) target)
          (queued (left false s (s.ring q) p q) target (s.order.item (s.ring q) p))
          xs
  relink_back-IsReady q p target m l t d =
      subst
        (λ x.
          IsReady bound x (queued (left false s (s.ring q) p q) target (s.order.item (s.ring q) p))
            xs)
        (sym (relink_other q p target l d))
        (join_push-IsReady (join_remove-IsReady v q m p l) target (s.order.item (s.ring q) p)
          (removed-Absent (world self) s.order (s.ring q) p v.linked l) (v.apart (s.ring q) p l)
          (v.linked.proper (s.ring q) p l) t)

  -- A move to the lane that a resident is in changes nothing.
  pub relink_same : (c p : ℕ) → p < s.order.len c → relink_back self c (s.order.item c p) c ≡ self
  unfolding relink_back
  relink_same c p l =
      let own : (c == c) ≡ true = ground arith in rw (relink_back, member-is_queued c p l, own) refl

  -- A resident that is held, not queued, goes to the free list or behind a lane.
  pub retire_held-IsReady :
      (c i : ℕ)
      → i < bound
      → s.standing i ≢ inside
      → IsReady bound (retire self c i).1 (stood s i inside) (i ∷ xs)
  unfolding retire
  retire_held-IsReady c i l d =
      let (a, f, e) = out_facts i (s.standing i) v refl d in
      rw (retire, idle-is_queued i e) (recycle-IsReady i l v a f)

  pub relink_held-IsReady :
      (c i target : ℕ)
      → i < end
      → target < end
      → s.standing i ≢ inside
      → IsReady bound (relink_back self c i target) (queued s target i) xs
  unfolding relink_back
  relink_held-IsReady c i target l t d =
      let (a, f, e) = out_facts i (s.standing i) v refl d in
      rw (relink_back, idle-is_queued i e) (join_push-IsReady v target i a f l t)

  pub pop_empty : (c : ℕ) → s.order.len c ≡ 0 → pop self c ≡ (none, self)
  unfolding pop
  pop_empty c e =
      let nothing : (s.order.len c == 0) ≡ true = ground (arith, e) in
      rw (pop, first_item c, nothing) refl

  pub take_empty : (rotate : Bool) → s.count ≡ 0 → take rotate self ≡ (none, self)
  unfolding take
  take_empty rotate e =
      let nothing : (s.count == 0) ≡ true = ground (arith, e) in rw (take, first_lane, nothing) refl

  -- The answers of `pop` and `take`.
  pub pop-front :
      (c : ℕ) → (pop self c).0 ≡ (if s.order.len c == 0 then none else some (s.order.item c 0))
  unfolding pop
  pop-front c = elim (Bool-cases (s.order.len c == 0)) [
    | inl e ↦ rw (pop, first_item c, e) refl
    | inr e ↦ rw (pop, first_item c, e) refl
  ]

  pub take-turn :
      (rotate : Bool)
      → (take rotate self).0 ≡ (if s.count == 0 then none else some (s.order.item (s.ring 0) 0))
  unfolding take
  take-turn rotate = elim (Bool-cases (s.count == 0)) [
    | inl e ↦ rw (take, first_lane, e) refl
    | inr e ↦ rw (take, first_lane, e) (ground (arith, e, v.linked.head (s.ring 0), v.active 0))
  ]

  -- What a retirement answers: the lane of a resident that is held.
  pub retire_member : (c d p : ℕ) → p < s.order.len c → (retire self d (s.order.item c p)).0 ≡ none
  unfolding retire
  retire_member c d p l = rw (retire, member-is_queued c p l) refl

  pub retire_held : (c i : ℕ) → s.standing i ≢ inside → (retire self c i).0 ≡ some c
  unfolding retire
  retire_held c i d =
      let (a, f, e) = out_facts i (s.standing i) v refl d in rw (retire, idle-is_queued i e) refl
