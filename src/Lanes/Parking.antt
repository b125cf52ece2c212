-- ===== src/Lanes/Parking.antt =====
-- Residents that leave their lane to await a claim.
use o.Prelude.{
  ◌≢◌, ℕ, ◌<◌, ◌≡◌, refl, Bool, true, false, ◌==◌, ◌&&◌, if◌then◌else◌, List, ◌∷◌, arith,
  Bool-cases, inl, inr, none, some,
}
use o.Links.{Hook, set_next, end, park, try_unpark}
use o.Links.Chains.{removed-Absent}
use o.Lanes.{Lanes, park_front, claim, linked, parked, empty, remove}
use o.Lanes.Ready.{inside, idle, waiting, stood, out_facts, Schedule, IsReady, world}
use o.Lanes.Leave.{left}
use o.Lanes.Front.{
  reclaim-IsReady, touch-IsReady, recycle-IsReady, remove_front-IsReady, join_remove-IsReady,
}
use o.Lanes.Calls.{first_item, held_front, member-is_queued, idle-is_queued}

-- The test of `View::is_parked`
abbrev pub is_parked : Lanes → ℕ → Bool
is_parked self i = ((self.entries i).previous == i) && ((self.entries i).next == i)

try_unpark-parked :
    (self : Lanes) (i : ℕ)
    → try_unpark self.entries i
      ≡ (if is_parked self i then some (set_next self.entries i end) else none)
unfolding try_unpark
try_unpark-parked self i = refl

waiting_inside : waiting ≢ inside
waiting_inside e = ground (arith, e)

idle_inside : idle ≢ inside
idle_inside e = ground (arith, e)

idle_hook :
    (i : ℕ) (h : Hook)
    → h ≡ record { previous = i; next = end }
    → i < end
    → (h.previous == i) && (h.next == i) ≡ false
idle_hook i h e l = ground (arith, e, l)

waiting_hook :
    (i : ℕ) (h : Hook)
    → h ≡ record { previous = i; next = i }
    → (h.previous == i) && (h.next == i) ≡ true
waiting_hook i h e = ground (arith, e)

module _ {bound : ℕ} {self : Lanes} {s : Schedule} {xs : List ℕ} (v : IsReady bound self s xs) where
  -- The hooks of held residents tell which are parked, and no member of a FIFO is.
  pub idle-is_parked : (i : ℕ) → s.standing i ≡ idle → i < end → is_parked self i ≡ false
  idle-is_parked i e l =
      let (a, b, c) = v.out i (record { previous = i; next = end }) (rw e refl) in
      idle_hook i (self.entries i) c l

  pub waiting-is_parked : (i : ℕ) → s.standing i ≡ waiting → is_parked self i ≡ true
  waiting-is_parked i e =
      let (a, b, c) = v.out i (record { previous = i; next = i }) (rw e refl) in
      waiting_hook i (self.entries i) c

  pub member-is_parked : (c p : ℕ) → p < s.order.len c → is_parked self (s.order.item c p) ≡ false
  member-is_parked c p l = ground (arith, member-is_queued v c p l)

  pub park_front-IsReady :
      (q : ℕ)
      → q < s.count
      → IsReady bound
          (park_front self (s.ring q)).1
          (stood (left false s (s.ring q) 0 q) (s.order.item (s.ring q) 0) waiting)
          xs
  unfolding park_front park
  park_front-IsReady q m =
      rw (park_front, first_item v (s.ring q), held_front v q m)
        (touch-IsReady (s.order.item (s.ring q) 0) waiting _
          (remove_front-IsReady v q m false false (λ e. absurd (ground (arith, e))) (λ e. refl))
          (removed-Absent (world self) s.order (s.ring q) 0 v.linked (v.active q m))
          (v.apart (s.ring q) 0 (v.active q m)) (λ g e. ground (arith, e)))

  pub park_empty : (c : ℕ) → s.order.len c ≡ 0 → park_front self c ≡ (none, self)
  unfolding park_front
  park_empty c e =
      let nothing : (s.order.len c == 0) ≡ true = ground (arith, e) in
      rw (park_front, first_item v c, nothing) refl

  pub park-front :
      (c : ℕ)
      → (park_front self c).0 ≡ (if s.order.len c == 0 then none else some (s.order.item c 0))
  unfolding park_front
  park-front c = elim (Bool-cases (s.order.len c == 0)) [
    | inl e ↦ rw (park_front, first_item v c, e) refl
    | inr e ↦ rw (park_front, first_item v c, e) refl
  ]

  -- A parked resident that is claimed is free, and `claim` is nothing for one that is not parked.
  pub claim-IsReady :
      (i : ℕ)
      → i < bound
      → s.standing i ≡ waiting
      → IsReady bound (claim self i).1 (stood s i inside) (i ∷ xs)
  unfolding claim
  claim-IsReady i l e =
      let (a, f, h) = out_facts i waiting v e waiting_inside in
      rw (claim, try_unpark-parked self i, waiting-is_parked i e) (reclaim-IsReady i _ l v a f)

  pub claim_waiting : (i : ℕ) → s.standing i ≡ waiting → (claim self i).0 ≡ some i
  unfolding claim
  claim_waiting i e = rw (claim, try_unpark-parked self i, waiting-is_parked i e) refl

  claim-none : (i : ℕ) → is_parked self i ≡ false → claim self i ≡ (none, self)
  unfolding claim
  claim-none i e = rw (claim, try_unpark-parked self i, e) refl

  pub claim_of_idle : (i : ℕ) → s.standing i ≡ idle → i < end → claim self i ≡ (none, self)
  claim_of_idle i e l = claim-none i (idle-is_parked i e l)

  pub claim_member : (c p : ℕ) → p < s.order.len c → claim self (s.order.item c p) ≡ (none, self)
  claim_member c p l = claim-none (s.order.item c p) (member-is_parked c p l)

  pub remove_member-IsReady :
      (q p : ℕ)
      → q < s.count
      → p < s.order.len (s.ring q)
      → s.order.item (s.ring q) p < bound
      → IsReady bound
          (remove self (s.ring q) (s.order.item (s.ring q) p)).1
          (stood (left false s (s.ring q) p q) (s.order.item (s.ring q) p) inside)
          (s.order.item (s.ring q) p ∷ xs)
  unfolding remove
  remove_member-IsReady q p m l b =
      rw (remove, member-is_queued v (s.ring q) p l)
        (recycle-IsReady (s.order.item (s.ring q) p) b (join_remove-IsReady v q m p l)
          (removed-Absent (world self) s.order (s.ring q) p v.linked l) (v.apart (s.ring q) p l))

  pub remove_held-IsReady :
      (c i : ℕ)
      → i < bound
      → s.standing i ≢ inside
      → IsReady bound (remove self c i).1 (stood s i inside) (i ∷ xs)
  unfolding remove
  remove_held-IsReady c i l d =
      let (a, f, e) = out_facts i (s.standing i) v refl d in
      elim (Bool-cases (is_parked self i)) [
        | inl b ↦
            rw (remove, idle-is_queued v i e, try_unpark-parked self i, b)
              (reclaim-IsReady i _ l v a f)
        | inr b ↦
            rw (remove, idle-is_queued v i e, try_unpark-parked self i, b)
              (recycle-IsReady i l v a f)
      ]

  -- What a removal from a parking lane answers.
  pub remove_member :
      (c d p : ℕ) → p < s.order.len c → (remove self d (s.order.item c p)).0 ≡ linked
  unfolding remove
  remove_member c d p l = rw (remove, member-is_queued v c p l) refl

  pub remove_waiting : (c i : ℕ) → s.standing i ≡ waiting → (remove self c i).0 ≡ parked i
  unfolding remove
  remove_waiting c i e =
      let (a, f, h) = out_facts i waiting v e waiting_inside in
      rw (remove, idle-is_queued v i h, try_unpark-parked self i, waiting-is_parked i e) refl

  pub remove_of_idle : (c i : ℕ) → s.standing i ≡ idle → i < end → (remove self c i).0 ≡ empty
  unfolding remove
  remove_of_idle c i e l =
      let (a, f, h) = out_facts i idle v e idle_inside in
      rw (remove, idle-is_queued v i h, try_unpark-parked self i, idle-is_parked i e l) refl
