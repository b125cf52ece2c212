-- ===== src/Lanes/History.antt =====
-- What the owner of lanes and the holders of their residents can do, one call after another.
use mathlib.Core.Path.{subst}
use o.Prelude.{
  ℕ, ◌<◌, ◌≡◌, ◌≢◌, refl, sym, ap, Bool, false, ◌==◌, if◌then◌else◌, List, [], ◌∷◌, mod32, none,
  some, Result,
}
use o.Links.{end}
use o.Lanes.Parking.{
  park_front-IsReady, park_empty, park-front, claim-IsReady, claim_waiting, claim_of_idle,
  claim_member, remove_member-IsReady, remove_held-IsReady, remove_member, remove_waiting,
  remove_of_idle,
}
use o.Lanes.{
  linked, parked, empty, park_front, claim, remove, Lanes, new_lanes, try_push, pop, take, retire,
  relink_back,
}
use o.Lanes.Ready.{inside, idle, waiting, stood, Schedule, IsReady}
use o.Lanes.Push.{queued, Pushed, refused, accepted, try_push-Pushed}
use o.Lanes.Leave.{left}
use o.Lanes.Fresh.{ascending, nothing_queued, new_lanes-IsReady}
use o.Lanes.Calls.{
  pop-IsReady, take-IsReady, retire-IsReady, relink_back-IsReady, relink_same, retire_held-IsReady,
  relink_held-IsReady, pop_empty, take_empty, pop-front, take-turn, retire_member, retire_held,
}

-- A call on lanes, and on their schedule and free stack. Keys are of residents of the store: a queued
-- one at offset `p` of the lane at turn `q`, or a held one, idle or parked. A pop or `take` leaves its
-- resident idle, a parking leaves it parked, and what is removed or claimed is free.
pub data Step (bound : ℕ) (self : Lanes) (s : Schedule)
    : List ℕ → Lanes → Schedule → List ℕ → Type 0 where
  push :
      (c x : ℕ) (xs : List ℕ)
      → c < end
      → Step bound self s (x ∷ xs) (try_push self c).1 (queued s c x) xs
  refuse : (c : ℕ) → c < end → Step bound self s [] (try_push self c).1 s []
  leave :
      (q : ℕ) (xs : List ℕ)
      → q < s.count
      → Step bound self s xs
          (pop self (s.ring q)).1
          (stood (left false s (s.ring q) 0 q) (s.order.item (s.ring q) 0) idle)
          xs
  miss : (c : ℕ) (xs : List ℕ) → s.order.len c ≡ 0 → Step bound self s xs (pop self c).1 s xs
  serve :
      (rotate : Bool) (xs : List ℕ)
      → 0 < s.count
      → Step bound self s xs
          (take rotate self).1
          (stood (left rotate s (s.ring 0) 0 0) (s.order.item (s.ring 0) 0) idle)
          xs
  rest :
      (rotate : Bool) (xs : List ℕ) → s.count ≡ 0 → Step bound self s xs (take rotate self).1 s xs
  cancel :
      (q p : ℕ) (xs : List ℕ)
      → q < s.count
      → p < s.order.len (s.ring q)
      → s.order.item (s.ring q) p < bound
      → Step bound self s xs
          (retire self (s.ring q) (s.order.item (s.ring q) p)).1
          (stood (left false s (s.ring q) p q) (s.order.item (s.ring q) p) inside)
          (s.order.item (s.ring q) p ∷ xs)
  discard :
      (c i : ℕ) (xs : List ℕ)
      → i < bound
      → s.standing i ≢ inside
      → Step bound self s xs (retire self c i).1 (stood s i inside) (i ∷ xs)
  move :
      (q p target : ℕ) (xs : List ℕ)
      → q < s.count
      → p < s.order.len (s.ring q)
      → target < end
      → s.ring q ≢ target
      → Step bound self s xs
          (relink_back self (s.ring q) (s.order.item (s.ring q) p) target)
          (queued (left false s (s.ring q) p q) target (s.order.item (s.ring q) p))
          xs
  stay :
      (c p : ℕ) (xs : List ℕ)
      → p < s.order.len c
      → Step bound self s xs (relink_back self c (s.order.item c p) c) s xs
  requeue :
      (c i target : ℕ) (xs : List ℕ)
      → i < end
      → target < end
      → s.standing i ≢ inside
      → Step bound self s xs (relink_back self c i target) (queued s target i) xs
  suspend :
      (q : ℕ) (xs : List ℕ)
      → q < s.count
      → Step bound self s xs
          (park_front self (s.ring q)).1
          (stood (left false s (s.ring q) 0 q) (s.order.item (s.ring q) 0) waiting)
          xs
  park_miss :
      (c : ℕ) (xs : List ℕ) → s.order.len c ≡ 0 → Step bound self s xs (park_front self c).1 s xs
  reclaim :
      (i : ℕ) (xs : List ℕ)
      → i < bound
      → s.standing i ≡ waiting
      → Step bound self s xs (claim self i).1 (stood s i inside) (i ∷ xs)
  unclaimed :
      (i : ℕ) (xs : List ℕ)
      → i < end
      → s.standing i ≡ idle
      → Step bound self s xs (claim self i).1 s xs
  unclaimed_member :
      (c p : ℕ) (xs : List ℕ)
      → p < s.order.len c
      → Step bound self s xs (claim self (s.order.item c p)).1 s xs
  drop_linked :
      (q p : ℕ) (xs : List ℕ)
      → q < s.count
      → p < s.order.len (s.ring q)
      → s.order.item (s.ring q) p < bound
      → Step bound self s xs
          (remove self (s.ring q) (s.order.item (s.ring q) p)).1
          (stood (left false s (s.ring q) p q) (s.order.item (s.ring q) p) inside)
          (s.order.item (s.ring q) p ∷ xs)
  drop_held :
      (c i : ℕ) (xs : List ℕ)
      → i < bound
      → s.standing i ≢ inside
      → Step bound self s xs (remove self c i).1 (stood s i inside) (i ∷ xs)

pub data Steps (bound : ℕ) (self : Lanes) (s : Schedule) (xs : List ℕ)
    : Lanes → Schedule → List ℕ → Type 0 where
  here : Steps bound self s xs self s xs
  after :
      {now : Lanes} {t : Schedule} {ys : List ℕ} {later : Lanes} {u : Schedule} {zs : List ℕ}
      → Steps bound self s xs now t ys
      → Step bound now t ys later u zs
      → Steps bound self s xs later u zs

accepted-IsReady :
    {bound : ℕ} {self : Lanes} {s : Schedule} {c x : ℕ} {xs : List ℕ}
    {r : Result (Unit {0}) ℕ × Lanes}
    → Pushed bound self s c (x ∷ xs) r
    → IsReady bound r.1 (queued s c x) xs
accepted-IsReady (accepted x xs self v) = v

refused-same :
    {bound : ℕ} {self : Lanes} {s : Schedule} {c : ℕ} {r : Result (Unit {0}) ℕ × Lanes}
    → Pushed bound self s c [] r
    → r.1 ≡ self
refused-same refused = refl

module _ {bound : ℕ} (b : bound < mod32) where
  Step-IsReady :
      {self : Lanes} {s : Schedule} {xs : List ℕ} {now : Lanes} {t : Schedule} {ys : List ℕ}
      → Step bound self s xs now t ys
      → IsReady bound self s xs
      → IsReady bound now t ys
  Step-IsReady {self} {s} (push c x xs m) v =
      accepted-IsReady (try_push-Pushed bound self s (x ∷ xs) c b m v)
  Step-IsReady {self} {s} (refuse c m) v =
      subst (λ x. IsReady bound x s [])
        (sym (refused-same (try_push-Pushed bound self s [] c b m v))) v
  Step-IsReady (leave q xs m) v = pop-IsReady v q m
  Step-IsReady {self} {s} (miss c xs e) v =
      subst (λ x. IsReady bound x.1 s xs) (sym (pop_empty v c e)) v
  Step-IsReady (serve rotate xs m) v = take-IsReady v rotate m
  Step-IsReady {self} {s} (rest rotate xs e) v =
      subst (λ x. IsReady bound x.1 s xs) (sym (take_empty v rotate e)) v
  Step-IsReady (cancel q p xs m l k) v = retire-IsReady v q p m l k
  Step-IsReady (discard c i xs l d) v = retire_held-IsReady v c i l d
  Step-IsReady (move q p target xs m l t d) v = relink_back-IsReady v q p target m l t d
  Step-IsReady {self} {s} (stay c p xs l) v =
      subst (λ x. IsReady bound x s xs) (sym (relink_same v c p l)) v
  Step-IsReady (requeue c i target xs l t d) v = relink_held-IsReady v c i target l t d
  Step-IsReady (suspend q xs m) v = park_front-IsReady v q m
  Step-IsReady {self} {s} (park_miss c xs e) v =
      subst (λ x. IsReady bound x.1 s xs) (sym (park_empty v c e)) v
  Step-IsReady (reclaim i xs l e) v = claim-IsReady v i l e
  Step-IsReady {self} {s} (unclaimed i xs l e) v =
      subst (λ x. IsReady bound x.1 s xs) (sym (claim_of_idle v i e l)) v
  Step-IsReady {self} {s} (unclaimed_member c p xs l) v =
      subst (λ x. IsReady bound x.1 s xs) (sym (claim_member v c p l)) v
  Step-IsReady (drop_linked q p xs m l k) v = remove_member-IsReady v q p m l k
  Step-IsReady (drop_held c i xs l d) v = remove_held-IsReady v c i l d

  Steps-IsReady :
      {self : Lanes} {s : Schedule} {xs : List ℕ} {now : Lanes} {t : Schedule} {ys : List ℕ}
      → Steps bound self s xs now t ys
      → IsReady bound self s xs
      → IsReady bound now t ys
  Steps-IsReady here v = v
  Steps-IsReady (after r s) v = Step-IsReady s (Steps-IsReady r v)

-- What lanes over a schedule answer, call by call. A member is at offset `p` of lane `c`, and a call
-- by its key may name any lane `d`.
pub record Answers (bound : ℕ) (self : Lanes) (s : Schedule) (xs : List ℕ) : Type 0 where
  pub push : (c : ℕ) → c < end → Pushed bound self s c xs (try_push self c)
  pub pop :
      (c : ℕ) → (pop self c).0 ≡ (if s.order.len c == 0 then none else some (s.order.item c 0))
  pub take :
      (rotate : Bool)
      → (take rotate self).0 ≡ (if s.count == 0 then none else some (s.order.item (s.ring 0) 0))
  pub park :
      (c : ℕ)
      → (park_front self c).0 ≡ (if s.order.len c == 0 then none else some (s.order.item c 0))
  pub claim_parked : (i : ℕ) → s.standing i ≡ waiting → (claim self i).0 ≡ some i
  pub claim_idle : (i : ℕ) → s.standing i ≡ idle → i < end → (claim self i).0 ≡ none
  pub claim_member : (c p : ℕ) → p < s.order.len c → (claim self (s.order.item c p)).0 ≡ none
  pub remove_parked : (c i : ℕ) → s.standing i ≡ waiting → (remove self c i).0 ≡ parked i
  pub remove_idle : (c i : ℕ) → s.standing i ≡ idle → i < end → (remove self c i).0 ≡ empty
  pub remove_member :
      (c d p : ℕ) → p < s.order.len c → (remove self d (s.order.item c p)).0 ≡ linked
  pub retire_held : (c i : ℕ) → s.standing i ≢ inside → (retire self c i).0 ≡ some c
  pub retire_member : (c d p : ℕ) → p < s.order.len c → (retire self d (s.order.item c p)).0 ≡ none

-- Lanes made by `try_new` for fewer than 2 ^ 32 residents serve FIFOs in turns. After any sequence of
-- pushes, pops, `take`s with and without rotation, parkings, claims, removals and moves, also to the
-- lane that a resident is in, by keys of residents that are queued or held, the links and hooks are
-- those of the schedule that the same calls make of empty FIFOs and a full free stack: each chain is
-- its FIFO, the ring is the turns of exactly the lanes that are not empty, the free list is the free
-- stack, and a resident that was popped or taken has an idle hook and one that was parked a parked
-- one until it is freed or queued again. `try_push` takes the top of the free stack, or is refused
-- where that is empty; `pop` and `park` answer the front of their lane and `take` the front of the
-- lane with the first turn, or nothing exactly where there is none; `claim` answers a parked resident
-- and nothing for an idle or queued one; and the two removals tell queued residents from held ones,
-- that of parking lanes also parked ones from idle ones.
pub run-new_lanes :
    (capacity : ℕ) (now : Lanes) (t : Schedule) (ys : List ℕ)
    → capacity < mod32
    → Steps capacity (new_lanes capacity) nothing_queued (ascending 0 capacity) now t ys
    → IsReady capacity now t ys × Answers capacity now t ys
run-new_lanes capacity now t ys l r =
    let v = Steps-IsReady l r (new_lanes-IsReady capacity) in
    (
      v,
      record {
        push = λ c m. try_push-Pushed capacity now t ys c l m v;
        pop = pop-front v;
        take = take-turn v;
        park = park-front v;
        claim_parked = claim_waiting v;
        claim_idle = λ i e m. ap (λ x. x.0) (claim_of_idle v i e m);
        claim_member = λ c p m. ap (λ x. x.0) (claim_member v c p m);
        remove_parked = remove_waiting v;
        remove_idle = remove_of_idle v;
        remove_member = remove_member v;
        retire_held = retire_held v;
        retire_member = retire_member v;
      },
    )
