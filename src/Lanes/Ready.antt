-- ===== src/Lanes/Ready.antt =====
-- What the lanes of a store stand for: the FIFO of each, the turns of those that have a resident, and
-- the free residents.
use mathlib.Core.Path.{subst}
use o.Prelude.{Option, none, some, ◌≢◌, refl, ℕ, ◌<◌, ◌≡◌, ◌==◌, List, arith}
use o.Links.{Hook, end, update, is_empty}
use o.Links.Order.{World, Order, IsLinked, Absent}
use o.Links.Circle.{IsCycle}
use o.Links.Free.{IsFree, Lacks}
use o.Lanes.{Lanes}

-- Where a resident is: queued or free, or held by the owner of its key, idle or parked.
pub data Standing : Type 0 where
  inside idle waiting : Standing

-- The hook that a resident has which is held.
abbrev pub standing_hook : Standing → ℕ → Option Hook
standing_hook inside i = none
standing_hook idle i = some (record { previous = i; next = end })
standing_hook waiting i = some (record { previous = i; next = i })

pub record Schedule : Type 0 where
  pub order : Order
  pub count : ℕ
  pub ring : ℕ → ℕ
  pub standing : ℕ → Standing

abbrev pub stood : Schedule → ℕ → Standing → Schedule
stood s i x = record s { standing = update s.standing i x }

abbrev pub world : Lanes → World
world self = record { chains = self.chains; hooks = self.entries }

-- Each lane is its FIFO, the ring is the turns of the lanes that are not empty, and the free list is a
-- stack of residents that are in no FIFO. A resident that is held is in neither, and its hook says how.
pub record IsReady (bound : ℕ) (self : Lanes) (s : Schedule) (xs : List ℕ) : Type 0 where
  pub linked : IsLinked (world self) s.order
  pub round : IsCycle self.round self.lanes s.count s.ring
  pub active : (k : ℕ) → k < s.count → 0 < s.order.len (s.ring k)
  pub turn : (c : ℕ) → 0 < s.order.len c → (k : ℕ) × (k < s.count) × (s.ring k ≡ c)
  pub free : IsFree bound self.free self.entries xs
  pub apart : (c k : ℕ) → k < s.order.len c → Lacks xs (s.order.item c k)
  pub out :
      (j : ℕ) (h : Hook)
      → standing_hook (s.standing j) j ≡ some h
      → Absent s.order j × Lacks xs j × (self.entries j ≡ h)

-- A free resident is in no FIFO.
pub free-Absent :
    (o : Order) (xs : List ℕ)
    → ((c k : ℕ) → k < o.len c → Lacks xs (o.item c k))
    → (j : ℕ) → (Lacks xs j → ⊥)
    → Absent o j
free-Absent o xs a j f c k l e = f (subst (Lacks xs) e (a c k l))

pub empty-len :
    (self : Lanes) (o : Order) (c : ℕ)
    → IsLinked (world self) o
    → is_empty (self.chains c) ≡ (o.len c == 0)
unfolding is_empty
empty-len self o c v = ground (arith, v.head c, v.proper c 0)

-- A resident that is held is queued nowhere and not free, and its hook names itself.
pub out_facts :
    {bound : ℕ} {self : Lanes} {s : Schedule} {xs : List ℕ} (i : ℕ) (x : Standing)
    → IsReady bound self s xs
    → s.standing i ≡ x
    → x ≢ inside
    → Absent s.order i × Lacks xs i × ((self.entries i).previous ≡ i)
out_facts i inside v e d = absurd (d refl)
out_facts i idle v e d =
    let (a, b, c) = v.out i (record { previous = i; next = end }) (rw e refl) in (a, b, rw c refl)
out_facts i waiting v e d =
    let (a, b, c) = v.out i (record { previous = i; next = i }) (rw e refl) in (a, b, rw c refl)
