-- ===== src/Mem/Quota/Laws.antt =====
-- Quota is conserved: what a ledger started with is what it has left, what its leases and
-- reservations hold, and what has been spent.
use o.Prelude.{ℕ, ◌+◌, ◌-◌, ◌≤◌, ◌<◌, ◌≡◌, some, List, [], ◌∷◌, ◌++◌, ap, ◌∙◌, arith, mod64, Option}
use o.Mem.Account.{Take}
use o.Mem.Quota.{
  Ledger, Lease, Shared, Admission, item, empty, exhausted, ledger_take, lease_reserve_up,
  lease_admit, lease_drop, shared_reserve, shared_reserve_up, shared_settle, shared_drop,
}

-- A reservation, with the leases that were split from it.
pub record Node : Type 0 where
  pub shared : Shared
  pub children : List Lease

-- The source ledger, what is drawn from it, and the units that were spent for good.
pub record World : Type 0 where
  pub source : Ledger
  pub leases : List Lease
  pub nodes : List Node
  pub spent : ℕ

abbrev pub total : List Lease → ℕ
total [] = 0
total (l ∷ ls) = l + total ls

abbrev pub total_nodes : List Node → ℕ
total_nodes [] = 0
total_nodes (n ∷ ns) = (n.shared + total n.children) + total_nodes ns

total-append : (xs ys : List Lease) → total (xs ++ ys) ≡ total xs + total ys
total-append [] ys = omega arith
total-append (x ∷ xs) ys = omega (arith, total-append xs ys)

total_nodes-append : (xs ys : List Node) → total_nodes (xs ++ ys) ≡ total_nodes xs + total_nodes ys
total_nodes-append [] ys = omega arith
total_nodes-append (x ∷ xs) ys = omega (arith, total_nodes-append xs ys)

-- The units that an admission spends.
abbrev pub spent_of : Admission ℕ → ℕ
spent_of (item value) = 1
spent_of empty = 0
spent_of exhausted = 0

-- Moves of the leases of one ledger, with the units that the move spends.
pub data Move (l l' : Ledger) (ls ls' : List Lease) (spent : ℕ) : Type 0 where
  leased :
      (limit : ℕ)
      → l' ≡ (lease_reserve_up l limit).1
      → ls' ≡ (lease_reserve_up l limit).0 ∷ ls
      → spent ≡ 0
      → Move l l' ls ls' spent
  admitted :
      (acquired : Option ℕ) (lease : Lease) (before after : List Lease)
      → ls ≡ before ++ lease ∷ after
      → l' ≡ l
      → ls' ≡ before ++ (lease_admit lease acquired).1 ∷ after
      → spent ≡ spent_of ((lease_admit lease acquired).0)
      → Move l l' ls ls' spent
  dropped :
      (lease : Lease) (before after : List Lease)
      → ls ≡ before ++ lease ∷ after
      → l' ≡ lease_drop l lease
      → ls' ≡ before ++ after
      → spent ≡ 0
      → Move l l' ls ls' spent

-- What users of the ledger can do. A reservation is dropped when its leases have ended, since each
-- borrows it, and settled by `with` at an unused amount within what it holds.
pub data Step (w w' : World) : Type 0 where
  take_one :
      (ledger_take w.source).0 ≡ Take.taken
      → w' ≡ record w { source = (ledger_take w.source).1; spent = w.spent + 1 }
      → Step w w'
  on_source :
      (l : Ledger) (ls : List Lease) (n : ℕ)
      → Move w.source l w.leases ls n
      → w' ≡ record w { source = l; leases = ls; spent = w.spent + n }
      → Step w w'
  reserved :
      (count : ℕ) (s : Shared)
      → (shared_reserve w.source count).0 ≡ some s
      → w' ≡ record w {
        source = (shared_reserve w.source count).1;
        nodes = record { shared = s; children = [] } ∷ w.nodes;
      }
      → Step w w'
  reserved_up :
      (limit : ℕ)
      → w' ≡ record w {
        source = (shared_reserve_up w.source limit).1;
        nodes = record { shared = (shared_reserve_up w.source limit).0; children = [] } ∷ w.nodes;
      }
      → Step w w'
  on_node :
      (n n' : Node) (before after : List Node) (spent : ℕ)
      → w.nodes ≡ before ++ n ∷ after
      → Move n.shared n'.shared n.children n'.children spent
      → w' ≡ record w { nodes = before ++ n' ∷ after; spent = w.spent + spent }
      → Step w w'
  settled :
      (n : Node) (before after : List Node) (unused : ℕ)
      → w.nodes ≡ before ++ n ∷ after
      → unused ≤ n.shared
      → w' ≡ record w {
        nodes = before ++ record n { shared = shared_settle n.shared unused } ∷ after;
        spent = w.spent + (n.shared - unused);
      }
      → Step w w'
  ended :
      (n : Node) (before after : List Node)
      → w.nodes ≡ before ++ n ∷ after
      → n.children ≡ []
      → w' ≡ record w { source = shared_drop w.source n.shared; nodes = before ++ after }
      → Step w w'

pub data Reach (w : World) : World → Type 0 where
  here : Reach w w
  next : {u v : World} → Reach w u → Step u v → Reach w v

-- A move keeps the sum of the ledger, its leases and what it spends, which fits a word.
Move-conserves :
    {l l' : Ledger} {ls ls' : List Lease} {spent : ℕ}
    → l + total ls < mod64
    → Move l l' ls ls' spent
    → l' + total ls' + spent ≡ l + total ls
unfolding lease_reserve_up lease_admit lease_drop
Move-conserves h (leased limit e f g) = ground arith
Move-conserves h (admitted acquired lease before after e f g k) = ground (
  arith,
  ap total e,
  total-append before (lease ∷ after),
  ap total g,
  total-append before ((lease_admit lease acquired).1 ∷ after),
)
Move-conserves h (dropped lease before after e f g k) =
    ground (
      arith,
      ap total e,
      ap total g,
      total-append before (lease ∷ after),
      total-append before after,
    )

-- The world holds `start` units, a `usize`.
abbrev pub IsWorth : ℕ → World → Type 0
IsWorth start w =
    (w.source + total w.leases + total_nodes w.nodes + w.spent ≡ start) × (start < mod64)

Step-IsWorth : {start : ℕ} {w w' : World} → Step w w' → IsWorth start w → IsWorth start w'
unfolding ledger_take shared_reserve shared_reserve_up shared_settle shared_drop
Step-IsWorth (take_one e f) v = ground arith
Step-IsWorth (on_source l ls n m e) v = ground (arith, Move-conserves (omega arith) m)
Step-IsWorth (reserved count s e f) v = ground arith
Step-IsWorth (reserved_up limit e) v = ground arith
Step-IsWorth (on_node n n' before after spent e m f) v =
    let old = ap total_nodes e ∙ total_nodes-append before (n ∷ after) in
    ground
      (arith, old, total_nodes-append before (n' ∷ after), Move-conserves (omega (arith, old)) m)
Step-IsWorth (settled n before after unused e h f) v = ground (
  arith,
  ap total_nodes e,
  total_nodes-append before (n ∷ after),
  total_nodes-append before (record n { shared = shared_settle n.shared unused } ∷ after),
)
Step-IsWorth (ended n before after e c f) v = ground (
  arith,
  ap total_nodes e,
  ap total c,
  total_nodes-append before (n ∷ after),
  total_nodes-append before after,
)

Reach-IsWorth : {start : ℕ} {w w' : World} → Reach w w' → IsWorth start w → IsWorth start w'
Reach-IsWorth here v = v
Reach-IsWorth (next r s) v = Step-IsWorth s (Reach-IsWorth r v)

-- From a ledger of any `usize`, after any sequence of takes, leases, reservations, child leases,
-- admissions, settlements and drops, in any order, the quota left, held by leases, held by
-- reservations and their leases, and spent add up to the start. So when all is dropped the ledger
-- lacks just what was spent.
pub quota_conserves :
    (start : ℕ) (w : World)
    → start < mod64
    → Reach (record { source = start; leases = []; nodes = []; spent = 0 }) w
    → w.source + total w.leases + total_nodes w.nodes + w.spent ≡ start
quota_conserves start w h r = let v : IsWorth start w = Reach-IsWorth r (omega arith) in v.0
