-- ===== src/Mem/Quota/Examples.antt =====
-- A session with quota, and an admission.
use o.Prelude.{
  ◌==◌, if◌then◌else◌, ℕ, ◌+◌, ◌-◌, ◌≡◌, none, some, Option, List, [], ◌∷◌, refl, arith,
}
use o.Mem.Quota.{
  Ledger, Lease, exhausted, ledger_admit, ledger_take, lease_reserve_up, lease_admit, lease_drop,
  lease_reserve_all, shared_reserve_all, lease_up_to, shared_reserve,
}
use o.Mem.Quota.Laws.{World, Node, Move, Step, Reach, total, total_nodes, quota_conserves}
use o.Mem.Quota.Admit.{admission_of, ledger_admit_total}

abbrev world : Ledger → List Lease → List Node → ℕ → World
world source leases nodes spent = record {
  source = source;
  leases = leases;
  nodes = nodes;
  spent = spent;
}

abbrev node : Ledger → List Lease → Node
node shared children = record { shared = shared; children = children }

-- Lease 3 of 10, admit one item, reserve 5, lease 2 of the reservation, and drop the first lease.
session : Reach (world 10 [] [] 0) (world 4 [] (node 3 (2 ∷ []) ∷ []) 1)
unfolding lease_reserve_up lease_admit shared_reserve lease_drop
session =
    let a : Step (world 10 [] [] 0) (world 7 (3 ∷ []) [] 0) =
      Step.on_source 7 (3 ∷ []) 0 (Move.leased 3 refl refl refl) refl in
    let b : Step (world 7 (3 ∷ []) [] 0) (world 7 (2 ∷ []) [] 1) =
      Step.on_source 7 (2 ∷ []) 1 (Move.admitted (some 8) 3 [] [] refl refl refl refl) refl in
    let c : Step (world 7 (2 ∷ []) [] 1) (world 2 (2 ∷ []) (node 5 [] ∷ []) 1) =
      Step.reserved 5 5 refl refl in
    let d : Step (world 2 (2 ∷ []) (node 5 [] ∷ []) 1) (world 2 (2 ∷ []) (node 3 (2 ∷ []) ∷ []) 1) =
      Step.on_node (node 5 []) (node 3 (2 ∷ [])) [] [] 0 refl (Move.leased 2 refl refl refl) refl in
    let e : Step (world 2 (2 ∷ []) (node 3 (2 ∷ []) ∷ []) 1) (world 4 [] (node 3 (2 ∷ []) ∷ []) 1) =
      Step.on_source 4 [] 0 (Move.dropped 2 [] [] refl refl refl refl) refl in
    Reach.next (Reach.next (Reach.next (Reach.next (Reach.next Reach.here a) b) c) d) e

quota_conserves_example : 4 + total [] + total_nodes (node 3 (2 ∷ []) ∷ []) + 1 ≡ 10
quota_conserves_example =
    quota_conserves 10 (world 4 [] (node 3 (2 ∷ []) ∷ []) 1) (omega arith) session

-- A closure that takes one more unit, and finds no item.
abbrev acquire_none : Ledger → Option ℕ × Ledger
acquire_none self = (none, (ledger_take self).1)

ledger_admit_total_example :
    ledger_admit 5 acquire_none
    ≡ (if 5 == 0 then (exhausted, 5) else admission_of (acquire_none (5 - 1)))
unfolding ledger_take
ledger_admit_total_example = ledger_admit_total 5 acquire_none (omega arith) (omega arith)

-- Reserving all leaves nothing, and a child lease takes at most what is there.
reserve_all_run :
    (lease_reserve_all 9 ≡ (9, 0)) × (shared_reserve_all 9 ≡ (9, 0)) × (lease_up_to 4 6 ≡ (4, 0))
unfolding lease_reserve_all shared_reserve_all lease_up_to
reserve_all_run = (refl, refl, refl)
