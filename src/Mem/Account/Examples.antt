-- ===== src/Mem/Account/Examples.antt =====
-- Runs and instances for accounts and the credit ledger.
use o.Prelude.{◌+◌, ◌-◌, ◌≤◌, ◌≡◌, ◌↔◌, true, false, ok, err, refl, arith, [], ◌∷◌}
use o.Mem.Account.{Error, Ledger, try_acquire, refund, acquire_credit, return_credit, new}
use o.Mem.Account.Laws.{
  held_agrees, ledger_conserves, total, Domain, Step, Reach, acquire, give_back,
}

abbrev error : Error
error = record { need = 8; spare = 7 }

abbrev start : Domain
start = record { ledger = new 10; leases = [] }

abbrev first : Domain
first = record { ledger = record { limit = 10; remaining = 6 }; leases = 4 ∷ [] }

abbrev both : Domain
both = record { ledger = record { limit = 10; remaining = 1 }; leases = 5 ∷ 4 ∷ [] }

abbrev rest : Domain
rest = record { ledger = record { limit = 10; remaining = 5 }; leases = 5 ∷ [] }

-- Acquire 4, then 5, and drop the older lease.
session : Reach start rest
unfolding new acquire_credit return_credit
session =
    let a : Step start first = acquire 4 first.ledger refl refl in
    let b : Step first both = acquire 5 both.ledger refl refl in
    let c : Step both rest = give_back 4 (5 ∷ []) [] refl refl in
    Reach.next (Reach.next (Reach.next Reach.here a) b) c

held_agrees_example :
    ((try_acquire true 3 5 10 ≡ err error) ↔ (try_acquire false (10 - 3) 5 10 ≡ err error))
    × ((try_acquire true 3 5 10 ≡ ok 8)
        ↔ ((try_acquire false (10 - 3) 5 10 ≡ ok (10 - 8)) × (3 ≤ 8)))
    × (refund false (10 - 3) 2 ≡ 10 - refund true 3 2)
held_agrees_example =
    held_agrees 3 10 5 8 2 error (omega arith) (omega arith) (omega arith) (omega arith)

ledger_conserves_example :
    (5 + total (5 ∷ []) ≡ 10)
    × (rest.ledger ≡ record (new 10) { remaining = 10 - total rest.leases })
    × (((l : Ledger) × (acquire_credit rest.ledger 3 ≡ ok (3, l))) ↔ (3 + total rest.leases ≤ 10))
ledger_conserves_example = ledger_conserves 10 3 rest (omega arith) session
