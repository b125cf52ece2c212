-- ===== src/Mem/Account/Laws.antt =====
-- Accounts and the credit ledger.
use o.Prelude.{
  ℕ, ◌+◌, ◌-◌, ◌≤◌, ◌<◌, ◌≡◌, ◌↔◌, true, false, ok, err, arith, mod64, List, [], ◌∷◌, ◌++◌, refl,
  ap,
}
use o.Mem.Account.{Error, Ledger, try_acquire, refund, acquire_credit, return_credit, new}

-- An account of the credit in use, below its limit, and one of the credit left answer alike: they
-- refuse the same amounts with the same error, and otherwise stand for the same credit afterwards,
-- as they do after a refund of credit in use.
pub held_agrees :
    (current limit amount next back : ℕ) (e : Error)
    → current ≤ limit
    → limit < mod64
    → next ≤ limit
    → back ≤ current
    → ((try_acquire true current amount limit ≡ err e)
        ↔ (try_acquire false (limit - current) amount limit ≡ err e))
      × ((try_acquire true current amount limit ≡ ok next) ↔ (
          (try_acquire false (limit - current) amount limit ≡ ok (limit - next))
          × (current ≤ next)))
      × (refund false (limit - current) back ≡ limit - refund true current back)
unfolding try_acquire refund
held_agrees current limit amount next back e h k l b = (ground arith, ground arith, ground arith)

-- A ledger whose credit is within its limit, and the amounts of its leases.
pub record Domain : Type 0 where
  pub ledger : Ledger
  pub leases : List ℕ

abbrev pub total : List ℕ → ℕ
total [] = 0
total (x ∷ xs) = x + total xs

-- The leases and the credit left make up the limit, a `usize`.
pub record IsBalanced (limit : ℕ) (d : Domain) : Type 0 where
  pub kept : d.ledger.limit ≡ limit
  pub whole : d.ledger.remaining + total d.leases ≡ limit
  pub limit_in : limit < mod64

-- What a caller can do: acquire, or drop a lease that it holds (any one: they are unordered).
pub data Step (d : Domain) (d' : Domain) : Type 0 where
  acquire :
      (amount : ℕ) (l : Ledger)
      → acquire_credit d.ledger amount ≡ ok (amount, l)
      → d' ≡ record { ledger = l; leases = amount ∷ d.leases }
      → Step d d'
  give_back :
      (amount : ℕ) (before after : List ℕ)
      → d.leases ≡ before ++ amount ∷ after
      → d' ≡ record { ledger = return_credit d.ledger amount; leases = before ++ after }
      → Step d d'

pub data Reach (d : Domain) : Domain → Type 0 where
  here : Reach d d
  next : {e f : Domain} → Reach d e → Step e f → Reach d f

total-append : (xs ys : List ℕ) → total (xs ++ ys) ≡ total xs + total ys
total-append [] ys = omega arith
total-append (x ∷ xs) ys = omega (arith, total-append xs ys)

Step-IsBalanced : {limit : ℕ} {d d' : Domain} → Step d d' → IsBalanced limit d → IsBalanced limit d'
unfolding acquire_credit return_credit
Step-IsBalanced (acquire amount l e w) b = ground arith
Step-IsBalanced {d} (give_back amount before after e w) b =
    ground (arith, ap total e, total-append before (amount ∷ after), total-append before after)

Reach-IsBalanced :
    {limit : ℕ} {d d' : Domain} → Reach d d' → IsBalanced limit d → IsBalanced limit d'
Reach-IsBalanced here b = b
Reach-IsBalanced (next r s) b = Step-IsBalanced s (Reach-IsBalanced r b)

acquire_credit_iff :
    (limit amount : ℕ) (d : Domain)
    → IsBalanced limit d
    → ((l : Ledger) × (acquire_credit d.ledger amount ≡ ok (amount, l)))
      ↔ (amount + total d.leases ≤ limit)
unfolding acquire_credit
acquire_credit_iff limit amount d b = (
  λ (l, e). ground arith,
  λ h. (record (d.ledger) { remaining = d.ledger.remaining - amount }, ground arith),
)

-- From a new ledger of a limit that fits a word, whatever leases are acquired and dropped, in any
-- order, the credit left is the limit less what the leases hold, so that a ledger is new again once
-- all are dropped, and an acquisition succeeds exactly if the amount and the leases are within the
-- limit.
pub ledger_conserves :
    (limit amount : ℕ) (d : Domain)
    → limit < mod64
    → Reach (record { ledger = new limit; leases = [] }) d
    → (d.ledger.remaining + total d.leases ≡ limit)
      × (d.ledger ≡ record (new limit) { remaining = limit - total d.leases })
      × (((l : Ledger) × (acquire_credit d.ledger amount ≡ ok (amount, l)))
          ↔ (amount + total d.leases ≤ limit))
unfolding new
ledger_conserves limit amount d h r =
    let b = Reach-IsBalanced r (record { kept = refl; whole = omega arith; limit_in = h }) in
    (b.whole, ground (arith, b), acquire_credit_iff limit amount d b)
