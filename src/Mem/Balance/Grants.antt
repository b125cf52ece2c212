-- ===== src/Mem/Balance/Grants.antt =====
-- src/mem/raw/charge.rs and src/mem/raw/grant.rs: the acquisitions of one lane, provisional and granted,
-- each an amount that its owner holds.
use o.Prelude.{ℕ, ◌+◌, ◌≡◌, List, [], ◌∷◌, ◌++◌, length, replicate, Result, ok, err}
use o.Mem.Balance.{Balance, Cause, add_raw, try_acquire, release_raw}
use o.Mem.Balance.Totals.{at}

abbrev pub charged : Balance → Result Cause Balance → Result Cause (Unit {0}) × Balance
charged self (ok next) = (ok tt, next)
charged self (err e) = (err e, self)

-- `Charge::try_new`, on the accounts of its source
unfoldable pub try_charge :
    ℕ → Balance → (reserve amount : List ℕ) → Result Cause (Unit {0}) × Balance
try_charge m self reserve amount = charged self (try_acquire m self reserve amount)

-- `Charge::drop`, and `Grant::release`
abbrev pub drop_charge : ℕ → Balance → (reserve amount : List ℕ) → Balance
drop_charge m self reserve amount = release_raw m self reserve amount

-- `Grant::empty`
abbrev pub empty_grant : (axes : ℕ) → List ℕ
empty_grant axes = replicate axes 0

-- Grants are arrays of this length.
abbrev pub Sized : ℕ → List (List ℕ) → Type 0
Sized n [] = Unit {0}
Sized n (g ∷ gs) = (length g ≡ n) × Sized n gs

-- What the owners of a lane's grants can do with its accounts; which grant comes first does not matter.
-- A charge that is bound to a grant is merged into it, and a split is into two that make the grant.
pub data Step (m n : ℕ) (reserve : List ℕ) (self : Balance)
    : List (List ℕ) → Balance → List (List ℕ) → Type 0 where
  charge :
      (amount : List ℕ) (gs : List (List ℕ))
      → length amount ≡ n
      → (try_charge m self reserve amount).0 ≡ ok tt
      → Step m n reserve self gs (try_charge m self reserve amount).1 (amount ∷ gs)
  deny :
      (amount : List ℕ) (gs : List (List ℕ)) (e : Cause)
      → (try_charge m self reserve amount).0 ≡ err e
      → Step m n reserve self gs (try_charge m self reserve amount).1 gs
  choose :
      (xs : List (List ℕ)) (g : List ℕ) (ys : List (List ℕ))
      → Step m n reserve self (xs ++ g ∷ ys) self (g ∷ (xs ++ ys))
  release :
      (g : List ℕ) (gs : List (List ℕ))
      → Step m n reserve self (g ∷ gs) (drop_charge m self reserve g) gs
  extend :
      (g amount : List ℕ) (gs : List (List ℕ))
      → length amount ≡ n
      → (try_charge m self reserve amount).0 ≡ ok tt
      → Step m n reserve self
          (g ∷ gs)
          (try_charge m self reserve amount).1
          (add_raw m g amount ∷ gs)
  merge :
      (g h : List ℕ) (gs : List (List ℕ))
      → Step m n reserve self (g ∷ h ∷ gs) self (add_raw m g h ∷ gs)
  split :
      (g left right : List ℕ) (gs : List (List ℕ))
      → length left ≡ n
      → length right ≡ n
      → ((k : ℕ) → at left k + at right k ≡ at g k)
      → Step m n reserve self (g ∷ gs) self (left ∷ right ∷ gs)
  open_empty : (gs : List (List ℕ)) → Step m n reserve self gs self (empty_grant n ∷ gs)

pub data Steps (m n : ℕ) (reserve : List ℕ) (self : Balance) (gs : List (List ℕ))
    : Balance → List (List ℕ) → Type 0 where
  here : Steps m n reserve self gs self gs
  after :
      {b c : Balance} {hs ks : List (List ℕ)}
      → Steps m n reserve self gs b hs
      → Step m n reserve b hs c ks
      → Steps m n reserve self gs c ks
