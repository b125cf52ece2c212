-- ===== src/Mem/Balance/Backed.antt =====
-- A lane's accounts against the grants that its owners hold.
use o.Prelude.{
  ℕ, zero, suc, ◌+◌, ◌-◌, ◌≡◌, List, [], ◌∷◌, ◌++◌, refl, sym, ap, ◌∙◌, arith, length, Result, ok,
  err,
}
use mathlib.Core.Path.{subst}
use o.Mem.Balance.{Balance, Cause, add_raw, try_acquire, acquire_raw, release_raw, demand}
use o.Mem.Balance.Axes.{IsFair, AllLe, nil, cons}
use o.Mem.Balance.Laws.{IsFairBalance, try_acquire_total, release_raw-IsFair}
use o.Mem.Balance.Totals.{
  at, total_at, total_at-append, le-AllLe, raw_at, release_at, add_raw-at, fair_at,
}
use o.Mem.Balance.Grants.{
  charged, try_charge, drop_charge, empty_grant, Sized, Step, Steps, charge, deny, choose, release,
  extend, merge, split, open_empty, here, after,
}

-- The lane holds exactly what its grants are of.
pub record IsBacked (m : ℕ) (limit others reserve : List ℕ) (self : Balance) (gs : List (List ℕ))
    : Type 0 where
  pub fair : IsFairBalance m limit others reserve self
  pub sized : Sized (length limit) gs
  pub held : (k : ℕ) → at self.held k ≡ total_at gs k

fair_len : {m : ℕ} {ls os rs hs ss : List ℕ} → IsFair m ls os rs hs ss → length hs ≡ length ls
fair_len nil = refl
fair_len (cons v vs) = ap suc (fair_len vs)

length-add_raw :
    (m : ℕ) (xs ys : List ℕ) → length xs ≡ length ys → length (add_raw m xs ys) ≡ length xs
unfolding add_raw
length-add_raw m [] [] e = refl
length-add_raw m [] (y ∷ ys) e = refl
length-add_raw m (x ∷ xs) [] e = absurd (omega arith)
length-add_raw m (x ∷ xs) (y ∷ ys) e = ap suc (length-add_raw m xs ys (omega arith))

empty_grant-at : (n k : ℕ) → at (empty_grant n) k ≡ 0
empty_grant-at zero k = refl
empty_grant-at (suc n) zero = refl
empty_grant-at (suc n) (suc k) = empty_grant-at n k

length-empty_grant : (n : ℕ) → length (empty_grant n) ≡ n
length-empty_grant zero = refl
length-empty_grant (suc n) = ap suc (length-empty_grant n)

Sized-append :
    (n : ℕ) (xs : List (List ℕ)) (g : List ℕ) (ys : List (List ℕ))
    → Sized n (xs ++ g ∷ ys)
    → Sized n (g ∷ (xs ++ ys))
Sized-append n [] g ys v = v
Sized-append n (x ∷ xs) g ys (e, v) = let (f, w) = Sized-append n xs g ys v in (f, (e, w))

module _ {m : ℕ} {limit others reserve : List ℕ} {self : Balance} {gs : List (List ℕ)}
    (v : IsBacked m limit others reserve self gs) where
  -- A charge that is admitted is held, and one that is not changes nothing.
  try_charge-held :
      (amount : List ℕ)
      → length amount ≡ length limit
      → (try_charge m self reserve amount).0 ≡ ok tt
      → IsFairBalance m limit others reserve (try_charge m self reserve amount).1
        × ((k : ℕ) → at (try_charge m self reserve amount).1.held k ≡ at self.held k + at amount k)
  unfolding try_charge acquire_raw demand
  try_charge-held amount n e = go (try_acquire m self reserve amount) refl e
    where
      fits_len : length amount ≡ length self.held
      fits_len = n ∙ sym (fair_len v.fair)

      go :
          (r : Result Cause Balance)
          → try_acquire m self reserve amount ≡ r
          → (charged self r).0 ≡ ok tt
          → IsFairBalance m limit others reserve (charged self r).1
            × ((k : ℕ) → at (charged self r).1.held k ≡ at self.held k + at amount k)
      go (err c) p q = absurd (cc)
      go (ok c) p q =
          let (demanded, same, fair, back) =
            (try_acquire_total m limit others reserve amount self v.fair fits_len c).0 p in
          (fair, λ k. ap (λ b. at b.held k) same ∙ raw_at amount v.fair fits_len demanded k)

  charge-IsBacked :
      (amount : List ℕ)
      → length amount ≡ length limit
      → (try_charge m self reserve amount).0 ≡ ok tt
      → IsBacked m limit others reserve (try_charge m self reserve amount).1 (amount ∷ gs)
  charge-IsBacked amount n e =
      let (fair, held) = try_charge-held amount n e in
      record { fair = fair; sized = (n, v.sized); held = λ k. omega (arith, held k, v.held k) }

  deny-same :
      (amount : List ℕ) (e : Cause)
      → (try_charge m self reserve amount).0 ≡ err e
      → (try_charge m self reserve amount).1 ≡ self
  unfolding try_charge
  deny-same amount e p = go (try_acquire m self reserve amount) p
    where
      go : (r : Result Cause Balance) → (charged self r).0 ≡ err e → (charged self r).1 ≡ self
      go (ok c) q = absurd (cc)
      go (err c) q = refl

module _ {m : ℕ} {limit others reserve : List ℕ} {self : Balance} {g : List ℕ} {gs : List (List ℕ)}
    (v : IsBacked m limit others reserve self (g ∷ gs)) where
  grant_len : length g ≡ length self.held
  grant_len = v.sized.0 ∙ sym (fair_len v.fair)

  grant_held : AllLe g self.held
  grant_held = le-AllLe g self.held grant_len (λ k. omega (arith, v.held k))

  release-IsBacked : IsBacked m limit others reserve (drop_charge m self reserve g) gs
  unfolding release_raw
  release-IsBacked = record {
    fair = release_raw-IsFair m limit others reserve g self v.fair grant_len grant_held;
    sized = v.sized.1;
    held = λ k. omega (arith, release_at g v.fair grant_held k, v.held k);
  }

  extend-IsBacked :
      (amount : List ℕ)
      → length amount ≡ length limit
      → (try_charge m self reserve amount).0 ≡ ok tt
      → IsBacked m limit others reserve
          (try_charge m self reserve amount).1
          (add_raw m g amount ∷ gs)
  extend-IsBacked amount n e =
      let (fair, held) = try_charge-held v amount n e in
      let sum =
        add_raw-at g amount fair (v.sized.0 ∙ sym (fair_len fair)) (n ∙ sym (fair_len fair))
          (λ k. omega (arith, held k, v.held k)) in
      record {
        fair = fair;
        sized = (length-add_raw m g amount (v.sized.0 ∙ sym n) ∙ v.sized.0, v.sized.1);
        held = λ k. omega (arith, held k, v.held k, sum k);
      }

merge-IsBacked :
    {m : ℕ} {limit others reserve : List ℕ} {self : Balance} {g h : List ℕ} {gs : List (List ℕ)}
    → IsBacked m limit others reserve self (g ∷ h ∷ gs)
    → IsBacked m limit others reserve self (add_raw m g h ∷ gs)
merge-IsBacked {m} {limit} {others} {reserve} {self} {g} {h} {gs} v =
    let (n, (p, rest)) = v.sized in
    let len = sym (fair_len v.fair) in
    let sum = add_raw-at g h v.fair (n ∙ len) (p ∙ len) (λ k. omega (arith, v.held k)) in
    record {
      fair = v.fair;
      sized = (length-add_raw m g h (n ∙ sym p) ∙ n, rest);
      held = λ k. omega (arith, v.held k, sum k);
    }

Step-IsBacked :
    {m : ℕ} {limit others reserve : List ℕ} {b : Balance} {gs : List (List ℕ)} {c : Balance}
    {hs : List (List ℕ)}
    → Step m (length limit) reserve b gs c hs
    → IsBacked m limit others reserve b gs
    → IsBacked m limit others reserve c hs
Step-IsBacked (charge amount gs n e) v = charge-IsBacked v amount n e
Step-IsBacked {m} {limit} {others} {reserve} (deny amount gs e p) v =
    subst (λ x. IsBacked m limit others reserve x gs) (sym (deny-same v amount e p)) v
Step-IsBacked {limit = limit} (choose xs g ys) v = record {
  fair = v.fair;
  sized = Sized-append (length limit) xs g ys v.sized;
  held = λ k. v.held k ∙ total_at-append xs g ys k;
}
Step-IsBacked (release g gs) v = release-IsBacked v
Step-IsBacked (extend g amount gs n e) v = extend-IsBacked v amount n e
Step-IsBacked (merge g h gs) v = merge-IsBacked v
Step-IsBacked (split g left right gs n p f) v = record {
  fair = v.fair;
  sized = (n, (p, v.sized.1));
  held = λ k. omega (arith, v.held k, f k);
}
Step-IsBacked {limit = limit} (open_empty gs) v = record {
  fair = v.fair;
  sized = (length-empty_grant (length limit), v.sized);
  held = λ k. omega (arith, v.held k, empty_grant-at (length limit) k);
}

Steps-IsBacked :
    {m : ℕ} {limit others reserve : List ℕ} {b : Balance} {gs : List (List ℕ)} {c : Balance}
    {hs : List (List ℕ)}
    → IsBacked m limit others reserve b gs
    → Steps m (length limit) reserve b gs c hs
    → IsBacked m limit others reserve c hs
Steps-IsBacked v here = v
Steps-IsBacked v (after r s) = Step-IsBacked s (Steps-IsBacked v r)

-- A lane owes what its grants are of: after any sequence of charges, admitted or not, extensions,
-- merges, splits and releases of grants, in any order, from fair accounts of a lane that holds
-- nothing, with other lanes as they are, the lane holds on each axis the sum of its grants, and the
-- shared credit is the limit less what the others draw and less what that sum is above the reserve.
pub grants_conserve :
    (m : ℕ) (limit others reserve : List ℕ) (b c : Balance) (gs : List (List ℕ))
    → IsFairBalance m limit others reserve b
    → ((k : ℕ) → at b.held k ≡ 0)
    → Steps m (length limit) reserve b [] c gs
    → (k : ℕ)
    → (at c.held k ≡ total_at gs k)
      × (at c.shared k + (total_at gs k - at reserve k) + at others k ≡ at limit k)
grants_conserve m limit others reserve b c gs v e r k =
    let w = Steps-IsBacked (record { fair = v; sized = tt; held = e }) r in
    (
      w.held k,
      subst (λ t. at c.shared k + (t - at reserve k) + at others k ≡ at limit k) (w.held k)
          (fair_at w.fair k),
    )
