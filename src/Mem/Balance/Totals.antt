-- ===== src/Mem/Balance/Totals.antt =====
-- The entries of arrays after an acquisition or a release, and the totals of several arrays.
use o.Prelude.{ℕ, zero, suc, ◌+◌, ◌-◌, ◌≤◌, ◌≡◌, List, [], ◌∷◌, ◌++◌, refl, arith, get_or, length}
use native.Mathlib.Nat.{mod-eq_of_lt}
use o.Mem.Balance.{add_raw, raw_from, release_from, demand_from}
use o.Mem.Balance.Axes.{IsFair, AllLe, nil, cons, acquire_axis-ok, release_axis}

-- The entry of an axis, which is 0 past the last.
abbrev pub at : List ℕ → ℕ → ℕ
at xs k = get_or xs k 0

abbrev pub total_at : List (List ℕ) → ℕ → ℕ
total_at [] k = 0
total_at (g ∷ gs) k = at g k + total_at gs k

pub total_at-append :
    (xs : List (List ℕ)) (g : List ℕ) (ys : List (List ℕ)) (k : ℕ)
    → total_at (xs ++ g ∷ ys) k ≡ at g k + total_at (xs ++ ys) k
total_at-append [] g ys k = refl
total_at-append (x ∷ xs) g ys k = omega (arith, total_at-append xs g ys k)

pub le-AllLe :
    (xs ys : List ℕ) → length xs ≡ length ys → ((k : ℕ) → at xs k ≤ at ys k) → AllLe xs ys
le-AllLe [] [] e f = tt
le-AllLe [] (y ∷ ys) e f = absurd (omega arith)
le-AllLe (x ∷ xs) [] e f = absurd (omega arith)
le-AllLe (x ∷ xs) (y ∷ ys) e f = (f 0, le-AllLe xs ys (omega arith) (λ k. f (suc k)))

pub raw_at :
    {m : ℕ} {ls os rs hs ss : List ℕ} (xs : List ℕ)
    → IsFair m ls os rs hs ss
    → length xs ≡ length hs
    → AllLe (demand_from hs rs xs) ss
    → (k : ℕ) → at (raw_from m hs ss rs xs).held k ≡ at hs k + at xs k
unfolding raw_from demand_from
raw_at [] nil n q k = refl
raw_at (x ∷ xs) nil n q k = absurd (omega arith)
raw_at [] (cons v vs) n q k = absurd (omega arith)
raw_at (x ∷ xs) (cons v vs) n q zero = (acquire_axis-ok v 0 x q.0).1
raw_at (x ∷ xs) (cons v vs) n q (suc k) = raw_at xs vs (omega arith) q.1 k

pub release_at :
    {m : ℕ} {ls os rs hs ss : List ℕ} (xs : List ℕ)
    → IsFair m ls os rs hs ss
    → AllLe xs hs
    → (k : ℕ) → at (release_from m hs ss rs xs).held k ≡ at hs k - at xs k
unfolding release_from
release_at [] nil q k = refl
release_at (x ∷ xs) nil q k = elim q [ ]
release_at [] (cons v vs) q k = elim q [ ]
release_at (x ∷ xs) (cons v vs) q zero = (release_axis v 0 x q.0).0
release_at (x ∷ xs) (cons v vs) q (suc k) = release_at xs vs q.1 k

pub add_raw-at :
    {m : ℕ} {ls os rs hs ss : List ℕ} (xs ys : List ℕ)
    → IsFair m ls os rs hs ss
    → length xs ≡ length hs
    → length ys ≡ length hs
    → ((k : ℕ) → at xs k + at ys k ≤ at hs k)
    → (k : ℕ) → at (add_raw m xs ys) k ≡ at xs k + at ys k
unfolding add_raw
add_raw-at [] [] v n p f k = refl
add_raw-at [] (y ∷ ys) nil n p f k = absurd (omega arith)
add_raw-at (x ∷ xs) ys nil n p f k = absurd (omega arith)
add_raw-at [] (y ∷ ys) (cons v vs) n p f k = absurd (omega arith)
add_raw-at (x ∷ xs) [] (cons v vs) n p f k = absurd (omega arith)
add_raw-at (x ∷ xs) (y ∷ ys) (cons {h = h} v vs) n p f zero =
    let low : x + y ≤ h = f 0 in mod-eq_of_lt (omega (arith, low, v.conserved, v.fits_word))
add_raw-at (x ∷ xs) (y ∷ ys) (cons v vs) n p f (suc k) =
    add_raw-at xs ys vs (omega arith) (omega arith) (λ j. f (suc j)) k

pub fair_at :
    {m : ℕ} {ls os rs hs ss : List ℕ}
    → IsFair m ls os rs hs ss
    → (k : ℕ) → at ss k + (at hs k - at rs k) + at os k ≡ at ls k
fair_at nil k = refl
fair_at (cons v vs) zero = v.conserved
fair_at (cons v vs) (suc k) = fair_at vs k
