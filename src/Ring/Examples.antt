-- ===== src/Ring/Examples.antt =====
-- Runs and instances for rings.
use o.Prelude.{
  ◌⊎◌, ◌≢◌, true, false, ℕ, ◌+◌, ◌-◌, ◌<◌, ◌≡◌, some, ok, err, List, [], ◌∷◌, refl, arith,
}
use o.Ring.{
  len, is_empty, is_full, front, State, position, consume, extend, claim, release, push_back,
  push_front, pop_front, new, run, Op, put_back, put_front, take_front, look, reset, put, seen,
}
use o.Ring.Position.{IsState, consume_total, extend_total}
use o.Ring.Session.{spec_run, run-new}

abbrev ops : List (Op ℕ)
ops =
    put_back 4
    ∷ put_front 3
    ∷ put_back 5
    ∷ put_back 6
    ∷ take_front
    ∷ put_back 7
    ∷ look 2
    ∷ take_front
    ∷ reset
    ∷ take_front
    ∷ []

-- A ring of three slots that wraps and refuses a fourth value.
ops_run :
    run {T = ℕ} (new 3) (put_back 4 ∷ put_front 3 ∷ put_back 5 ∷ put_back 6 ∷ take_front ∷ [])
    ≡ put (ok tt) ∷ put (ok tt) ∷ put (ok tt) ∷ put (err 6) ∷ seen (some 3) ∷ []
unfolding run new push_back push_front pop_front claim release
ops_run = refl

run-new_example : run (new 3) ops ≡ spec_run 3 [] ops
run-new_example = run-new 3 ops (omega arith)

-- Three values in the slots 3, 4 and 0 of five.
abbrev wrapped : State
wrapped = record { head = 3; len = 3 }

wrapped-IsState : IsState 5 wrapped
wrapped-IsState = record { word = omega arith; head_in = omega arith; len_in = omega arith }

consume_total_example :
    IsState 5 (consume wrapped 5 2)
    × ((consume wrapped 5 2).len ≡ 3 - 2)
    × (((consume wrapped 5 2).len ≢ 0) ⊎ ((consume wrapped 5 2).head ≡ 0))
    × ((i : ℕ) → 2 + i < 3 → position (consume wrapped 5 2) 5 i ≡ position wrapped 5 (2 + i))
consume_total_example = consume_total wrapped-IsState 2 (omega arith)

extend_total_example :
    let (s', start, first, second) = extend wrapped 5 2 in
    IsState 5 s'
    × (s'.len ≡ 3 + 2)
    × (s'.head ≡ 3)
    × (first + second ≡ 2)
    × ((i : ℕ) → i < first → position wrapped 5 (3 + i) ≡ start + i)
    × ((i : ℕ) → i < second → position wrapped 5 (3 + first + i) ≡ i)
extend_total_example = extend_total wrapped-IsState 2 (omega arith)

-- A ring of one slot, full.
full_run :
    let self = (push_back (new {T = ℕ} 1) 7).0 in
    (len self ≡ 1) × (is_full self ≡ true) × (is_empty self ≡ false) × (front self ≡ some 7)
unfolding len is_full is_empty front push_back claim new
full_run = (refl, refl, refl, refl)
