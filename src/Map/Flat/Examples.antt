-- ===== src/Map/Flat/Examples.antt =====
-- A run and an instance for the flat table.
use o.Prelude.{
  List, [], ◌∷◌, ℕ, ◌<◌, ◌≡◌, refl, Bool, none, some, ok, err, ◌==◌, ==_iff, arith, ◌%◌, mod64,
}
use o.Map.{Plan, Fields, from_fields, new_plan, start, advance}
use o.Map.Edit.{remove, insert}
use o.Map.Flat.{
  Flat, try_new, Op, look, put, pull, reset, measure, seen, stored, done, sized, run, full_insert,
  occupied_insert,
}
use o.Map.Flat.Session.{spec_run, run-try_new}

-- Planes that hold anything, and the plan of two values, which has four buckets.
abbrev planes : Fields ℕ
planes = record { controls = λ i. 7; hashes = λ i. i; payloads = λ i. 99 }

abbrev plan : Plan
plan = record { capacity = record { count = 2 } }

abbrev key : ℕ → ℕ
key v = v % 10

-- Keys of one parity collide.
abbrev hash : ℕ → ℕ
hash k = k % 2

hash_word : (k : ℕ) → hash k < mod64
hash_word k = omega arith

abbrev eq : ℕ → ℕ → Bool
eq a b = a == b

table : Flat ℕ
table = record { table = from_fields planes 4; len = 0; capacity = 2 }

planned : new_plan 2 ≡ ok plan
unfolding new_plan
planned = refl

built : try_new {E = ℕ} plan (ok planes) ≡ ok table
unfolding try_new table
built = refl

abbrev ops : List (Op ℕ ℕ)
ops =
    put 13
    ∷ put 25
    ∷ put 7
    ∷ put 23
    ∷ look 5
    ∷ look 7
    ∷ pull 3
    ∷ look 5
    ∷ put 7
    ∷ pull 9
    ∷ measure
    ∷ reset
    ∷ look 7
    ∷ []

-- 13, 25 and 7 collide: the third is refused, and what is behind the first is found after its removal.
ops-run :
    run key hash eq table ops
    ≡ some (
        stored (ok tt)
        ∷ stored (ok tt)
        ∷ stored (err (full_insert 7))
        ∷ stored (err (occupied_insert 23))
        ∷ seen (some 25)
        ∷ seen none
        ∷ seen (some 13)
        ∷ seen (some 25)
        ∷ stored (ok tt)
        ∷ seen none
        ∷ sized 2
        ∷ done
        ∷ seen none
        ∷ [])
unfolding run table insert remove start advance
ops-run = refl

run-try_new_example :
    run key hash eq table ops
    ≡ some (spec_run key eq 2 (record { values = λ k. none; size = 0 }) ops)
run-try_new_example =
    run-try_new key hash hash_word eq ==_iff {E = ℕ} 2 plan planes table ops planned built
