-- ===== src/Base/Time/Examples.antt =====
-- Runs and instances for the functions of src/base/time.rs.
use o.Prelude.{ℕ, ◌-◌, ◌≡◌, err, inr, refl, arith, mod64}
use o.Base.Time.{Duration, average, try_add, try_sub, scale, range, positive, zero_duration}
use o.Base.Time.Average.{IsWeightedFloor, average-IsWeightedFloor}

abbrev duration : ℕ → ℕ → Duration
duration secs nanos = record { secs = secs; nanos = nanos }

average_run : average 4 (duration 10 0) (duration 3 2) ≡ duration 8 250_000_000
unfolding average
average_run = refl

refusals :
    (try_add 7 (duration (mod64 - 1) 0) ≡ err (scale 7 (duration (mod64 - 1) 0)))
    × (try_sub 7 (duration 0 8) ≡ err (range 7 (duration 0 8)))
    × (positive (duration 0 0) ≡ err zero_duration)
unfolding try_add try_sub positive
refusals = (refl, refl, refl)

average-IsWeightedFloor_example :
    IsWeightedFloor 8 (duration (mod64 - 1) 999_999_999) (duration (mod64 - 1) 3)
average-IsWeightedFloor_example =
    average-IsWeightedFloor 8 (duration (mod64 - 1) 999_999_999) (duration (mod64 - 1) 3)
      (inr (inr refl)) (record { secs_in = omega arith; nanos_in = omega arith })
      (record { secs_in = omega arith; nanos_in = omega arith })
