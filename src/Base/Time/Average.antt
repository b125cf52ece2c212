-- ===== src/Base/Time/Average.antt =====
-- `DurationExt::average` against the exact weighted mean.
use o.Prelude.{ℕ, ◌+◌, ◌-◌, ◌*◌, ◌/◌, ◌≡◌, ◌⊎◌, inl, inr, arith}
use o.Base.Time.{Duration, average, as_nanos, IsDuration}

-- The floor of the mean in nanoseconds, as a duration in range.
abbrev pub IsWeightedFloor : ℕ → Duration → Duration → Type 0
IsWeightedFloor n self sample =
    (as_nanos (average n self sample) ≡ ((n - 1) * as_nanos self + as_nanos sample) / n)
    × IsDuration (average n self sample)

module _ (self sample : Duration) (v : IsDuration self) (w : IsDuration sample) where
  average-two : IsWeightedFloor 2 self sample
  unfolding average
  average-two = omega arith

  average-four : IsWeightedFloor 4 self sample
  unfolding average
  average-four = omega arith

  average-eight : IsWeightedFloor 8 self sample
  unfolding average
  average-eight = omega arith

-- For N = 2, 4 or 8 and durations in range, `average` is the floor of
-- ((N - 1) * self + sample) / N in nanoseconds, and is a duration in range: no step of its 64-bit
-- arithmetic changes the result by wrapping.
pub average-IsWeightedFloor :
    (n : ℕ) (self sample : Duration)
    → (n ≡ 2) ⊎ (n ≡ 4) ⊎ (n ≡ 8)
    → IsDuration self
    → IsDuration sample
    → IsWeightedFloor n self sample
average-IsWeightedFloor n self sample (inl e) v w = rw e (average-two self sample v w)
average-IsWeightedFloor n self sample (inr (inl e)) v w = rw e (average-four self sample v w)
average-IsWeightedFloor n self sample (inr (inr e)) v w = rw e (average-eight self sample v w)
