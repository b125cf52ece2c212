-- ===== src/Prelude/Distinct.antt =====
-- Distinct numbers below a bound.
use Prim.Native.Nat.{ℕ, zero, suc, ◌≤◌, ◌<◌}
use mathlib.Core.Logic.{◌≢◌}
use native.Mathlib.Omega.{arith}
use package.o.Prelude.Tests.{◌==◌, if◌then◌else◌}

-- Distinct numbers below a bound are no more than it.
pub injective_le :
    (m n : ℕ) (f : ℕ → ℕ)
    → ((i : ℕ) → i < n → f i < m)
    → ((i j : ℕ) → i < n → j < n → i ≢ j → f i ≢ f j)
    → n ≤ m
injective_le m zero f b d = omega arith
injective_le zero (suc n) f b d = absurd (omega (arith, b 0 (omega arith)))
injective_le (suc m) (suc n) f b d =
    let ih =
      injective_le m n (λ i. if f i == m then f n else f i) (λ i h. ground (arith, b i, b n, d i n))
        (λ i j h k e. ground (arith, d i j, d i n, d j n)) in
    omega (arith, ih)
