-- ===== src/Base/Num/Laws.antt =====
-- The bounded integers keep their bounds and their values.
use o.Prelude.{refl, ℕ, ◌+◌, ◌-◌, ◌≤◌, ◌<◌, ◌≡◌, ◌≢◌, ◌↔◌, some, ok, err, arith, mod32, mod64}
use o.Base.Num.{Epoch, Generation, initial_generation, epoch_add, next_generation}
use o.Base.Num.U32
use o.Base.Num.U32.{U32, NonZeroU32, Overflow, IsU32, IsNonZeroU32}
use o.Base.Num.Size
use o.Base.Num.U64
use o.Base.Num.U64.{U64}
use o.Base.Num.Size.{Usize, NonZeroUsize}

-- For bounds that fit 32 bits, `from_usize` accepts exactly the values in the range, and keeps them.
pub from_usize-some_iff :
    (min max value : ℕ) (v : U32 min max)
    → max < mod32
    → (U32.from_usize min max value ≡ some v) ↔ ((min ≤ value) × (value ≤ max) × (v.value ≡ value))
unfolding U32.from_usize
from_usize-some_iff min max value v h = ground arith

-- For a range that is not empty and fits 32 bits, `clamp` yields the nearest value of the range: it is
-- in bounds, and no value of the range is closer to the argument.
clamp_nearest :
    (min max value x : ℕ)
    → min ≤ max
    → max < mod32
    → min ≤ x
    → x ≤ max
    → IsU32 (U32.clamp min max value)
      × ((value - (U32.clamp min max value).value) + ((U32.clamp min max value).value - value)
          ≤ (value - x) + (x - value))
unfolding U32.clamp
clamp_nearest min max value x h k l u = ground arith

-- For a maximum that fits 32 bits, `try_usize` accepts exactly the values up to it, unchanged, and in
-- every other case yields the overflow whose `actual` is the value and whose excess is not zero.
try_usize_total :
    (max value : ℕ) (v : U32 0 max) (e : Overflow max)
    → max < mod32
    → ((U32.try_usize max value ≡ ok v) ↔ ((value ≤ max) × (v.value ≡ value)))
      × ((U32.try_usize max value ≡ err e) ↔ ((U32.actual max e ≡ value) × (e.excess ≢ 0)))
unfolding U32.try_usize U32.actual
try_usize_total max value v e h = (ground arith, ground arith)

-- Differences, prefixes, widened values and indices of positions stay in their bounds, each under
-- the source's const assertion on the bounds and for arguments in bounds.
pub derived_IsU32 :
    (min max low high end value : ℕ) (a b : U32 min max) (c : U32 0 max) (p : NonZeroU32 min max)
    → max < mod32
    → IsU32 a
    → IsU32 b
    → IsU32 c
    → IsNonZeroU32 p
    → low ≤ min
    → max ≤ high
    → max - 1 ≤ end
    → IsU32 (U32.abs_diff min max a b)
      × IsU32 (U32.prefix max value c)
      × IsU32 (U32.widen min max low high a)
      × IsU32 (U32.into_u32 min max p)
      × IsU32 (U32.into_index min max end p)
unfolding U32.abs_diff U32.prefix U32.widen U32.into_u32 U32.into_index
derived_IsU32 min max low high end value a b c p h ha hb hc hp hl hh he = ground arith

-- A position is accepted exactly when it is in the range, which starts above zero, and then
-- its index is one less.
pub nonzero_from_usize-some_iff :
    (min max end value : ℕ) (p : NonZeroU32 min max)
    → 1 ≤ min
    → max < mod32
    → (U32.nonzero_from_usize min max value ≡ some p) ↔ (
        (min ≤ value)
        × (value ≤ max)
        × ((U32.into_index min max end p).value + 1 ≡ value)
        × (p.position ≢ 0))
unfolding U32.nonzero_from_usize U32.into_index
nonzero_from_usize-some_iff min max end value p h k = ground arith

-- On counts in bounds, `try_add` yields a count exactly when it is the sum and within the maximum,
-- and in every other case reports the two operands and the maximum.
try_add_total :
    (max incoming : ℕ) (v w : Usize max) (e : Size.Error)
    → v.value ≤ max
    → ((Size.try_add max v incoming ≡ ok w)
        ↔ ((w.value ≡ v.value + incoming) × (v.value + incoming ≤ max)))
      × ((Size.try_add max v incoming ≡ err e) ↔ (
          (max < v.value + incoming)
          × (e ≡ record { value = v.value; incoming = incoming; maximum = max })))
unfolding Size.try_add
try_add_total max incoming v w e h = (ground arith, ground arith)

-- `after` yields a nonzero count exactly below the capacity, and `prior` takes it back.
pub after-some_iff :
    (max : ℕ) (capacity n : NonZeroUsize 1 max) (v : Usize max)
    → (Size.after max capacity v ≡ some n)
      ↔ ((v.value < capacity.count) × (n.count ≢ 0) × (Size.prior 1 max n ≡ v))
unfolding Size.after Size.prior
after-some_iff max capacity n v = ground arith

-- An epoch never wraps: an addition succeeds exactly when the true sum fits 64 bits, and then an
-- epoch that was not zero stays so.
epoch_add-some_iff :
    (e f : Epoch) (value : ℕ)
    → e.value ≢ 0
    → (epoch_add e value ≡ some f)
      ↔ ((f.value ≡ e.value + value) × (f.value < mod64) × (f.value ≢ 0))
unfolding epoch_add
epoch_add-some_iff e f value h = ground arith

-- A generation within its maximum has a successor exactly below the maximum, which is the next
-- number and within the maximum too; the initial generation is zero.
pub next_generation-some_iff :
    (max : ℕ) (g f : Generation max)
    → g.value ≤ max
    → ((next_generation max g ≡ some f) ↔ ((f.value ≡ g.value + 1) × (f.value ≤ max)))
      × ((initial_generation max).value ≡ 0)
unfolding next_generation initial_generation
next_generation-some_iff max g f h = (ground arith, ground arith)

-- `U64::new` and `U64::from_usize` accept the same values, those in the range, and keep them; and
-- for bounds that start at zero a difference is accepted exactly if it does not wrap, and is the
-- true one within the same maximum.
pub u64_bounded :
    (min max value : ℕ) (v : U64 min max) (a b : U64 0 max)
    → a.value ≤ max
    → ((U64.from_usize min max value ≡ some v)
        ↔ ((min ≤ value) × (value ≤ max) × (v.value ≡ value)))
      × (U64.new min max value ≡ U64.from_usize min max value)
      × ((U64.bounded_sub max a value ≡ some b) ↔ ((b.value + value ≡ a.value) × (b.value ≤ max)))
unfolding U64.from_usize U64.new U64.bounded_sub
u64_bounded min max value v a b h = (ground arith, refl, ground arith)
