-- ===== src/Base/Time.antt =====
-- src/base/time.rs: averages of durations, and ticks since the Unix epoch.
-- A `u64` is a number below 2 ^ 64; sums and products of the source wrap, as `wrapping_add mod64`.
pub mod Average
pub mod Unix
mod Examples
use o.Prelude.{
  ℕ, ◌+◌, ◌-◌, ◌*◌, ◌/◌, ◌%◌, ◌^◌, ◌≤◌, ◌<◌, Bool, Option, none, some, Result, ok, err, ltb, leb,
  ◌==◌, ◌&&◌, if◌then◌else◌, mod64, mod32, wrapping_add, wrapping_mul,
}

-- `std::time::Duration`: normalised seconds and nanoseconds.
pub record Duration : Type 0 where
  pub secs : ℕ
  pub nanos : ℕ

abbrev pub nanos_per_sec : ℕ
nanos_per_sec = 1_000_000_000

-- `Duration::average::<N>`, its two locals and its result; the const assertion admits N = 2, 4 or 8. The last line of the source is
-- `Duration::new` at nanoseconds below a second, which stores both parts as they are.
abbrev pub average_secs : ℕ → Duration → Duration → ℕ
average_secs count self sample =
    wrapping_add mod64 (wrapping_mul mod64 (count - 1) (self.secs / count)) (sample.secs / count)

abbrev pub average_nanos : ℕ → Duration → Duration → ℕ
average_nanos count self sample =
    wrapping_add mod64
      (wrapping_mul mod64
        (wrapping_add mod64 (wrapping_mul mod64 (count - 1) (self.secs % count))
          (sample.secs % count))
        (nanos_per_sec / count))
      (wrapping_add mod64 (wrapping_mul mod64 (count - 1) self.nanos) sample.nanos / count)

pub average : ℕ → Duration → Duration → Duration
average count self sample =
    let secs = average_secs count self sample in
    let nanos = average_nanos count self sample in
    record {
      secs = wrapping_add mod64 secs (nanos / nanos_per_sec);
      nanos = (nanos % nanos_per_sec) % mod32;
    }

-- `Duration::as_nanos`, a `u128`
abbrev pub as_nanos : Duration → ℕ
as_nanos d = d.secs * nanos_per_sec + d.nanos

-- A value of `Duration`: its seconds fit `u64`, and its nanoseconds are below a second.
pub record IsDuration (d : Duration) : Type 0 where
  pub secs_in : d.secs < mod64
  pub nanos_in : d.nanos < nanos_per_sec

-- `Positive`, a duration that is not zero.
pub record Positive : Type 0 where
  pub duration : Duration

pub data Zero : Type 0 where
  zero_duration : Zero

pub positive : Duration → Result Zero Positive
positive d =
    if (d.secs == 0) && (d.nanos == 0) then err zero_duration else ok (record { duration = d })

-- The ticks of `Unix<Nanos>`, `Unix<Millis>` or `Unix<Seconds>`.
abbrev pub Ticks : Type 0
Ticks = ℕ

-- `Unix::<Nanos>::nanos`, `u64::try_from(duration.as_nanos()).ok()`
abbrev pub nanos_of : Duration → Option ℕ
nanos_of d = if ltb (as_nanos d) mod64 then some (as_nanos d) else none

-- The errors `Add` and `Sub`: the operands, and which step refused.
pub data Refusal : Type 0 where
  scale : Ticks → Duration → Refusal
  range : Ticks → Duration → Refusal

pub try_add : Ticks → Duration → Result Refusal Ticks
try_add at d = elim (nanos_of d) [
  | none ↦ err (scale at d)
  | some ticks ↦ if ltb (mod64 - 1 - ticks) at then err (range at d) else ok (at + ticks)
]

pub try_sub : Ticks → Duration → Result Refusal Ticks
try_sub at d = elim (nanos_of d) [
  | none ↦ err (scale at d)
  | some ticks ↦ if ltb at ticks then err (range at d) else ok (at - ticks)
]

pub floor_millis : Ticks → Ticks
floor_millis t = t / 1_000_000

pub floor_secs : Ticks → Ticks
floor_secs t = t / 1_000_000_000

-- `Unix::<Millis>::floor_secs`
pub millis_floor_secs : Ticks → Ticks
millis_floor_secs t = t / 1_000
