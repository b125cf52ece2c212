-- ===== src/Base/Time/Unix.antt =====
-- `Unix<Nanos>::try_add` and `try_sub`, and the floors to coarser ticks.
use o.Prelude.{◌+◌, ◌<◌, ◌≡◌, ◌↔◌, ok, arith, mod64}
use o.Base.Time.{
  Duration, Ticks, as_nanos, try_add, try_sub, floor_millis, floor_secs, millis_floor_secs,
}

-- For ticks in range, `try_add` succeeds with `t` exactly when `t` is the true sum and fits 64 bits.
try_add-ok_iff :
    (at t : Ticks) (d : Duration)
    → at < mod64
    → (try_add at d ≡ ok t) ↔ ((t ≡ at + as_nanos d) × (t < mod64))
unfolding try_add
try_add-ok_iff at t d h = ground arith

-- For ticks in range, `try_sub` succeeds with `t` exactly when adding the duration to `t` gives the ticks back.
try_sub-ok_iff :
    (at t : Ticks) (d : Duration) → at < mod64 → (try_sub at d ≡ ok t) ↔ (t + as_nanos d ≡ at)
unfolding try_sub
try_sub-ok_iff at t d h = ground arith

-- Going through milliseconds gives the same seconds.
millis_floor_secs-floor_millis : (t : Ticks) → millis_floor_secs (floor_millis t) ≡ floor_secs t
unfolding floor_millis floor_secs millis_floor_secs
millis_floor_secs-floor_millis t = omega arith
