-- ===== src/BaseBlock/Times.antt =====
-- The time of the last write is converted exactly: no FILETIME reaches the bounds of i64.
use vgi_reghive.Base.{ℕ, ◌*◌, ◌/◌, ◌^◌, ◌<◌, ◌≡◌, arith}
use vgi_reghive.BaseBlock.{filetime_to_unix_micros}
use vgi_reghive.Base.Int.{clamp_i64, as_i64, sat_sub_i64, sub_ℕ}

-- For every 64-bit FILETIME the result is the whole microseconds of its 100-nanosecond ticks less the
-- microseconds between 1601 and 1970: neither the cast to i64 nor the saturating subtraction alters it.
pub filetime_to_unix_micros_exact :
    (ft : ℕ)
    → ft < 2 ^ 64
    → filetime_to_unix_micros ft ≡ sub_ℕ (ft / 10) (11_644_473_600 * 1_000_000)
unfolding filetime_to_unix_micros as_i64 sat_sub_i64 clamp_i64
filetime_to_unix_micros_exact ft h = ground arith
