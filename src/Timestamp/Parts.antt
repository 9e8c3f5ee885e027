-- ===== src/Timestamp/Parts.antt =====
-- Timestamp: its seconds and microseconds.
use network_ydxlib.Base.{ℕ, ◌+◌, ◌*◌, ◌<◌, ◌≡◌, arith, ap}
use network_ydxlib.Base.Int.{ℤ, pos, negsuc, add_ℤ, scale, quot, rem, difference}
use network_ydxlib.Timestamp.{
  Timestamp, from_unix_time, seconds_since_epoch, to_string_parts, time_difference_micro,
}

-- A time made of seconds and less than a million microseconds, neither negative, gives both back,
-- in `seconds_since_epoch` and in what `to_string` prints.
pub from_unix_time-parts :
    (t u : ℕ)
    → u < 1000000
    → (seconds_since_epoch (from_unix_time (pos t) (pos u)) ≡ pos t)
      × (to_string_parts (from_unix_time (pos t) (pos u)) ≡ (pos t, pos u))
unfolding from_unix_time seconds_since_epoch to_string_parts
from_unix_time-parts t u h = ground arith

quot-rem : (z : ℤ) → add_ℤ (scale (quot z 1000000) 1000000) (rem z 1000000) ≡ z
quot-rem (pos n) = ground arith
quot-rem (negsuc n) = ground arith

-- The seconds and microseconds that `to_string` prints make up the time, before the epoch too.
pub to_string_parts_lem : (t : Timestamp) → let (s, u) = to_string_parts t in from_unix_time s u ≡ t
unfolding from_unix_time to_string_parts
to_string_parts_lem t =
    ap (λ (z : ℤ). record { micro_seconds_since_epoch = z }) (quot-rem t.micro_seconds_since_epoch)

-- The difference of two times from the epoch on is in whole milliseconds, and what is left of a
-- millisecond is dropped; it is negative only from a millisecond on.
pub time_difference_micro_lem :
    (a k r : ℕ)
    → r < 1000
    → (time_difference_micro
          (from_unix_time (pos 0) (pos (a + (1000 * k + r))))
          (from_unix_time (pos 0) (pos a))
        ≡ pos k)
      × (time_difference_micro
            (from_unix_time (pos 0) (pos a))
            (from_unix_time (pos 0) (pos (a + (1000 * k + r))))
          ≡ difference 0 k)
unfolding time_difference_micro from_unix_time
time_difference_micro_lem a k r h = ground arith
