-- ===== src/Timestamp.antt =====
-- class Timestamp of timestamp.h and timestamp.cpp: microseconds since the epoch. A time that does
-- not fit an int64_t, which is undefined behaviour in the source, is not told apart here.
pub mod Parts
use network_ydxlib.Base.{ℕ, Bool}
use network_ydxlib.Base.Int.{ℤ, pos, ltb_ℤ, sub_ℤ, add_ℤ, quot, rem, scale}

pub record Timestamp : Type 0 where
  pub micro_seconds_since_epoch : ℤ

abbrev pub micro_seconds_per_sec : ℕ
micro_seconds_per_sec = 1000000

unfoldable pub valid : Timestamp → Bool
valid t = ltb_ℤ (pos 0) t.micro_seconds_since_epoch

unfoldable pub seconds_since_epoch : Timestamp → ℤ
seconds_since_epoch t = quot t.micro_seconds_since_epoch micro_seconds_per_sec

abbrev pub invalid : Timestamp
invalid = record { micro_seconds_since_epoch = pos 0 }

unfoldable pub from_unix_time : (t microseconds : ℤ) → Timestamp
from_unix_time t microseconds = record {
  micro_seconds_since_epoch = add_ℤ (scale t micro_seconds_per_sec) microseconds;
}

-- What `gettimeofday` gives is the argument.
unfoldable pub now : (tv_sec tv_usec : ℤ) → Timestamp
now tv_sec tv_usec = record {
  micro_seconds_since_epoch = add_ℤ (scale tv_sec micro_seconds_per_sec) tv_usec;
}

-- `delta` is `seconds * micro_seconds_per_sec` as an integer; the source computes it in doubles.
unfoldable pub add_time : Timestamp → (delta : ℤ) → Timestamp
add_time t delta = record { micro_seconds_since_epoch = add_ℤ t.micro_seconds_since_epoch delta }

unfoldable pub is_before : Timestamp → Timestamp → Bool
is_before lhs rhs = ltb_ℤ lhs.micro_seconds_since_epoch rhs.micro_seconds_since_epoch

unfoldable pub time_difference_micro : Timestamp → Timestamp → ℤ
time_difference_micro high low =
    quot (sub_ℤ high.micro_seconds_since_epoch low.micro_seconds_since_epoch) 1000

-- The numbers that `to_string` prints, as "%ld.%06ld".
unfoldable pub to_string_parts : Timestamp → ℤ × ℤ
to_string_parts t = (
  quot t.micro_seconds_since_epoch micro_seconds_per_sec,
  rem t.micro_seconds_since_epoch micro_seconds_per_sec,
)
