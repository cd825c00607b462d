-- ===== src/Util.antt =====
-- Timeouts and deadlines of util.rs. A `Duration` is its number of nanoseconds, an `Instant` the
-- nanoseconds of a clock that starts anywhere and that `now` reads.
pub mod Laws
use rust_rdkafka.Prelude.{
  ℕ, suc, ◌+◌, ◌-◌, ◌*◌, ◌/◌, ◌^◌, min, ℤ, pos, negsuc, as_i32, Bool, false, Option, none, some,
  leb, ltb, ◌==◌, if◌then◌else◌,
}

abbrev pub Duration : Type 0
Duration = ℕ

abbrev pub Instant : Type 0
Instant = ℕ

abbrev pub from_millis : ℕ → Duration
from_millis ms = ms * 1_000_000

-- The whole milliseconds of a duration, a u128.
abbrev pub millis : Duration → ℕ
millis d = d / 1_000_000

-- `Duration::MAX`: u64::MAX seconds and 999,999,999 nanoseconds.
abbrev pub duration_max : Duration
duration_max = 2 ^ 64 * 1_000_000_000 - 1

pub data Timeout : Type 0 where
  after : Duration → Timeout
  never : Timeout

unfoldable pub as_millis : Timeout → ℤ
as_millis (after d) = as_i32 (millis d)
as_millis never = negsuc 0

-- `Duration::saturating_sub` stops at zero, as `-` does.
unfoldable pub saturating_sub : Timeout → Duration → Timeout
saturating_sub (after lhs) rhs = after (lhs - rhs)
saturating_sub never rhs = never

unfoldable pub is_zero : Timeout → Bool
is_zero (after d) = d == 0
is_zero never = false

-- `std::cmp::min` by the derived order: durations first, `Never` last.
unfoldable pub min_timeout : Timeout → Timeout → Timeout
min_timeout (after a) (after b) = if leb a b then after a else after b
min_timeout (after a) never = after a
min_timeout never t = t

abbrev pub is_never : Timeout → Bool
is_never never = Bool.true
is_never (after d) = false

-- `From<Option<Duration>>`.
unfoldable pub of_option : Option Duration → Timeout
of_option none = never
of_option (some d) = after d

pub data Deadline : Type 0 where
  at : Instant → Deadline
  unbounded : Deadline

-- The last instant there is: on Unix an `Instant` has its seconds as an i64.
abbrev pub last_instant : Instant
last_instant = 2 ^ 63 * 1_000_000_000 - 1

-- `Deadline::new` at the instant `now`. `Instant + Duration` panics when there is no such instant.
unfoldable pub new : Instant → Option Duration → Option Deadline
new now (some d) = if leb (now + d) last_instant then some (at (now + d)) else none
new now none = some unbounded

-- `Instant - Instant` stops at zero.
unfoldable pub remaining : Deadline → Instant → Duration
remaining (at i) now = i - now
remaining unbounded now = duration_max

abbrev pub max_flush_duration : Duration
max_flush_duration = from_millis (2 ^ 31 - 1)

unfoldable pub remaining_millis_i32 : Deadline → Instant → ℤ
unfolding remaining
remaining_millis_i32 deadline now =
    as_i32 (millis (min max_flush_duration (remaining deadline now)))

unfoldable pub elapsed : Deadline → Instant → Bool
unfolding remaining
elapsed deadline now = leb (remaining deadline now) 0

-- `From<Timeout> for Deadline`, and back.
unfoldable pub deadline_of : Instant → Timeout → Option Deadline
unfolding new
deadline_of now (after d) = new now (some d)
deadline_of now never = new now none

unfoldable pub timeout_of : Deadline → Instant → Timeout
unfolding remaining
timeout_of unbounded now = never
timeout_of (at i) now = after (remaining (at i) now)

-- `millis_to_epoch` of a time before (`none`) or after the epoch; the cast is `as i64`.
unfoldable pub millis_to_epoch : Option Duration → ℤ
millis_to_epoch none = pos 0
millis_to_epoch (some since) =
    let m = millis since in if ltb m (2 ^ 63) then pos m else negsuc (2 ^ 64 - 1 - m)
