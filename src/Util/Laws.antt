-- ===== src/Util/Laws.antt =====
-- What the timeouts that reach librdkafka stand for, and the two ways of counting time down.
use rust_rdkafka.Prelude.{ℕ, ◌+◌, ◌-◌, ◌*◌, ◌^◌, ◌<◌, pos, some, ◌≡◌, ◌≢◌, arith, min}
use rust_rdkafka.Util.{
  Timeout, after, never, Duration, Instant, Deadline, millis, as_millis, saturating_sub, is_zero,
  remaining, new, remaining_millis_i32, elapsed, deadline_of, timeout_of, from_millis,
}

-- A timeout of fewer than 2^31 milliseconds reaches librdkafka as its whole milliseconds, and then
-- -1, which librdkafka reads as "wait for ever", stands for `Timeout::Never` alone.
pub as_millis_exact :
    (d : Duration)
    → millis d < 2 ^ 31
    → (as_millis (after d) ≡ pos (millis d)) × (as_millis (after d) ≢ as_millis never)
unfolding as_millis
as_millis_exact d h = ground arith

-- A finite timeout one millisecond short of a multiple of 2^32 reaches librdkafka as -1, the
-- number of `Timeout::Never`: the call waits without bound.
pub as_millis_wraps :
    (k : ℕ) → as_millis (after (from_millis (k * 2 ^ 32 + (2 ^ 32 - 1)))) ≡ as_millis never
unfolding as_millis
as_millis_wraps k = ground arith

-- The producers' deadline and the consumers' saturating subtraction agree: what is left of a
-- timeout after `e` nanoseconds is the same, and one counts as elapsed when the other is zero.
pub timeout_of-deadline_of :
    (t : Timeout) (now e : ℕ) (deadline : Deadline)
    → deadline_of now t ≡ some deadline
    → (timeout_of deadline (now + e) ≡ saturating_sub t e)
      × (elapsed deadline (now + e) ≡ is_zero (saturating_sub t e))
unfolding timeout_of deadline_of new elapsed saturating_sub is_zero
timeout_of-deadline_of (after d) now e deadline h = ground arith
timeout_of-deadline_of never now e deadline h = ground arith

-- The milliseconds that remain to a deadline, as an i32: exact up to i32::MAX, which stands for
-- all longer times, `Duration::MAX` included.
pub remaining_millis_i32-eq-min :
    (d : Deadline) (now : Instant)
    → remaining_millis_i32 d now ≡ pos (min (2 ^ 31 - 1) (millis (remaining d now)))
unfolding remaining_millis_i32
remaining_millis_i32-eq-min d now = ground arith
