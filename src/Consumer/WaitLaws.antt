-- ===== src/Consumer/WaitLaws.antt =====
-- How long a poll of a consumer waits at a time.
use rust_rdkafka.Prelude.{
  Bool, ◌≡◌, sym, ◌≤◌, ◌⊎◌, inl, inr, some, List, [], ◌∷◌, All, arith, Option-cases,
}
use mathlib.Core.Path.{subst}
use rust_rdkafka.Util.{Duration, Timeout, after, never, min_timeout, saturating_sub}
use rust_rdkafka.TopicPartitionList.Native.{Tpl}
use rust_rdkafka.Message.Headers.{NativeHeaders}
use rust_rdkafka.Client.Events.{poll_event}
use rust_rdkafka.Consumer.Poll.{
  Answer, Polled, continue, turn, handle_event, handle_fetch_event, poll_loop, poll_queue,
}
use rust_rdkafka.Consumer.PollLaws.{Turn-cases}

-- A timeout is no longer than another.
abbrev pub IsWithin : Timeout → Timeout → Type 0
IsWithin t never = Unit
IsWithin never (after d) = ⊥
IsWithin (after c) (after d) = c ≤ d

IsWithin-min_timeout :
    (t interval initial : Timeout)
    → IsWithin t initial
    → IsWithin (min_timeout t interval) interval × IsWithin (min_timeout t interval) initial
unfolding min_timeout
IsWithin-min_timeout t never never h = (tt, tt)
IsWithin-min_timeout (after a) never (after c) h = (tt, h)
IsWithin-min_timeout (after a) (after b) never h = (ground arith, tt)
IsWithin-min_timeout never (after b) never h = (ground arith, tt)
IsWithin-min_timeout (after a) (after b) (after c) h = (ground arith, ground arith)
IsWithin-min_timeout never interval (after c) h = absurd h

IsWithin-saturating_sub :
    (initial : Timeout) (d : Duration) → IsWithin (saturating_sub initial d) initial
unfolding saturating_sub
IsWithin-saturating_sub never d = tt
IsWithin-saturating_sub (after c) d = omega arith

IsWithin-refl : (t : Timeout) → IsWithin t t
IsWithin-refl never = tt
IsWithin-refl (after c) = omega arith

module _ {native : NativeHeaders} (refresh : Bool) (interval : Timeout) (empty : Tpl)
    (initial : Timeout) where
  -- The timeout of the next turn is that of this one, or what is left of the first.
  turn_continues :
      (timeout t : Timeout) (a : Answer native)
      → (turn refresh interval empty initial timeout a).1 ≡ continue t
      → (t ≡ timeout) ⊎ (t ≡ saturating_sub initial a.elapsed)
  unfolding turn poll_event handle_event handle_fetch_event
  turn_continues timeout t a h = ground arith

  turn-IsWithin :
      (timeout t : Timeout) (a : Answer native)
      → IsWithin timeout initial
      → (turn refresh interval empty initial timeout a).1 ≡ continue t
      → IsWithin t initial
  turn-IsWithin timeout t a h e = elim (turn_continues timeout t a e) [
    | inl same ↦ subst (λ x. IsWithin x initial) (sym same) h
    | inr left ↦
        subst (λ x. IsWithin x initial) (sym left) (IsWithin-saturating_sub initial a.elapsed)
  ]

  poll_loop-waits :
      (answers : List (Answer native)) (timeout : Timeout) (p : Polled native)
      → IsWithin timeout initial
      → poll_loop refresh interval empty initial timeout answers ≡ some p
      → All (λ w. IsWithin w interval × IsWithin w initial) p.timeouts
  unfolding poll_loop
  poll_loop-waits [] timeout p h e = ground (arith, e)
  poll_loop-waits (a ∷ rest) timeout p h e =
      let here = IsWithin-min_timeout timeout interval initial h in
      elim (Turn-cases (turn refresh interval empty initial timeout a).1) [
        | inl (r, ret) ↦
            let one : p.timeouts ≡ min_timeout timeout interval ∷ [] = ground arith in
            subst (All _) (sym one) (here, tt)
        | inr (t, goes) ↦ elim (Option-cases (poll_loop refresh interval empty initial t rest)) [
          | inl e_none ↦ absurd (ground arith)
          | inr (q, e_some) ↦
              let more : p.timeouts ≡ min_timeout timeout interval ∷ q.timeouts = ground arith in
              subst (All _) (sym more)
                (here, poll_loop-waits rest t q (turn-IsWithin timeout t a h goes) e_some)
        ]
      ]

  -- If a poll of a consumer returns, no timeout that it polled librdkafka's queue with was longer than the
  -- interval of its context or longer than the timeout of the poll.
  pub poll_queue-waits :
      (answers : List (Answer native)) (p : Polled native)
      → poll_queue refresh interval empty initial answers ≡ some p
      → All (λ w. IsWithin w interval × IsWithin w initial) p.timeouts
  unfolding poll_queue
  poll_queue-waits answers p e = poll_loop-waits answers initial p (IsWithin-refl initial) e
