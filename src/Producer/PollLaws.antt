-- ===== src/Producer/PollLaws.antt =====
-- The callbacks of a producer's poll, when polls and flushes return, and commits after flushes.
use mathlib.Core.List.{append_assoc}
use rust_rdkafka.Prelude.{
  ℕ, ◌+◌, ◌≡◌, ◌≢◌, ◌≤◌, refl, inl, inr, ap, Bool, true, Option, none, some, List, [], ◌∷◌, ◌++◌,
  Bool-cases, Option-cases, arith,
}
use rust_rdkafka.Util.{
  after, never, Instant, Duration, Deadline, at, deadline_of, last_instant, new, remaining, elapsed,
}
use rust_rdkafka.Message.Headers.{NativeHeaders}
use rust_rdkafka.Message.Defs.{NativeMessage, DeliveryResult, from_dr_event}
use rust_rdkafka.Client.Events.{
  Event, dr, Callback, on_delivery, on_error, on_log, on_stats_raw, on_oauth_refresh, on_rebalance,
  on_commit, handle_log_event, poll_event,
}
use rust_rdkafka.Producer.Poll.{Round, handle_delivery_report_event, serve, poll_until, poll}

at_elapsed :
    (start : Instant) (d : Duration) (now : Instant)
    → start + d ≤ now
    → elapsed (at (start + d)) now ≡ true
unfolding elapsed remaining
at_elapsed start d now h = ground arith

module _ {native : NativeHeaders} where
  -- The deliveries among callbacks, and those that the events of the rounds carry.
  abbrev pub deliveries : List (Callback native) → List (DeliveryResult native × ℕ)
  deliveries [] = []
  deliveries (on_delivery d p ∷ cs) = (d, p) ∷ deliveries cs
  deliveries (_ ∷ cs) = deliveries cs

  abbrev pub reports : List (NativeMessage native × ℕ) → List (DeliveryResult native × ℕ)
  reports [] = []
  reports (m ∷ ms) = (from_dr_event m.0, m.1) ∷ reports ms

  abbrev pub reports_of : Option (Event native) → List (DeliveryResult native × ℕ)
  reports_of (some (dr ms)) = reports ms
  reports_of _ = []

  abbrev pub reported : List (Round native) → List (DeliveryResult native × ℕ)
  reported [] = []
  reported (r ∷ rs) = reports_of r.polled ++ reported rs

  deliveries-append :
      (cs ds : List (Callback native)) → deliveries (cs ++ ds) ≡ deliveries cs ++ deliveries ds
  deliveries-append [] ds = refl
  deliveries-append (on_delivery d p ∷ cs) ds = ap (◌∷◌ (d, p)) (deliveries-append cs ds)
  deliveries-append (on_log _ _ _ ∷ cs) ds = deliveries-append cs ds
  deliveries-append (on_stats_raw _ ∷ cs) ds = deliveries-append cs ds
  deliveries-append (on_error _ _ ∷ cs) ds = deliveries-append cs ds
  deliveries-append (on_oauth_refresh _ ∷ cs) ds = deliveries-append cs ds
  deliveries-append (on_rebalance _ _ ∷ cs) ds = deliveries-append cs ds
  deliveries-append (on_commit _ _ ∷ cs) ds = deliveries-append cs ds

  deliveries-reports :
      (ms : List (NativeMessage native × ℕ))
      → deliveries (handle_delivery_report_event ms) ≡ reports ms
  unfolding handle_delivery_report_event
  deliveries-reports [] = refl
  deliveries-reports (m ∷ ms) = ap (◌∷◌ (from_dr_event m.0, m.1)) (deliveries-reports ms)

  deliveries-serve :
      (refresh : Bool) (polled : Option (Event native))
      → deliveries (serve refresh polled) ≡ reports_of polled
  unfolding serve poll_event handle_log_event
  deliveries-serve refresh (some (dr ms)) = deliveries-reports ms
  deliveries-serve refresh polled = ground arith

  -- A producer's poll that returns has called `delivery` once for each message of the delivery reports
  -- that it took from the queue, in order, with the message's result and its opaque.
  pub poll_until-deliveries :
      (refresh : Bool) (deadline : Deadline) (rounds : List (Round native))
      (cs : List (Callback native)) (rest : List (Round native))
      → poll_until refresh deadline rounds ≡ some (cs, rest)
      → deliveries cs ++ reported rest ≡ reported rounds
  unfolding poll_until
  poll_until-deliveries refresh deadline [] cs rest h = absurd (ground arith)
  poll_until-deliveries refresh deadline (r ∷ rounds) cs rest h =
      elim (Bool-cases (elapsed deadline r.now)) [
        | inl over ↦
            let e_cs : cs ≡ serve refresh r.polled = ground arith in
            let e_rest : rest ≡ rounds = ground arith in
            rw (e_cs, e_rest, deliveries-serve refresh r.polled) refl
        | inr early ↦ elim (Option-cases (poll_until refresh deadline rounds)) [
          | inl e_none ↦ absurd (ground arith)
          | inr ((ds, q), e_some) ↦
              let ih = poll_until-deliveries refresh deadline rounds ds q e_some in
              let e_cs : cs ≡ serve refresh r.polled ++ ds = ground arith in
              let e_rest : rest ≡ q = ground arith in
              grind (
                arith,
                append_assoc,
                ih,
                deliveries-serve refresh r.polled,
                deliveries-append (serve refresh r.polled) ds,
              )
        ]
      ]

  poll_until_ends :
      (refresh : Bool) (deadline : Deadline) (before : List (Round native)) (last : Round native)
      (rest : List (Round native))
      → elapsed deadline last.now ≡ true
      → poll_until refresh deadline (before ++ last ∷ rest) ≢ none
  unfolding poll_until
  poll_until_ends refresh deadline [] last rest h = ground arith
  poll_until_ends refresh deadline (r ∷ before) last rest h =
      let ih = poll_until_ends refresh deadline before last rest h in ground (arith, ih)

  -- A poll with a timeout returns once the queue answers at the deadline or after it, at an instant of
  -- the clock.
  pub poll_returns :
      (refresh : Bool) (start : Instant) (d : Duration) (before : List (Round native))
      (last : Round native) (rest : List (Round native))
      → start + d ≤ last.now
      → last.now ≤ last_instant
      → poll refresh start (after d) (before ++ last ∷ rest) ≢ none
  unfolding poll deadline_of new
  poll_returns refresh start d before last rest h there =
      let ends =
        poll_until_ends refresh (at (start + d)) before last rest (at_elapsed start d last.now h) in
      ground (arith, ends)

  -- A poll with no timeout does not return, whatever the queue answers.
  pub poll_never_returns :
      (refresh : Bool) (start : Instant) (rounds : List (Round native))
      → poll refresh start never rounds ≡ none
  unfolding poll deadline_of new poll_until elapsed
  poll_never_returns refresh start [] = refl
  poll_never_returns refresh start (r ∷ rs) =
      let ih = poll_never_returns refresh start rs in ground arith
