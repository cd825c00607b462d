-- ===== src/Producer/ErrorLaws.antt =====
-- The errors that a producer's context is told of.
use rust_rdkafka.Prelude.{
  ℕ, ◌≡◌, refl, ap, inl, inr, Bool, Option, some, List, [], ◌∷◌, ◌++◌, Bool-cases, Option-cases,
  arith, String,
}
use mathlib.Core.List.{append_assoc}
use rust_rdkafka.Codes.Convert.{to_error_code}
use rust_rdkafka.Error.Defs.{KafkaError, global}
use rust_rdkafka.Util.{Deadline, elapsed}
use rust_rdkafka.Message.Headers.{NativeHeaders}
use rust_rdkafka.Message.Defs.{NativeMessage}
use rust_rdkafka.Client.Events.{
  Event, dr, error, Callback, on_delivery, on_error, on_log, on_stats_raw, on_oauth_refresh,
  on_rebalance, on_commit, handle_log_event, handle_error_event, poll_event,
}
use rust_rdkafka.Producer.Poll.{
  Round, handle_delivery_report_event, handle_error_event as handle_producer_error, serve,
  poll_until,
}

module _ {native : NativeHeaders} where
  -- The errors among callbacks, and those that the events of the rounds carry, each of them twice.
  abbrev pub told : List (Callback native) → List (KafkaError × String)
  told [] = []
  told (on_error e reason ∷ cs) = (e, reason) ∷ told cs
  told (_ ∷ cs) = told cs

  abbrev pub twice_of : Option (Event native) → List (KafkaError × String)
  twice_of (some (error e reason fatal partition)) =
      (global (to_error_code e), reason) ∷ (global (to_error_code e), reason) ∷ []
  twice_of _ = []

  abbrev pub twice : List (Round native) → List (KafkaError × String)
  twice [] = []
  twice (r ∷ rs) = twice_of r.polled ++ twice rs

  told-append : (cs ds : List (Callback native)) → told (cs ++ ds) ≡ told cs ++ told ds
  told-append [] ds = refl
  told-append (on_error e reason ∷ cs) ds = ap (◌∷◌ (e, reason)) (told-append cs ds)
  told-append (on_log _ _ _ ∷ cs) ds = told-append cs ds
  told-append (on_stats_raw _ ∷ cs) ds = told-append cs ds
  told-append (on_delivery _ _ ∷ cs) ds = told-append cs ds
  told-append (on_oauth_refresh _ ∷ cs) ds = told-append cs ds
  told-append (on_rebalance _ _ ∷ cs) ds = told-append cs ds
  told-append (on_commit _ _ ∷ cs) ds = told-append cs ds

  told-reports :
      (ms : List (NativeMessage native × ℕ)) → told (handle_delivery_report_event ms) ≡ []
  unfolding handle_delivery_report_event
  told-reports [] = refl
  told-reports (m ∷ ms) = told-reports ms

  told-serve :
      (refresh : Bool) (polled : Option (Event native))
      → told (serve refresh polled) ≡ twice_of polled
  unfolding serve poll_event handle_log_event handle_error_event handle_producer_error
  told-serve refresh (some (dr ms)) = told-reports ms
  told-serve refresh polled = ground arith

  -- A producer's poll that returns has told the context of each error event that it took from the queue
  -- twice in a row, and of no other error.
  pub poll_until-errors :
      (refresh : Bool) (deadline : Deadline) (rounds : List (Round native))
      (cs : List (Callback native)) (rest : List (Round native))
      → poll_until refresh deadline rounds ≡ some (cs, rest)
      → told cs ++ twice rest ≡ twice rounds
  unfolding poll_until
  poll_until-errors refresh deadline [] cs rest h = absurd (ground arith)
  poll_until-errors refresh deadline (r ∷ rounds) cs rest h =
      elim (Bool-cases (elapsed deadline r.now)) [
        | inl over ↦
            let e_cs : cs ≡ serve refresh r.polled = ground arith in
            let e_rest : rest ≡ rounds = ground arith in
            rw (e_cs, e_rest, told-serve refresh r.polled) refl
        | inr early ↦ elim (Option-cases (poll_until refresh deadline rounds)) [
          | inl e_none ↦ absurd (ground arith)
          | inr ((ds, q), e_some) ↦
              let e_cs : cs ≡ serve refresh r.polled ++ ds = ground arith in
              let e_rest : rest ≡ q = ground arith in
              grind (
                arith,
                append_assoc,
                poll_until-errors refresh deadline rounds ds q e_some,
                told-serve refresh r.polled,
                told-append (serve refresh r.polled) ds,
              )
        ]
      ]
