-- ===== src/Producer/Poll.antt =====
-- `BaseProducer::poll`, `flush` and the transactions. What librdkafka and
-- the clock answer comes in as a list of rounds.
use rust_rdkafka.Prelude.{
  ℕ, String, Bool, true, false, Option, none, some, List, [], ◌∷◌, ◌++◌, min, map_option,
  if◌then◌else◌,
}
use rust_rdkafka.Codes.RespErr.{RespErr}
use rust_rdkafka.Codes.Convert.{to_error_code}
use rust_rdkafka.Error.Defs.{
  KafkaResult, ok, err, flush, global, transaction, RdKafkaError, is_error_native,
}
use rust_rdkafka.Util.{
  Timeout, Instant, Duration, Deadline, deadline_of, remaining, elapsed, from_millis,
}
use rust_rdkafka.Message.Headers.{NativeHeaders}
use rust_rdkafka.Message.Defs.{NativeMessage, from_dr_event}
use rust_rdkafka.Client.Events.{
  Event, dr, error, Callback, on_delivery, on_error, event, poll_event,
}

-- One poll of the queue: what it returned and the time then.
pub record Round (native : NativeHeaders) : Type 0 where
  pub polled : Option (Event native)
  pub now : Instant

module _ {native : NativeHeaders} where
  unfoldable pub handle_delivery_report_event :
      List (NativeMessage native × ℕ) → List (Callback native)
  unfolding from_dr_event
  handle_delivery_report_event [] = []
  handle_delivery_report_event (m ∷ ms) =
      on_delivery (from_dr_event m.0) m.1 ∷ handle_delivery_report_event ms

  unfoldable pub handle_error_event : RespErr → String → List (Callback native)
  handle_error_event e reason = on_error (global (to_error_code e)) reason ∷ []

  -- The callbacks of one round of the loop.
  unfoldable pub serve : Bool → Option (Event native) → List (Callback native)
  unfolding poll_event handle_delivery_report_event handle_error_event
  serve refresh polled =
      let seen = poll_event refresh polled in
      elim seen.1 [
        | event (dr messages) ↦ seen.0 ++ handle_delivery_report_event messages
        | event (error e reason fatal partition) ↦ seen.0 ++ handle_error_event e reason
        | other ↦ seen.0
      ]

  -- What came before in the loop.
  abbrev pub more :
      List (Callback native)
      → List (Callback native) × List (Round native)
      → List (Callback native) × List (Round native)
  more cs (ds, rest) = (cs ++ ds, rest)

  -- The callbacks, and the rounds that were not asked for; `none` while it has not returned.
  unfoldable pub poll_until :
      Bool → Deadline → List (Round native) → Option (List (Callback native) × List (Round native))
  unfolding serve elapsed
  poll_until refresh deadline [] = none
  poll_until refresh deadline (r ∷ rest) =
      let again = poll_until refresh deadline rest in
      if elapsed deadline r.now
      then some (serve refresh r.polled, rest)
      else map_option (more (serve refresh r.polled)) again

  -- `poll` called at `start`; `none` is also the panic of a deadline that is no instant.
  unfoldable pub poll :
      Bool
      → Instant
      → Timeout
      → List (Round native)
      → Option (List (Callback native) × List (Round native))
  unfolding deadline_of poll_until
  poll refresh start timeout rounds = elim (deadline_of start timeout) [
    | none ↦ none
    | some deadline ↦ poll_until refresh deadline rounds
  ]

-- One turn of `flush`: the code of `rd_kafka_flush`, the time of the check of the deadline, and the
-- time when the poll begins.
pub record Turn : Type 0 where
  pub code : RespErr
  pub now : Instant
  pub polls_at : Instant

-- The result and the timeouts of the calls of `poll`; `none` while it has not returned. The calls
-- of `poll` return, by `poll_returns`.
unfoldable pub flush_until : Deadline → List Turn → Option (KafkaResult (Unit {0}) × List Duration)
unfolding elapsed remaining
flush_until deadline [] = none
flush_until deadline (t ∷ turns) =
    let again = flush_until deadline turns in
    elim t.code [
      | RespErr.no_error ↦ some (ok tt, [])
      | RespErr.timed_out ↦
          if elapsed deadline t.now
          then some (err (flush (to_error_code RespErr.timed_out)), [])
          else map_option (λ r. (r.0, min (remaining deadline t.polls_at) (from_millis 100) ∷ r.1))
              again
      | e ↦ some (err (flush (to_error_code e)), [])
    ]

unfoldable pub flush_at :
    Instant → Timeout → List Turn → Option (KafkaResult (Unit {0}) × List Duration)
unfolding deadline_of flush_until
flush_at start timeout turns = elim (deadline_of start timeout) [
  | none ↦ none
  | some deadline ↦ flush_until deadline turns
]

-- `init_transactions`, `begin_transaction`, `send_offsets_to_transaction` and `abort_transaction`,
-- of what librdkafka returned.
unfoldable pub transaction_result : RdKafkaError → KafkaResult (Unit {0})
unfolding is_error_native
transaction_result ret = elim (is_error_native ret) [ true ↦ err (transaction ret) | false ↦ ok tt ]

-- `commit_transaction`: the flush, and the result of the call, with whether it was made.
unfoldable pub commit_transaction :
    Instant → Timeout → List Turn → RdKafkaError → Option (KafkaResult (Unit {0}) × Bool)
unfolding flush_at transaction_result
commit_transaction start timeout turns ret =
    let flushed = flush_at start timeout turns in
    elim flushed [
      | none ↦ none
      | some (ok u, _) ↦ some (transaction_result ret, true)
      | some (err e, _) ↦ some (err e, false)
    ]
