-- ===== src/Examples/Producers.antt =====
-- Uses of the theorems on producers.
use rust_rdkafka.Prelude.{
  ℕ, ◌≡◌, ◌≢◌, refl, true, false, none, some, List, [], ◌∷◌, ◌++◌, arith, codes_contain, ◌⊎◌,
}
use rust_rdkafka.Codes.RespErr.{RespErr}
use rust_rdkafka.Codes.Convert.{to_error_code}
use rust_rdkafka.Error.Defs.{is_error, KafkaError, KafkaResult, ok, err}
use rust_rdkafka.Util.{after, at}
use rust_rdkafka.Message.Headers.{Bytes}
use rust_rdkafka.Client.Events.{dr, Callback}
use rust_rdkafka.Producer.Record.{BaseRecord}
use rust_rdkafka.Producer.Send.{Call, Attempt, can_retry, send_loop}
use rust_rdkafka.Producer.SendLaws.{Outcome, send_loop-Outcome, send_loop_ends}
use rust_rdkafka.Producer.Poll.{
  Round, poll_until, poll, Turn, flush_until, flush_at, commit_transaction, transaction_result,
}
use rust_rdkafka.Producer.PollLaws.{deliveries, reported, poll_until-deliveries, poll_returns}
use rust_rdkafka.Producer.FlushLaws.{Flushed, flush_until-Flushed, commit_after_flush}
use rust_rdkafka.Examples.Instances.{hdrs, number}
use rust_rdkafka.Examples.Consumers.{message}

abbrev pub bytes : Bytes → Bytes
bytes b = b

abbrev pub base : BaseRecord Bytes Bytes (hdrs.Hdrs) ℕ
base = record {
  topic = "t";
  partition = none;
  payload = some (1 ∷ []);
  key = none;
  timestamp = none;
  headers = none;
  delivery_opaque = 42;
}

abbrev pub full : Call (hdrs.Hdrs) → RespErr
full c = RespErr.queue_full

abbrev pub accepts : Call (hdrs.Hdrs) → RespErr
accepts c = RespErr.no_error

abbrev attempts : List (Attempt (hdrs.Hdrs))
attempts =
    record { producev = full; elapsed = 10 } ∷ record { producev = accepts; elapsed = 110 } ∷ []

second_accepts : send_loop hdrs bytes bytes number (after 200) 0 base attempts ≡ some (ok 1)
unfolding send_loop codes_contain to_error_code is_error
second_accepts = refl

send_loop-Outcome_example : Outcome hdrs bytes bytes number (after 200) 0 base attempts (ok 1)
send_loop-Outcome_example =
    send_loop-Outcome hdrs bytes bytes number attempts (after 200) 0 base (ok 1) second_accepts

abbrev too_late : Attempt (hdrs.Hdrs)
too_late = record { producev = full; elapsed = 300 }

no_retry : can_retry (after 200) 300 ≡ false
unfolding can_retry
no_retry = refl

send_loop_ends_example :
    send_loop hdrs bytes bytes number (after 200) 0 base (attempts ++ too_late ∷ []) ≢ none
send_loop_ends_example =
    send_loop_ends hdrs bytes bytes number attempts too_late [] (after 200) 0 base no_retry

abbrev rounds : List (Round hdrs)
rounds =
    record { polled = some (dr ((message, 42) ∷ [])); now = 30 }
    ∷ record { polled = none; now = 100 }
    ∷ []

abbrev called : List (Callback hdrs)
unfolding poll_until
called = elim (poll_until false (at 100) rounds) [ some (cs, rest) ↦ cs | none ↦ [] ]

polled_is : poll_until false (at 100) rounds ≡ some (called, [])
unfolding poll_until
polled_is = refl

poll_until-deliveries_example : deliveries called ++ reported {native = hdrs} [] ≡ reported rounds
poll_until-deliveries_example = poll_until-deliveries false (at 100) rounds called [] polled_is

poll_returns_example :
    poll {native = hdrs} false 0 (after 100) ([] ++ record { polled = none; now = 100 } ∷ []) ≢ none
poll_returns_example =
    poll_returns {native = hdrs} false 0 100 [] (record { polled = none; now = 100 }) []
      (omega arith) (omega arith)

abbrev turns : List Turn
turns =
    record { code = RespErr.timed_out; now = 10; polls_at = 11 }
    ∷ record { code = RespErr.no_error; now = 60; polls_at = 60 }
    ∷ []

flushed_is : flush_until (at 100) turns ≡ some (ok tt, 89 ∷ [])
unfolding flush_until
flushed_is = refl

flush_until-Flushed_example : Flushed (at 100) turns (ok tt) (89 ∷ [])
flush_until-Flushed_example = flush_until-Flushed (at 100) turns (ok tt) (89 ∷ []) flushed_is

abbrev well : KafkaResult (Unit {0})
well = ok tt

committed_is : commit_transaction 0 (after 100) turns none ≡ some (well, true)
unfolding commit_transaction
committed_is = refl

commit_after_flush_example :
    (true ≡ true)
      × (well ≡ transaction_result none)
      × ((polls : List ℕ) × (flush_at 0 (after 100) turns ≡ some (well, polls)))
    ⊎ (true ≡ false)
      × ((e : KafkaError) × (polls : List ℕ) × (well ≡ err e)
          × (flush_at 0 (after 100) turns ≡ some (err e, polls)))
commit_after_flush_example = commit_after_flush 0 (after 100) turns none well true committed_is
