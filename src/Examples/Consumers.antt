-- ===== src/Examples/Consumers.antt =====
-- Uses of the theorems on consumers.
use rust_rdkafka.Prelude.{
  All, ◌≡◌, ◌≢◌, refl, ◌↔◌, pos, negsuc, true, false, Option, none, some, [], ◌∷◌, ◌++◌, inr,
}
use rust_rdkafka.Codes.RespErr.{RespErr}
use rust_rdkafka.Util.{after, never, saturating_sub, is_zero}
use rust_rdkafka.TopicPartitionList.Native.{Tpl}
use rust_rdkafka.Message.Defs.{NativeMessage, timestamp_not_available}
use rust_rdkafka.Client.Events.{fetch, stats, nothing}
use rust_rdkafka.Consumer.Poll.{Answer, Polled, poll_loop, poll_queue}
use rust_rdkafka.Consumer.WaitLaws.{IsWithin, poll_queue-waits}
use rust_rdkafka.Consumer.PollLaws.{Takes, poll_loop-Takes, poll_loop_returns}
use rust_rdkafka.Consumer.Rebalance.{
  cooperative, run, Kind, Action, pre_rebalance, post_rebalance, gives, is_incremental,
  run-one_call,
}
use rust_rdkafka.Consumer.Stream.{
  State, pending, new, begin, poll_next, Steps, done, also, begins, polls,
}
use rust_rdkafka.Consumer.Stream.Laws.{Stored, no_lost_wakeup}
use rust_rdkafka.Examples.Instances.{hdrs, slots}

abbrev pub empty : Tpl
empty = record { elems = []; size = 5 }

abbrev pub message : NativeMessage hdrs
message = record {
  resp_err = RespErr.no_error;
  topic = "t";
  partition = pos 0;
  offset = pos 3;
  key = none;
  payload = some (1 ∷ []);
  raw_timestamp = negsuc 0;
  timestamp_type = timestamp_not_available;
  headers_err = RespErr.noent;
  raw_headers = [];
}

abbrev pub counters : Answer hdrs
counters = record { polled = some (stats "{}"); elapsed = 40 }

abbrev pub arrival : Answer hdrs
arrival = record { polled = some (fetch (some message)); elapsed = 60 }

abbrev end_of_time : Answer hdrs
end_of_time = record { polled = none; elapsed = 100 }

abbrev taken : Option (Polled hdrs)
unfolding poll_loop
taken = poll_loop false never empty (after 100) (after 100) (counters ∷ arrival ∷ end_of_time ∷ [])

abbrev result : Polled hdrs
unfolding poll_loop
result = elim taken [
  | some p ↦ p
  | none ↦ record { result = nothing; callbacks = []; timeouts = []; rest = [] }
]

taken_is :
    poll_loop false never empty (after 100) (after 100) (counters ∷ arrival ∷ end_of_time ∷ [])
    ≡ some result
unfolding poll_loop
taken_is = refl

poll_loop-Takes_example : Takes (counters ∷ arrival ∷ end_of_time ∷ []) result
poll_loop-Takes_example =
    poll_loop-Takes false never empty (after 100) (counters ∷ arrival ∷ end_of_time ∷ [])
      (after 100) result taken_is

queue_taken_is :
    poll_queue false never empty (after 100) (counters ∷ arrival ∷ end_of_time ∷ []) ≡ some result
unfolding poll_queue poll_loop
queue_taken_is = refl

poll_queue-waits_example : All (λ w. IsWithin w never × IsWithin w (after 100)) (result.timeouts)
poll_queue-waits_example =
    poll_queue-waits false never empty (after 100) (counters ∷ arrival ∷ end_of_time ∷ []) result
      queue_taken_is

poll_loop_returns_example :
    poll_loop false never empty (after 100) (after 100) ((counters ∷ []) ++ end_of_time ∷ []) ≢ none
unfolding saturating_sub is_zero
poll_loop_returns_example =
    poll_loop_returns false never empty (after 100) (counters ∷ []) end_of_time [] (after 100)
      (inr (refl, refl))

run-one_call_example :
    (k : Kind) × (a : Action) × (run cooperative RespErr.revoke_partitions empty
      ≡ pre_rebalance k ∷ a ∷ post_rebalance k ∷ [])
    × ((gives a ≡ true) ↔ (RespErr.revoke_partitions ≡ RespErr.assign_partitions))
    × ((is_incremental a ≡ true) ↔ (cooperative ≡ cooperative))
run-one_call_example = run-one_call cooperative RespErr.revoke_partitions empty

-- A stream is made on an empty queue and polled by task 7 until it returns.
abbrev begun : State hdrs slots
unfolding new begin
begun = begin 7 (new hdrs slots [] []).0

abbrev step : State hdrs slots → State hdrs slots
unfolding new poll_next
step s = poll_next false never empty (new hdrs slots [] []).1 s

asleep-Steps :
    Steps false never empty
      (new hdrs slots [] []).1
      (new hdrs slots [] []).0
      (step (step (step begun)))
unfolding new begin poll_next
asleep-Steps =
    also
      (also (also (also done (begins 7 (new hdrs slots [] []).0)) (polls begun))
        (polls (step begun)))
      (polls (step (step begun)))

is_pending : (step (step (step begun))).phase ≡ pending
unfolding new begin poll_next
is_pending = refl

is_asleep : (step (step (step begun))).woken ≡ false
unfolding new begin poll_next
is_asleep = refl

no_lost_wakeup_example :
    ((step (step (step begun))).queue ≡ [])
    × Stored (new hdrs slots [] []).1 (step (step (step begun)))
no_lost_wakeup_example =
    no_lost_wakeup false never empty [] [] (step (step (step begun))) asleep-Steps is_pending
      is_asleep
