-- ===== src/Consumer/Lifecycle.antt =====
-- base_consumer.rs around the poll: the consumer's creation and its queue, `PartitionQueue`, the
-- iterator, and `drop`. Answers of librdkafka come in.
use rust_rdkafka.Prelude.{
  ℕ, zero, suc, ℤ, String, Bool, true, false, Option, none, some, List, [], ◌∷◌, ◌++◌,
  if◌then◌else◌, map_option,
}
use rust_rdkafka.Error.Defs.{KafkaResult, ok, err, cstring_new, client_creation, RdKafkaError}
use rust_rdkafka.Util.{Timeout, never, after, from_millis}
use rust_rdkafka.TopicPartitionList.Native.{Tpl}
use rust_rdkafka.Message.Headers.{NativeHeaders}
use rust_rdkafka.Message.Defs.{NativeMessage}
use rust_rdkafka.Client.Config.{ClientConfig, get}
use rust_rdkafka.Client.Events.{Callback, to_option}
use rust_rdkafka.Consumer.Calls.{close_queue}
use rust_rdkafka.Consumer.Poll.{Answer, poll_queue}

-- The queue of a consumer, and whether librdkafka's main queue was redirected to it.
pub data Queue : Type 0 where
  consumer_queue main_queue : Queue

pub record Created : Type 0 where
  pub queue : Queue
  pub redirected : Bool
  pub group_id : Option String

-- `BaseConsumer::new`, of the result of `Client::new`, and of whether librdkafka has a consumer queue.
unfoldable pub new : ClientConfig → KafkaResult (Unit {0}) → Bool → KafkaResult Created
unfolding get
new config (err e) has_queue = err e
new config (ok client) has_queue = elim (get config "group.id") [
  | some id ↦
      if has_queue
      then ok (record { queue = consumer_queue; redirected = true; group_id = some id })
      else err (client_creation "rdkafka consumer queue not available")
  | none ↦ ok (record { queue = main_queue; redirected = false; group_id = none })
]

-- `split_partition_queue`: the queue of the partition, by what `rd_kafka_queue_get_partition` returns.
unfoldable pub split_partition_queue : (String → ℤ → Option ℕ) → String → ℤ → Option ℕ
unfolding cstring_new
split_partition_queue queue_get_partition topic partition = elim (cstring_new topic) [
  | err e ↦ none
  | ok topic_c ↦ queue_get_partition topic_c partition
]

module _ {native : NativeHeaders} (refresh : Bool) (interval : Timeout) (empty : Tpl) where
  -- `PartitionQueue::poll` and `BaseConsumer::poll`: the item, and the answers that are left.
  unfoldable pub poll :
      Timeout
      → List (Answer native)
      → Option (Option (KafkaResult (NativeMessage native)) × List (Answer native))
  unfolding poll_queue to_option
  poll timeout answers =
      map_option (λ p. (to_option p.result, p.rest))
        (poll_queue refresh interval empty timeout answers)

  -- `Iter::next`, with fuel for the turns of its loop; `none` while it has not returned.
  unfoldable pub next : ℕ → List (Answer native) → Option (KafkaResult (NativeMessage native))
  unfolding poll
  next zero answers = none
  next (suc fuel) answers = elim (poll never answers) [
    | none ↦ none
    | some (some item, rest) ↦ some item
    | some (none, rest) ↦ next fuel rest
  ]

  -- The loop of `drop`: what `rd_kafka_consumer_closed` answers and the answers to the poll after
  -- that. The callbacks that the polls make, and their number; the messages are dropped.
  unfoldable pub close_loop :
      List (Bool × List (Answer native)) → Option (List (Callback native) × ℕ)
  unfolding poll_queue
  close_loop [] = none
  close_loop ((closed, answers) ∷ turns) =
      let rest = close_loop turns in
      if closed
      then some ([], 0)
      else elim (poll_queue refresh interval empty (after (from_millis 100)) answers) [
        | none ↦ none
        | some p ↦ map_option (λ r. (p.callbacks ++ r.0, suc r.1)) rest
      ]

  -- `BaseConsumer::drop`: whether it closed the queue, and its polls.
  unfoldable pub drop :
      Option String
      → RdKafkaError
      → List (Bool × List (Answer native))
      → Option (KafkaResult (Unit {0}) × List (Callback native) × ℕ)
  unfolding close_queue close_loop
  drop none ret turns = some (ok tt, [], 0)
  drop (some group_id) ret turns =
      let polls = close_loop turns in
      elim (close_queue ret) [
        | err e ↦ some (err e, [], 0)
        | ok u ↦ map_option (λ r. (ok u, r.0, r.1)) polls
      ]
