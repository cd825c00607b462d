-- ===== src/Consumer/Calls.antt =====
-- The calls of `Consumer for BaseConsumer` that map what librdkafka answers. The answer of each
-- function of librdkafka is a parameter of the call, and so is `rd_kafka_err2str`.
use rust_rdkafka.Prelude.{ℕ, ℤ, String, true, false, Option, none, some, List, [], ◌∷◌}
use rust_rdkafka.Codes.RespErr.{RespErr}
use rust_rdkafka.Codes.Convert.{to_error_code}
use rust_rdkafka.Error.Defs.{
  KafkaError, KafkaResult, ok, err, ◌>>=◌, ◌>>◌, is_error, RdKafkaError, is_error_native, name,
  code, subscription, seek, consumer_commit, store_offset, metadata_fetch, pause_resume,
  consumer_queue_close,
}
use rust_rdkafka.TopicPartitionList.Offset.{Offset, offset, to_raw}
use rust_rdkafka.TopicPartitionList.Native.{Tpl, Native}
use rust_rdkafka.TopicPartitionList.Tpl.{new, add_topic_unassigned, set_all_offsets}

-- `if code.is_error() { Err(..) } else { Ok(..) }`.
abbrev check {ℓ} : {A : Type ℓ} → RespErr → KafkaError → A → KafkaResult A
check e error a = elim (is_error e) [ true ↦ err error | false ↦ ok a ]

abbrev check_native : RdKafkaError → KafkaError → KafkaResult (Unit {0})
check_native e error = elim (is_error_native e) [ true ↦ err error | false ↦ ok tt ]

unfoldable pub close_queue : RdKafkaError → KafkaResult (Unit {0})
unfolding is_error_native code
close_queue e = check_native e (consumer_queue_close (code e))

unfoldable pub commit : RespErr → KafkaResult (Unit {0})
unfolding is_error
commit e = check e (consumer_commit (to_error_code e)) tt

unfoldable pub commit_consumer_state : RespErr → KafkaResult (Unit {0})
unfolding is_error
commit_consumer_state e = check e (consumer_commit (to_error_code e)) tt

unfoldable pub commit_message : RespErr → KafkaResult (Unit {0})
unfolding is_error
commit_message e = check e (consumer_commit (to_error_code e)) tt

-- `native_topic` is the result of `Client::native_topic`.
unfoldable pub store_offset_of : KafkaResult ℕ → (ℕ → RespErr) → KafkaResult (Unit {0})
unfolding is_error
store_offset_of native_topic offset_store = do
  topic ← native_topic
  let e = offset_store topic
  check e (store_offset (to_error_code e)) tt

unfoldable pub store_offset_from_message : RespErr → KafkaResult (Unit {0})
unfolding is_error
store_offset_from_message e = check e (store_offset (to_error_code e)) tt

unfoldable pub store_offsets : RespErr → KafkaResult (Unit {0})
unfolding is_error
store_offsets e = check e (store_offset (to_error_code e)) tt

-- `subscription`, of the code and the list that librdkafka wrote.
unfoldable pub subscription_of : RespErr → Tpl → KafkaResult Tpl
unfolding is_error
subscription_of e tpl = check e (metadata_fetch (to_error_code e)) tpl

unfoldable pub assignment : RespErr → Tpl → KafkaResult Tpl
unfolding is_error
assignment e tpl = check e (metadata_fetch (to_error_code e)) tpl

-- `rd_kafka_committed`, `rd_kafka_offsets_for_times` and `rd_kafka_position` write the list.
unfoldable pub committed_offsets : (Tpl → Tpl × RespErr) → Tpl → KafkaResult Tpl
unfolding is_error
committed_offsets native_committed tpl =
    let (tpl', e) = native_committed tpl in check e (metadata_fetch (to_error_code e)) tpl'

unfoldable pub committed : (Tpl → Tpl × RespErr) → RespErr → Tpl → KafkaResult Tpl
unfolding assignment committed_offsets
committed native_committed e tpl = assignment e tpl >>= committed_offsets native_committed

unfoldable pub offsets_for_times : (Tpl → Tpl × RespErr) → Tpl → KafkaResult Tpl
unfolding is_error
offsets_for_times native_times tpl =
    let (tpl', e) = native_times tpl in check e (metadata_fetch (to_error_code e)) tpl'

unfoldable pub offsets_for_timestamp : (Tpl → Tpl × RespErr) → RespErr → Tpl → ℤ → KafkaResult Tpl
unfolding assignment set_all_offsets offsets_for_times
offsets_for_timestamp native_times e tpl timestamp = assignment e tpl >>= λ t.
    let set = set_all_offsets t (offset timestamp) in set.1 >> offsets_for_times native_times set.0

unfoldable pub position : (Tpl → Tpl × RespErr) → RespErr → Tpl → KafkaResult Tpl
unfolding assignment is_error
position native_position e tpl = do
  t ← assignment e tpl
  let (t', e') = native_position t
  check e' (metadata_fetch (to_error_code e')) t'

module _ (err2str : RespErr → String) where
  unfoldable pub assign : RespErr → KafkaResult (Unit {0})
  unfolding is_error
  assign e = check e (subscription (err2str e)) tt

  unfoldable pub unassign : RespErr → KafkaResult (Unit {0})
  unfolding is_error
  unassign e = check e (subscription (err2str e)) tt

  unfoldable pub pause : RespErr → KafkaResult (Unit {0})
  unfolding is_error
  pause e = check e (pause_resume (err2str e)) tt

  unfoldable pub resume : RespErr → KafkaResult (Unit {0})
  unfolding is_error
  resume e = check e (pause_resume (err2str e)) tt

  -- `native_seek` of the topic and the offset's integer form.
  unfoldable pub seek_to : KafkaResult ℕ → Offset → (ℕ → ℤ → RespErr) → KafkaResult (Unit {0})
  unfolding to_raw is_error
  seek_to native_topic o native_seek = do
    topic ← native_topic
    e ← elim (to_raw o) [
      | some raw ↦ ok (native_seek topic raw)
      | none ↦ err (seek "Local: Unrepresentable offset")
    ]
    check e (seek (err2str e)) tt

  module _ (native : Native) where
    -- The list of a subscription; `none` is the panic of a topic with a zero byte.
    unfoldable pub subscribe_list : Tpl → List String → Option Tpl
    unfolding add_topic_unassigned
    subscribe_list tpl [] = some tpl
    subscribe_list tpl (topic ∷ topics) = elim (add_topic_unassigned native tpl topic) [
      | none ↦ none
      | some added ↦ subscribe_list added topics
    ]

    unfoldable pub subscribe : List String → (Tpl → RespErr) → Option (KafkaResult (Unit {0}))
    unfolding new subscribe_list is_error
    subscribe topics native_subscribe = elim (subscribe_list (new native) topics) [
      | none ↦ none
      | some tpl ↦ let e = native_subscribe tpl in some (check e (subscription (err2str e)) tt)
    ]

-- `incremental_assign`, `incremental_unassign` and `seek_partitions`.
unfoldable pub incremental_assign : RdKafkaError → KafkaResult (Unit {0})
unfolding is_error_native name
incremental_assign e = check_native e (subscription (name e))

unfoldable pub incremental_unassign : RdKafkaError → KafkaResult (Unit {0})
unfolding is_error_native name
incremental_unassign e = check_native e (subscription (name e))

unfoldable pub seek_partitions : (Tpl → Tpl × RdKafkaError) → Tpl → KafkaResult Tpl
unfolding is_error_native name
seek_partitions native_seek tpl =
    let (tpl', e) = native_seek tpl in
    elim (is_error_native e) [ true ↦ err (seek (name e)) | false ↦ ok tpl' ]
