-- ===== src/Consumer/Interface.antt =====
-- The trait `Consumer` of consumer/mod.rs as an interface with its laws, and its implementations by
-- `BaseConsumer` and `StreamConsumer`.
use rust_rdkafka.Prelude.{
  as_i32, ℕ, ℤ, pos, negsuc, ◌≡◌, ap, ◌++◌, ◌∙◌, String, Bool, true, false, Option, some, List, map,
  All, codes_contain, arith, eqb_ℤ,
}
use rust_rdkafka.Codes.RespErr.{RespErr}
use rust_rdkafka.Error.Defs.{KafkaResult, ok, err, is_error, RdKafkaError, subscription}
use rust_rdkafka.TopicPartitionList.Offset.{Offset}
use rust_rdkafka.TopicPartitionList.Native.{Tpl, Native, fresh}
use rust_rdkafka.Client.Calls.{fetch_metadata, fetch_watermarks, fetch_group_list}
use rust_rdkafka.TopicPartitionList.Tpl.{new, with_capacity}
use rust_rdkafka.Consumer.Calls
use rust_rdkafka.Consumer.Calls.{subscribe}
use rust_rdkafka.Consumer.CallsLaws.{subscribe_list_lem}

-- The result of a subscription that librdkafka answered.
abbrev pub subscribed : (RespErr → String) → RespErr → KafkaResult (Unit {0})
subscribed err2str e = elim (is_error e) [ true ↦ err (subscription (err2str e)) | false ↦ ok tt ]

-- What librdkafka answers to a call comes in; `none` in `subscribe` is a panic, in `group_metadata` that
-- there is no group. `M` and `G` are metadata and lists of groups.
pub record Consumer (err2str : RespErr → String) (M G : Type 0) : Type 0 where
  pub group_metadata : Option ℕ → Option ℕ
  pub subscribe : List String → (Tpl → RespErr) → Option (KafkaResult (Unit {0}))
  pub assign : RespErr → KafkaResult (Unit {0})
  pub unassign : RespErr → KafkaResult (Unit {0})
  pub incremental_assign : RdKafkaError → KafkaResult (Unit {0})
  pub incremental_unassign : RdKafkaError → KafkaResult (Unit {0})
  pub assignment_lost : ℤ → Bool
  pub seek : KafkaResult ℕ → Offset → (ℕ → ℤ → RespErr) → KafkaResult (Unit {0})
  pub seek_partitions : (Tpl → Tpl × RdKafkaError) → Tpl → KafkaResult Tpl
  pub commit : RespErr → KafkaResult (Unit {0})
  pub commit_consumer_state : RespErr → KafkaResult (Unit {0})
  pub commit_message : RespErr → KafkaResult (Unit {0})
  pub store_offset : KafkaResult ℕ → (ℕ → RespErr) → KafkaResult (Unit {0})
  pub store_offset_from_message : RespErr → KafkaResult (Unit {0})
  pub store_offsets : RespErr → KafkaResult (Unit {0})
  pub subscription : RespErr → Tpl → KafkaResult Tpl
  pub assignment : RespErr → Tpl → KafkaResult Tpl
  pub committed : (Tpl → Tpl × RespErr) → RespErr → Tpl → KafkaResult Tpl
  pub committed_offsets : (Tpl → Tpl × RespErr) → Tpl → KafkaResult Tpl
  pub offsets_for_timestamp : (Tpl → Tpl × RespErr) → RespErr → Tpl → ℤ → KafkaResult Tpl
  pub offsets_for_times : (Tpl → Tpl × RespErr) → Tpl → KafkaResult Tpl
  pub position : (Tpl → Tpl × RespErr) → RespErr → Tpl → KafkaResult Tpl
  pub fetch_metadata : (ℤ → Option String → RespErr × M) → Option String → KafkaResult M
  pub fetch_watermarks :
      (String → ℤ → RespErr × Option ℤ × Option ℤ) → String → ℤ → KafkaResult (ℤ × ℤ)
  pub fetch_group_list : (Option String → RespErr × G) → Option String → KafkaResult G
  pub pause : RespErr → KafkaResult (Unit {0})
  pub resume : RespErr → KafkaResult (Unit {0})
  -- A subscription to topics with no zero byte asks librdkafka once, for these topics in order.
  pub subscribe_asks :
      (topics : List String) (native : Tpl → RespErr)
      → All (λ topic. codes_contain 0 topic ≡ false) topics
      → (t : Tpl) × (subscribe topics native ≡ some (subscribed err2str (native t)))
        × (t.elems ≡ map (λ topic. fresh topic (negsuc 0)) topics)

-- `BaseConsumer::assignment_lost`.
unfoldable pub assignment_lost : ℤ → Bool
assignment_lost answer = eqb_ℤ answer (pos 1)

module _ (err2str : RespErr → String) (native : Native) (M G : Type 0) where
  pub subscribe-asks :
      (topics : List String) (native_subscribe : Tpl → RespErr)
      → All (λ topic. codes_contain 0 topic ≡ false) topics
      → (t : Tpl) × (Calls.subscribe err2str native topics native_subscribe
          ≡ some (subscribed err2str (native_subscribe t)))
        × (t.elems ≡ map (λ topic. fresh topic (negsuc 0)) topics)
  unfolding subscribe new with_capacity
  subscribe-asks topics native_subscribe clean =
      let (t, listed, elems) =
        subscribe_list_lem err2str native (native.list_new (as_i32 5)) topics clean in
      (
        t,
        ground (arith, listed),
        elems
            ∙ ap (λ es. es ++ map (λ topic. fresh topic (negsuc 0)) topics)
                (native.new_empty (as_i32 5)),
      )

  unfoldable pub base_consumer : Consumer err2str M G
  base_consumer = record {
    group_metadata = λ ptr. ptr;
    subscribe = Calls.subscribe err2str native;
    assign = Calls.assign err2str;
    unassign = Calls.unassign err2str;
    incremental_assign = Calls.incremental_assign;
    incremental_unassign = Calls.incremental_unassign;
    assignment_lost = assignment_lost;
    seek = Calls.seek_to err2str;
    seek_partitions = Calls.seek_partitions;
    commit = Calls.commit;
    commit_consumer_state = Calls.commit_consumer_state;
    commit_message = Calls.commit_message;
    store_offset = Calls.store_offset_of;
    store_offset_from_message = Calls.store_offset_from_message;
    store_offsets = Calls.store_offsets;
    subscription = Calls.subscription_of;
    assignment = Calls.assignment;
    committed = Calls.committed;
    committed_offsets = Calls.committed_offsets;
    offsets_for_timestamp = Calls.offsets_for_timestamp;
    offsets_for_times = Calls.offsets_for_times;
    position = Calls.position;
    fetch_metadata = fetch_metadata;
    fetch_watermarks = fetch_watermarks;
    fetch_group_list = fetch_group_list;
    pause = Calls.pause err2str;
    resume = Calls.resume err2str;
    subscribe_asks = subscribe-asks;
  }

  -- `impl Consumer for StreamConsumer`, which hands each call on to its base consumer.
  unfoldable pub stream_consumer : Consumer err2str M G → Consumer err2str M G
  stream_consumer base = record {
    group_metadata = base.group_metadata;
    subscribe = base.subscribe;
    assign = base.assign;
    unassign = base.unassign;
    incremental_assign = base.incremental_assign;
    incremental_unassign = base.incremental_unassign;
    assignment_lost = base.assignment_lost;
    seek = base.seek;
    seek_partitions = base.seek_partitions;
    commit = base.commit;
    commit_consumer_state = base.commit_consumer_state;
    commit_message = base.commit_message;
    store_offset = base.store_offset;
    store_offset_from_message = base.store_offset_from_message;
    store_offsets = base.store_offsets;
    subscription = base.subscription;
    assignment = base.assignment;
    committed = base.committed;
    committed_offsets = base.committed_offsets;
    offsets_for_timestamp = base.offsets_for_timestamp;
    offsets_for_times = base.offsets_for_times;
    position = base.position;
    fetch_metadata = base.fetch_metadata;
    fetch_watermarks = base.fetch_watermarks;
    fetch_group_list = base.fetch_group_list;
    pause = base.pause;
    resume = base.resume;
    subscribe_asks = base.subscribe_asks;
  }

module _ {err2str : RespErr → String} {M G : Type 0} (consumer : Consumer err2str M G) where
  -- A subscription that succeeds, of whatever consumer, was one that librdkafka accepted of the topics in
  -- order.
  pub subscribe-accepted :
      (topics : List String) (native : Tpl → RespErr)
      → All (λ topic. codes_contain 0 topic ≡ false) topics
      → consumer.subscribe topics native ≡ some (ok tt)
      → (t : Tpl) × (is_error (native t) ≡ false)
        × (t.elems ≡ map (λ topic. fresh topic (negsuc 0)) topics)
  subscribe-accepted topics native clean h =
      let (t, asked, elems) = consumer.subscribe_asks topics native clean in
      (t, ground (arith, h, asked), elems)
