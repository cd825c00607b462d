-- ===== src/Producer/Creation.antt =====
-- `BaseProducer::from_config_and_context` and `partitioner_cb` of producer/base_producer.rs.
use rust_rdkafka.Prelude.{ℤ, pos, eqb_ℤ, String, Bool, Option, none, some, List, [], ◌∷◌}
use rust_rdkafka.Error.Defs.{KafkaResult, ok, err}
use rust_rdkafka.Message.Headers.{Bytes}

-- The kinds of event that are asked for.
pub data EventMask : Type 0 where
  dr_events stats_events error_events token_refresh_events : EventMask

pub record Created : Type 0 where
  pub custom_partitioner : Bool
  pub events : List EventMask

-- `prepared` is the result of `create_native_config`, `client` that of the creation of the client.
unfoldable pub from_config_and_context :
    {Conf : Type 0}
    → KafkaResult Conf
    → Bool
    → (Conf → KafkaResult (Unit {0}))
    → KafkaResult Created
from_config_and_context (err e) custom client = err e
from_config_and_context (ok conf) custom client = elim (client conf) [
  | err e ↦ err e
  | ok u ↦ ok (record {
    custom_partitioner = custom;
    events = dr_events ∷ stats_events ∷ error_events ∷ token_refresh_events ∷ [];
  })
]

-- What the context's partitioner is asked, and its answer. `available` is
-- `rd_kafka_topic_partition_available`; with no partitioner in the context the callback panics: `none`.
unfoldable pub partitioner_cb :
    Option (String → Option Bytes → ℤ → (ℤ → Bool) → ℤ)
    → (ℤ → ℤ)
    → String
    → Option Bytes
    → ℤ
    → Option ℤ
partitioner_cb none available topic_name key partition_cnt = none
partitioner_cb (some partition) available topic_name key partition_cnt =
    some (partition topic_name key partition_cnt (λ p. eqb_ℤ (available p) (pos 1)))
