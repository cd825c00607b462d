-- ===== src/Producer/Interface.antt =====
-- The trait `Producer` of producer/mod.rs as an interface with its laws, and its implementations by
-- `BaseProducer`, `ThreadedProducer` and `FutureProducer`.
use rust_rdkafka.Prelude.{ℕ, ℤ, ◌≡◌, ◌⊎◌, Bool, true, false, Option, none, some, List, arith}
use rust_rdkafka.Codes.RespErr.{RespErr}
use rust_rdkafka.Error.Defs.{KafkaError, KafkaResult, ok, err, RdKafkaError, is_error}
use rust_rdkafka.Util.{Timeout, Instant, Duration, as_millis}
use rust_rdkafka.TopicPartitionList.Native.{Tpl}
use rust_rdkafka.Producer.Poll.{Turn, flush_at, transaction_result, commit_transaction}
use rust_rdkafka.Producer.Purge.{PurgeConfig}
use rust_rdkafka.Producer.FlushLaws.{commit_after_flush}

-- What librdkafka answers comes in: to a timeout in milliseconds, to offsets (for the consumer group that
-- goes with them), to the bits of flags. Of
-- `commit_transaction` there is also whether librdkafka was asked to commit; `none` in `purge` is a
-- panic, in `flush` and `commit_transaction` that they have not returned.
pub record Producer : Type 0 where
  pub in_flight_count : ℤ → ℤ
  pub flush : Instant → Timeout → List Turn → Option (KafkaResult (Unit {0}) × List Duration)
  pub purge : PurgeConfig → (ℕ → RespErr) → Option (Unit {0})
  pub init_transactions : Timeout → (ℤ → RdKafkaError) → KafkaResult (Unit {0})
  pub begin_transaction : RdKafkaError → KafkaResult (Unit {0})
  pub send_offsets_to_transaction :
      Tpl → Timeout → (Tpl → ℤ → RdKafkaError) → KafkaResult (Unit {0})
  pub commit_transaction :
      Instant → Timeout → List Turn → (ℤ → RdKafkaError) → Option (KafkaResult (Unit {0}) × Bool)
  pub abort_transaction : Timeout → (ℤ → RdKafkaError) → KafkaResult (Unit {0})
  -- A commit is made after a flush that succeeded, or is not made and fails as the flush did.
  pub commit_flushes :
      (start : Instant) (timeout : Timeout) (turns : List Turn) (native : ℤ → RdKafkaError)
      (result : KafkaResult (Unit {0})) (called : Bool)
      → commit_transaction start timeout turns native ≡ some (result, called)
      → (called ≡ true)
          × ((polls : List Duration) × (flush start timeout turns ≡ some (ok tt, polls)))
        ⊎ (called ≡ false)
          × ((e : KafkaError) × (polls : List Duration) × (result ≡ err e)
              × (flush start timeout turns ≡ some (err e, polls)))
  -- A purge that librdkafka accepts does not panic.
  pub purge_returns :
      (flags : PurgeConfig) (native : ℕ → RespErr)
      → native flags.flag_bits ≡ RespErr.no_error
      → purge flags native ≡ some tt

-- `rd_kafka_purge` with the panic on its error.
unfoldable pub purge : PurgeConfig → (ℕ → RespErr) → Option (Unit {0})
unfolding is_error
purge flags native = elim (is_error (native flags.flag_bits)) [ true ↦ none | false ↦ some tt ]

pub commit_flushes_lem :
    (start : Instant) (timeout : Timeout) (turns : List Turn) (ret : RdKafkaError)
    (result : KafkaResult (Unit {0})) (called : Bool)
    → commit_transaction start timeout turns ret ≡ some (result, called)
    → (called ≡ true)
        × ((polls : List Duration) × (flush_at start timeout turns ≡ some (ok tt, polls)))
      ⊎ (called ≡ false)
        × ((e : KafkaError) × (polls : List Duration) × (result ≡ err e)
            × (flush_at start timeout turns ≡ some (err e, polls)))
commit_flushes_lem start timeout turns ret result called h =
    elim (commit_after_flush start timeout turns ret result called h) [
      | ◌⊎◌.inl (asked, answered, flushed) ↦ ◌⊎◌.inl (asked, flushed)
      | ◌⊎◌.inr failed ↦ ◌⊎◌.inr failed
    ]

pub purge-returns :
    (flags : PurgeConfig) (native : ℕ → RespErr)
    → native flags.flag_bits ≡ RespErr.no_error
    → purge flags native ≡ some tt
unfolding purge
purge-returns flags native h = ground (arith, h)

-- `impl Producer for BaseProducer`.
unfoldable pub base_producer : Producer
base_producer = record {
  in_flight_count = λ outq_len. outq_len;
  flush = flush_at;
  purge = purge;
  init_transactions = λ timeout native. transaction_result (native (as_millis timeout));
  begin_transaction = transaction_result;
  send_offsets_to_transaction =
      λ offsets timeout native. transaction_result (native offsets (as_millis timeout));
  commit_transaction = λ start timeout turns native.
      commit_transaction start timeout turns (native (as_millis timeout));
  abort_transaction = λ timeout native. transaction_result (native (as_millis timeout));
  commit_flushes = λ start timeout turns native.
      commit_flushes_lem start timeout turns (native (as_millis timeout));
  purge_returns = purge-returns;
}

-- `impl Producer for ThreadedProducer` and `for FutureProducer`: each hands a call on to the producer
-- that it holds.
unfoldable pub threaded_producer : Producer → Producer
threaded_producer producer = record {
  in_flight_count = producer.in_flight_count;
  flush = producer.flush;
  purge = producer.purge;
  init_transactions = producer.init_transactions;
  begin_transaction = producer.begin_transaction;
  send_offsets_to_transaction = producer.send_offsets_to_transaction;
  commit_transaction = producer.commit_transaction;
  abort_transaction = producer.abort_transaction;
  commit_flushes = producer.commit_flushes;
  purge_returns = producer.purge_returns;
}

unfoldable pub future_producer : Producer → Producer
future_producer producer = record {
  in_flight_count = producer.in_flight_count;
  flush = producer.flush;
  purge = producer.purge;
  init_transactions = producer.init_transactions;
  begin_transaction = producer.begin_transaction;
  send_offsets_to_transaction = producer.send_offsets_to_transaction;
  commit_transaction = producer.commit_transaction;
  abort_transaction = producer.abort_transaction;
  commit_flushes = producer.commit_flushes;
  purge_returns = producer.purge_returns;
}

-- `FutureProducer` holds a `ThreadedProducer`, which holds a `BaseProducer`.
abbrev pub future_over_threaded : Producer
unfolding base_producer threaded_producer future_producer
future_over_threaded = future_producer (threaded_producer base_producer)

module _ (producer : Producer) where
  -- A commit that succeeds, of whatever producer, was asked of librdkafka, after a flush that succeeded.
  pub commit-flushed :
      (start : Instant) (timeout : Timeout) (turns : List Turn) (native : ℤ → RdKafkaError)
      (called : Bool)
      → producer.commit_transaction start timeout turns native ≡ some (ok tt, called)
      → (called ≡ true)
        × ((polls : List Duration) × (producer.flush start timeout turns ≡ some (ok tt, polls)))
  commit-flushed start timeout turns native called h =
      elim (producer.commit_flushes start timeout turns native (ok tt) called h) [
        | ◌⊎◌.inl flushed ↦ flushed
        | ◌⊎◌.inr (asked, failed) ↦ absurd (ground (arith, failed.2))
      ]
