-- ===== src/Producer/Send.antt =====
-- `BaseProducer::send`, `FutureProducer::send` and `send_result`. librdkafka's `rd_kafka_producev`
-- is a parameter: the code that it answers a call with, which may differ from one attempt to the
-- next.
use rust_rdkafka.Prelude.{
  ℕ, ◌≡◌, ◌&&◌, ℤ, pos, negsuc, String, Bool, true, false, Option, none, some, List, [], ◌∷◌,
  length, ltb, if◌then◌else◌,
}
use rust_rdkafka.Codes.RespErr.{RespErr}
use rust_rdkafka.Codes.ErrorCode.{ErrorCode}
use rust_rdkafka.Codes.Convert.{to_error_code}
use rust_rdkafka.Error.Defs.{KafkaError, Result, ok, err, is_error, cstring_new, message_production}
use rust_rdkafka.Util.{Timeout, after, never, Duration}
use rust_rdkafka.Message.Headers.{NativeHeaders, Bytes}
use rust_rdkafka.Message.Defs.{
  OwnedMessage, DeliveryResult, Timestamp, not_available, create_time, timestamp, detach,
}
use rust_rdkafka.Producer.Record.{BaseRecord, FutureRecord, into_base_record, from_base_record}

-- `IntoOpaque`: the pointer of a value, which is turned back into it once.
pub record Opaque (D : Type 0) : Type 0 where
  pub into_ptr : D → ℕ
  pub from_ptr : ℕ → D
  pub from_into : (d : D) → from_ptr (into_ptr d) ≡ d

-- The arguments of `rd_kafka_producev`; a buffer is its bytes, `none` the null pointer, and a size.
pub record Call (Headers : Type 0) : Type 0 where
  pub topic : String
  pub partition : ℤ
  pub value : Option Bytes × ℕ
  pub key : Option Bytes × ℕ
  pub opaque : ℕ
  pub timestamp : ℤ
  pub headers : Option Headers

-- `as_bytes` in `send`.
unfoldable pub as_bytes : Option Bytes → Option Bytes × ℕ
as_bytes none = (none, 0)
as_bytes (some p) = (some p, length p)

abbrev pub opt_bytes {ℓ} : {A : Type ℓ} → (A → Bytes) → Option A → Option Bytes
opt_bytes to_bytes none = none
opt_bytes to_bytes (some a) = some (to_bytes a)

abbrev pub unwrap_or {ℓ} : {A : Type ℓ} → Option A → A → A
unwrap_or none d = d
unwrap_or (some a) d = a

-- `e == KafkaError::MessageProduction(RDKafkaErrorCode::QueueFull)`.
abbrev pub is_queue_full : KafkaError → Bool
is_queue_full (message_production ErrorCode.queue_full) = true
is_queue_full _ = false

-- `can_retry` when `elapsed` has passed since the start.
unfoldable pub can_retry : Timeout → Duration → Bool
can_retry never elapsed = true
can_retry (after t) elapsed = ltb elapsed t

-- One attempt: librdkafka's answers then, and the time since the start when it has failed.
pub record Attempt (Headers : Type 0) : Type 0 where
  pub producev : Call Headers → RespErr
  pub elapsed : Duration

module _ (native : NativeHeaders) {K P D : Type 0} (key_bytes : K → Bytes)
    (payload_bytes : P → Bytes) where
  unfoldable pub call_of : String → ℕ → BaseRecord K P native.Hdrs D → Call native.Hdrs
  unfolding as_bytes
  call_of topic ptr r = record {
    topic = topic;
    partition = unwrap_or r.partition (negsuc 0);
    value = as_bytes (opt_bytes payload_bytes r.payload);
    key = as_bytes (opt_bytes key_bytes r.key);
    opaque = ptr;
    timestamp = unwrap_or r.timestamp (pos 0);
    headers = r.headers;
  }

  module _ (opaque : Opaque D) where
    unfoldable pub send :
        (Call native.Hdrs → RespErr)
        → BaseRecord K P native.Hdrs D
        → Result (KafkaError × BaseRecord K P native.Hdrs D) (Unit {0})
    unfolding cstring_new is_error call_of
    send producev r = elim (cstring_new r.topic) [
      | err nul_error ↦ err (nul_error, r)
      | ok topic_cstring ↦
          let opaque_ptr = opaque.into_ptr r.delivery_opaque in
          let produce_error = producev (call_of topic_cstring opaque_ptr r) in
          elim (is_error produce_error) [
            | true ↦ err (
              message_production (to_error_code produce_error),
              record r { delivery_opaque = opaque.from_ptr opaque_ptr },
            )
            | false ↦ ok tt
          ]
    ]

    -- The message of a failed send.
    unfoldable pub failed_message : BaseRecord K P native.Hdrs D → OwnedMessage native
    failed_message r = record {
      payload = opt_bytes payload_bytes r.payload;
      key = opt_bytes key_bytes r.key;
      topic = r.topic;
      timestamp = elim r.timestamp [ none ↦ not_available | some t ↦ create_time t ];
      partition = unwrap_or r.partition (negsuc 0);
      offset = pos 0;
      headers = r.headers;
    }

    -- The `match` on the result of an attempt; `loop` goes on with the record that came back.
    unfoldable pub follow :
        Timeout
        → ℕ
        → Duration
        → (BaseRecord K P native.Hdrs D → Option (Result (KafkaError × OwnedMessage native) ℕ))
        → Result (KafkaError × BaseRecord K P native.Hdrs D) (Unit {0})
        → Option (Result (KafkaError × OwnedMessage native) ℕ)
    unfolding can_retry failed_message
    follow queue_timeout delays elapsed loop (ok u) = some (ok delays)
    follow queue_timeout delays elapsed loop (err (e, r)) =
        let again = loop r in
        if is_queue_full e && can_retry queue_timeout elapsed
        then again
        else some (err (e, failed_message r))

    -- The loop of `FutureProducer::send`, to the end of the loop: `ok n` when the attempt after `n`
    -- delays of 100 ms put the record into the queue, so that the report of its delivery is awaited.
    -- `none` while no attempt is left.
    unfoldable pub send_loop :
        Timeout
        → ℕ
        → BaseRecord K P native.Hdrs D
        → List (Attempt native.Hdrs)
        → Option (Result (KafkaError × OwnedMessage native) ℕ)
    unfolding send follow
    send_loop queue_timeout delays r [] = none
    send_loop queue_timeout delays r (a ∷ attempts) =
        follow queue_timeout delays a.elapsed
          (λ r'. send_loop queue_timeout (ℕ.suc delays) r' attempts) (send a.producev r)

    unfoldable pub future_send :
        Timeout
        → FutureRecord K P native.Hdrs
        → D
        → List (Attempt native.Hdrs)
        → Option (Result (KafkaError × OwnedMessage native) ℕ)
    unfolding into_base_record send_loop
    future_send queue_timeout r tx attempts =
        send_loop queue_timeout 0 (into_base_record r tx) attempts

    unfoldable pub send_result :
        (Call native.Hdrs → RespErr)
        → FutureRecord K P native.Hdrs
        → D
        → Result (KafkaError × FutureRecord K P native.Hdrs) (Unit {0})
    unfolding send into_base_record from_base_record
    send_result producev r tx = elim (send producev (into_base_record r tx)) [
      | ok u ↦ ok u
      | err (e, r') ↦ err (e, from_base_record r')
    ]

-- `Delivery` and the context's `delivery`: what the receiver of the future is sent.
pub record Delivery : Type 0 where
  pub partition : ℤ
  pub offset : ℤ
  pub timestamp : Timestamp

unfoldable pub delivery :
    {native : NativeHeaders}
    → DeliveryResult native
    → Result (KafkaError × OwnedMessage native) Delivery
unfolding detach timestamp
delivery (ok m) =
    ok (record { partition = m.partition; offset = m.offset; timestamp = timestamp m })
delivery (err (e, m)) = err (e, detach m)
