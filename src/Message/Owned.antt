-- ===== src/Message/Owned.antt =====
-- The setters of `OwnedMessage` for plain fields, and the typed views of a message in message.rs.
use rust_rdkafka.Prelude.{ℤ, String, Option, none, some}
use rust_rdkafka.Error.Defs.{Result}
use rust_rdkafka.Message.Headers.{NativeHeaders, Bytes}
use rust_rdkafka.Message.Defs.{OwnedMessage, Timestamp}

module _ {native : NativeHeaders} where
  unfoldable pub new :
      Option Bytes
      → Option Bytes
      → String
      → Timestamp
      → ℤ
      → ℤ
      → Option native.Hdrs
      → OwnedMessage native
  new payload key topic timestamp partition offset headers = record {
    payload = payload;
    key = key;
    topic = topic;
    timestamp = timestamp;
    partition = partition;
    offset = offset;
    headers = headers;
  }

  unfoldable pub set_topic : OwnedMessage native → String → OwnedMessage native
  set_topic m topic = record m { topic = topic }

  unfoldable pub set_timestamp : OwnedMessage native → Timestamp → OwnedMessage native
  set_timestamp m timestamp = record m { timestamp = timestamp }

  unfoldable pub set_partition : OwnedMessage native → ℤ → OwnedMessage native
  set_partition m partition = record m { partition = partition }

  unfoldable pub set_offset : OwnedMessage native → ℤ → OwnedMessage native
  set_offset m offset = record m { offset = offset }

-- `payload_view` and `key_view`, with the type's `from_bytes`.
unfoldable pub view : {E P : Type 0} → (Bytes → Result E P) → Option Bytes → Option (Result E P)
view from_bytes none = none
view from_bytes (some bytes) = some (from_bytes bytes)
