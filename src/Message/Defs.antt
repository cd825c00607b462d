-- ===== src/Message/Defs.antt =====
-- Timestamps, the messages of librdkafka and the owned messages made from them.
use rust_rdkafka.Prelude.{ℤ, negsuc, String, true, false, Option, none, some, eqb_ℤ, if◌then◌else◌}
use rust_rdkafka.Codes.RespErr.{RespErr}
use rust_rdkafka.Codes.ErrorCode.{ErrorCode}
use rust_rdkafka.Codes.Convert.{to_error_code}
use rust_rdkafka.Error.Defs.{
  KafkaError, KafkaResult, Result, ok, err, is_error, partition_eof, message_consumption,
  message_production,
}
use rust_rdkafka.Util.{Duration, millis_to_epoch}
use rust_rdkafka.Message.Headers
use rust_rdkafka.Message.Headers.{Bytes, NativeHeaders}

pub data Timestamp : Type 0 where
  not_available : Timestamp
  create_time : ℤ → Timestamp
  log_append_time : ℤ → Timestamp

abbrev known : ℤ → Option ℤ
known t = if eqb_ℤ t (negsuc 0) then none else some t

unfoldable pub to_millis : Timestamp → Option ℤ
to_millis not_available = none
to_millis (create_time t) = known t
to_millis (log_append_time t) = known t

-- `From<SystemTime>`: the time since the epoch, or `none` before it.
unfoldable pub from_system_time : Option Duration → Timestamp
unfolding millis_to_epoch
from_system_time since = create_time (millis_to_epoch since)

pub data TimestampType : Type 0 where
  timestamp_not_available timestamp_create_time timestamp_log_append_time : TimestampType

-- `BorrowedMessage::timestamp`, of what `rd_kafka_message_timestamp` returns.
unfoldable pub timestamp_of : ℤ → TimestampType → Timestamp
timestamp_of t typ = if eqb_ℤ t (negsuc 0) then not_available else elim typ [
  | timestamp_not_available ↦ not_available
  | timestamp_create_time ↦ create_time t
  | timestamp_log_append_time ↦ log_append_time t
]

module _ (native : NativeHeaders) where
  -- What librdkafka shows of an `rd_kafka_message_t`: a null key or payload is `none`; the headers
  -- are the result of `rd_kafka_message_headers`, its code and what it wrote to its out parameter.
  pub record NativeMessage : Type 0 where
    pub resp_err : RespErr
    pub topic : String
    pub partition : ℤ
    pub offset : ℤ
    pub key : Option Bytes
    pub payload : Option Bytes
    pub raw_timestamp : ℤ
    pub timestamp_type : TimestampType
    pub headers_err : RespErr
    pub raw_headers : native.Hdrs

  pub record OwnedMessage : Type 0 where
    pub payload : Option Bytes
    pub key : Option Bytes
    pub topic : String
    pub timestamp : Timestamp
    pub partition : ℤ
    pub offset : ℤ
    pub headers : Option native.Hdrs

abbrev pub DeliveryResult : NativeHeaders → Type 0
DeliveryResult native = Result (KafkaError × NativeMessage native) (NativeMessage native)

module _ {native : NativeHeaders} where
  -- `BorrowedMessage::from_client`; the message is handed on with its pointer.
  unfoldable pub from_client : NativeMessage native → KafkaResult (NativeMessage native)
  unfolding is_error
  from_client m = elim (is_error m.resp_err) [
    | true ↦ elim m.resp_err [
      | RespErr.partition_eof ↦ err (partition_eof m.partition)
      | e ↦ err (message_consumption (to_error_code e))
    ]
    | false ↦ ok m
  ]

  -- `BorrowedMessage::from_dr_event`.
  unfoldable pub from_dr_event : NativeMessage native → DeliveryResult native
  unfolding is_error
  from_dr_event m = elim (is_error m.resp_err) [
    | true ↦ err (message_production (to_error_code m.resp_err), m)
    | false ↦ ok m
  ]

  -- `Message for BorrowedMessage`.
  unfoldable pub timestamp : NativeMessage native → Timestamp
  unfolding timestamp_of
  timestamp m = timestamp_of m.raw_timestamp m.timestamp_type

  unfoldable pub headers : NativeMessage native → Option native.Hdrs
  headers m = elim (to_error_code m.headers_err) [
    | ErrorCode.no_error ↦ some m.raw_headers
    | other ↦ none
  ]

  unfoldable pub detach : NativeMessage native → OwnedMessage native
  unfolding timestamp
  detach m = record {
    key = m.key;
    payload = m.payload;
    topic = m.topic;
    timestamp = timestamp m;
    partition = m.partition;
    offset = m.offset;
    headers = elim (headers m) [ none ↦ none | some h ↦ some (Headers.detach native h) ];
  }

  -- The methods of `OwnedMessage` that replace a field.
  unfoldable pub detach_headers : OwnedMessage native → OwnedMessage native × Option native.Hdrs
  detach_headers m = (record m { headers = none }, m.headers)

  unfoldable pub replace_headers : OwnedMessage native → Option native.Hdrs → OwnedMessage native
  replace_headers m (some h) = record m { headers = some h }
  replace_headers m none = record m { headers = none }

  unfoldable pub set_payload : OwnedMessage native → Option Bytes → OwnedMessage native
  set_payload m (some p) = record m { payload = some p }
  set_payload m none = record m { payload = none }

  unfoldable pub set_key : OwnedMessage native → Option Bytes → OwnedMessage native
  set_key m (some k) = record m { key = some k }
  set_key m none = record m { key = none }
