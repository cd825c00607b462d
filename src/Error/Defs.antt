-- ===== src/Error/Defs.antt =====
-- error.rs: the errors of the library and the librdkafka code behind them.
use rust_rdkafka.Prelude.{
  ◌≡◌, ◌⊎◌, inl, inr, refl, ℤ, String, Bool, true, false, Option, none, some, codes_contain,
}
use rust_rdkafka.Codes.RespErr.{RespErr}
use rust_rdkafka.Codes.ErrorCode.{ErrorCode}
use rust_rdkafka.Codes.Convert.{to_error_code}

pub data Result {ℓ κ} (E : Type κ) (A : Type ℓ) : Type (ℓ ⊔ κ) where
  ok : A → Result E A
  err : E → Result E A

infixl 5 ◌>>=◌ ◌>>◌
abbrev pub ◌>>=◌ {ℓ κ μ} :
    {E : Type μ} {A : Type ℓ} {B : Type κ} → Result E A → (A → Result E B) → Result E B
ok a >>= f = f a
err e >>= f = err e

abbrev pub ◌>>◌ {ℓ μ} : {E : Type μ} {B : Type ℓ} → Result E (Unit {0}) → Result E B → Result E B
m >> k = m >>= λ _. k

pub Result-cases {ℓ κ} :
    {E : Type κ} {A : Type ℓ} (r : Result E A) → ((a : A) × (r ≡ ok a)) ⊎ ((e : E) × (r ≡ err e))
Result-cases (ok a) = inl (a, refl)
Result-cases (err e) = inr (e, refl)

-- `IsError for RDKafkaRespErr`.
unfoldable pub is_error : RespErr → Bool
is_error RespErr.no_error = false
is_error _ = true

-- `RDKafkaConfRes` of bindings.rs.
pub data ConfRes : Type 0 where
  conf_unknown conf_invalid conf_ok : ConfRes

unfoldable pub is_error_conf : ConfRes → Bool
is_error_conf conf_ok = false
is_error_conf conf_unknown = true
is_error_conf conf_invalid = true

-- What librdkafka reports of an `rd_kafka_error_t`.
pub record NativeError : Type 0 where
  pub code : RespErr
  pub name : String
  pub string : String
  pub is_fatal : Bool
  pub is_retriable : Bool
  pub txn_requires_abort : Bool

-- `RDKafkaError`: `none` is the null pointer.
abbrev pub RdKafkaError : Type 0
RdKafkaError = Option NativeError

unfoldable pub is_error_native : RdKafkaError → Bool
is_error_native none = false
is_error_native (some e) = true

-- librdkafka documents NO_ERROR as the code of the null pointer, and the empty text as its name.
unfoldable pub code : RdKafkaError → ErrorCode
code none = to_error_code RespErr.no_error
code (some e) = to_error_code e.code

unfoldable pub name : RdKafkaError → String
name none = ""
name (some e) = e.name

-- `std::ffi::NulError`: the text that holds a zero byte.
pub record NulError : Type 0 where
  pub bytes : String

pub data KafkaError : Type 0 where
  admin_op_creation : String → KafkaError
  admin_op : ErrorCode → KafkaError
  canceled : KafkaError
  client_config : ConfRes → String → String → String → KafkaError
  client_creation : String → KafkaError
  consumer_commit consumer_queue_close flush global group_list_fetch : ErrorCode → KafkaError
  message_consumption message_consumption_fatal message_production : ErrorCode → KafkaError
  metadata_fetch : ErrorCode → KafkaError
  no_message_received : KafkaError
  nul : NulError → KafkaError
  offset_fetch : ErrorCode → KafkaError
  partition_eof : ℤ → KafkaError
  pause_resume : String → KafkaError
  rebalance : ErrorCode → KafkaError
  seek : String → KafkaError
  set_partition_offset store_offset : ErrorCode → KafkaError
  subscription : String → KafkaError
  transaction : RdKafkaError → KafkaError
  mock_cluster : ErrorCode → KafkaError

abbrev pub KafkaResult {ℓ} : Type ℓ → Type ℓ
KafkaResult A = Result KafkaError A

-- `CString::new(text)?`: a text with a zero byte is refused.
unfoldable pub cstring_new : String → KafkaResult String
cstring_new text = elim (codes_contain 0 text) [
  | true ↦ err (nul (record { bytes = text }))
  | false ↦ ok text
]

unfoldable pub rdkafka_error_code : KafkaError → Option ErrorCode
unfolding code
rdkafka_error_code (admin_op _) = none
rdkafka_error_code (admin_op_creation _) = none
rdkafka_error_code canceled = none
rdkafka_error_code (client_config _ _ _ _) = none
rdkafka_error_code (client_creation _) = none
rdkafka_error_code (consumer_commit e) = some e
rdkafka_error_code (consumer_queue_close e) = some e
rdkafka_error_code (flush e) = some e
rdkafka_error_code (global e) = some e
rdkafka_error_code (group_list_fetch e) = some e
rdkafka_error_code (message_consumption e) = some e
rdkafka_error_code (message_consumption_fatal e) = some e
rdkafka_error_code (message_production e) = some e
rdkafka_error_code (metadata_fetch e) = some e
rdkafka_error_code no_message_received = none
rdkafka_error_code (nul _) = none
rdkafka_error_code (offset_fetch e) = some e
rdkafka_error_code (partition_eof _) = none
rdkafka_error_code (pause_resume _) = none
rdkafka_error_code (rebalance e) = some e
rdkafka_error_code (seek _) = none
rdkafka_error_code (set_partition_offset e) = some e
rdkafka_error_code (store_offset e) = some e
rdkafka_error_code (subscription _) = none
rdkafka_error_code (transaction e) = some (code e)
rdkafka_error_code (mock_cluster e) = some e

-- The error that `Error::source` returns.
pub data Source : Type 0 where
  code_source : ErrorCode → Source
  native_source : RdKafkaError → Source

unfoldable pub source : KafkaError → Option Source
source (admin_op _) = none
source (admin_op_creation _) = none
source canceled = none
source (client_config _ _ _ _) = none
source (client_creation _) = none
source (consumer_commit e) = some (code_source e)
source (consumer_queue_close e) = some (code_source e)
source (flush e) = some (code_source e)
source (global e) = some (code_source e)
source (group_list_fetch e) = some (code_source e)
source (message_consumption e) = some (code_source e)
source (message_consumption_fatal e) = some (code_source e)
source (message_production e) = some (code_source e)
source (metadata_fetch e) = some (code_source e)
source no_message_received = none
source (nul _) = none
source (offset_fetch e) = some (code_source e)
source (partition_eof _) = none
source (pause_resume _) = none
source (rebalance e) = some (code_source e)
source (seek _) = none
source (set_partition_offset e) = some (code_source e)
source (store_offset e) = some (code_source e)
source (subscription _) = none
source (transaction e) = some (native_source e)
source (mock_cluster e) = some (code_source e)
