-- ===== src/Admin/Requests.antt =====
-- Admin options and the creation of partitions. The answers of librdkafka's setters come in.
use rust_rdkafka.Prelude.{
  ℕ, ℤ, String, Bool, false, Option, none, some, List, [], ◌∷◌, length, ltb, as_i32, if◌then◌else◌,
}
use rust_rdkafka.Codes.RespErr.{RespErr}
use rust_rdkafka.Codes.ErrorCode.{ErrorCode}
use rust_rdkafka.Codes.Convert.{to_error_code}
use rust_rdkafka.Error.Defs.{KafkaError, KafkaResult, Result, ok, err, ◌>>◌, cstring_new}
use rust_rdkafka.ErrBuf.{ErrBuf, len, to_string}
use rust_rdkafka.Util.{Timeout, as_millis}

-- The text of `AdminOpCreation`: a literal, librdkafka's text in the error buffer (`none` is the
-- panic when the buffer holds no C string), or what is formatted into a literal.
pub data Message : Type 0 where
  text : String → Message
  error_text : Option (List ℕ) → Message
  unexpected_code : ErrorCode → Message
  too_many_assigned : String → ℕ → ℕ → Message
  mismatched_assignment : String → ℕ → ℤ → Message

pub data RequestError : Type 0 where
  creation : Message → RequestError
  other : KafkaError → RequestError

abbrev pub Checked : Type 0
Checked = Result RequestError (Unit {0})

unfoldable pub check_rdkafka_invalid_arg : RespErr → ErrBuf → Checked
unfolding len to_string
check_rdkafka_invalid_arg res err_buf = elim (to_error_code res) [
  | ErrorCode.no_error ↦ ok tt
  | ErrorCode.invalid_argument ↦ err (
      creation (elim (len err_buf) [
        | some ℕ.zero ↦ text "invalid argument"
        | some n ↦ error_text (to_string err_buf)
        | none ↦ error_text none
      ]))
  | code ↦ err (creation (unexpected_code code))
]

pub record AdminOptions : Type 0 where
  pub request_timeout : Option Timeout
  pub operation_timeout : Option Timeout
  pub validate_only : Bool
  pub broker_id : Option ℤ

unfoldable pub new : AdminOptions
new = record {
  request_timeout = none;
  operation_timeout = none;
  validate_only = false;
  broker_id = none;
}

unfoldable pub request_timeout : AdminOptions → Option Timeout → AdminOptions
request_timeout o t = record o { request_timeout = t }

unfoldable pub operation_timeout : AdminOptions → Option Timeout → AdminOptions
operation_timeout o t = record o { operation_timeout = t }

unfoldable pub validate_only : AdminOptions → Bool → AdminOptions
validate_only o b = record o { validate_only = b }

unfoldable pub broker_id : AdminOptions → Option ℤ → AdminOptions
broker_id o b = record o { broker_id = b }

-- A call of a setter of librdkafka's options.
pub data Setting : Type 0 where
  set_request_timeout set_operation_timeout : ℤ → Setting
  set_validate_only : ℤ → Setting
  set_broker : ℤ → Setting

-- The setters that `to_native` calls, in order, until one fails.
abbrev pub when {ℓ} : {A : Type ℓ} → (A → Setting) → Option A → List Setting → List Setting
when f none rest = rest
when f (some a) rest = f a ∷ rest

unfoldable pub settings : AdminOptions → List Setting
unfolding as_millis
settings o =
    when (λ t. set_request_timeout (as_millis t)) o.request_timeout
      (when (λ t. set_operation_timeout (as_millis t)) o.operation_timeout
        (let broker = when set_broker o.broker_id [] in
          if o.validate_only then set_validate_only (ℤ.pos 1) ∷ broker else broker))

-- What a setter returns and leaves in the error buffer.
unfoldable pub apply : (Setting → RespErr × ErrBuf) → List Setting → Checked
unfolding check_rdkafka_invalid_arg
apply native [] = ok tt
apply native (s ∷ ss) =
    let (res, err_buf) = native s in check_rdkafka_invalid_arg res err_buf >> apply native ss

unfoldable pub options_to_native : (Setting → RespErr × ErrBuf) → AdminOptions → Checked
unfolding settings apply
options_to_native native o = apply native (settings o)

pub record NewPartitions : Type 0 where
  pub topic_name : String
  pub new_partition_count : ℕ
  pub assignment : Option (List (List ℤ))

unfoldable pub new_partitions : String → ℕ → NewPartitions
new_partitions topic_name count = record {
  topic_name = topic_name;
  new_partition_count = count;
  assignment = none;
}

unfoldable pub assign : NewPartitions → List (List ℤ) → NewPartitions
assign p a = record p { assignment = some a }

-- `rd_kafka_NewPartitions_new` and `_set_replica_assignment`; a call of one of them.
pub record Maker : Type 0 where
  pub make : String → ℕ → Bool × ErrBuf
  pub set_replicas : ℤ → List ℤ → RespErr × ErrBuf

pub data PartitionsCall : Type 0 where
  makes : String → ℕ → PartitionsCall
  sets_replicas : ℤ → List ℤ → PartitionsCall

-- The calls that were made, and the result after them.
abbrev pub Traced : Type 0
Traced = List PartitionsCall × Checked

abbrev pub after_call : PartitionsCall → Traced → Traced
after_call call (calls, result) = (call ∷ calls, result)

-- `partition_id as i32`, with the error that ends the loop.
unfoldable pub set_assignment : Maker → ℕ → List (List ℤ) → Traced
unfolding check_rdkafka_invalid_arg
set_assignment m partition_id [] = ([], ok tt)
set_assignment m partition_id (broker_ids ∷ rest) =
    let (res, err_buf) = m.set_replicas (as_i32 partition_id) broker_ids in
    let later = set_assignment m (ℕ.suc partition_id) rest in
    after_call (sets_replicas (as_i32 partition_id) broker_ids)
      (elim (check_rdkafka_invalid_arg res err_buf) [ err e ↦ ([], err e) | ok u ↦ later ])

abbrev pub lift {ℓ} : {A : Type ℓ} → KafkaResult A → Result RequestError A
lift (ok a) = ok a
lift (err e) = err (other e)

-- The check that keeps librdkafka from its assertion.
unfoldable pub check_count : NewPartitions → Checked
check_count p = elim p.assignment [
  | none ↦ ok tt
  | some a ↦
      if ltb p.new_partition_count (length a)
      then err (creation (too_many_assigned p.topic_name (length a) p.new_partition_count))
      else ok tt
]

-- From the making of the object on.
unfoldable pub make_partitions : Maker → NewPartitions → String → Traced
unfolding to_string set_assignment
make_partitions m p name =
    let (made, err_buf) = m.make name p.new_partition_count in
    after_call (makes name p.new_partition_count) (
      if made
      then (elim p.assignment [ none ↦ ([], ok tt) | some a ↦ set_assignment m 0 a ])
      else ([], err (creation (error_text (to_string err_buf)))))

unfoldable pub partitions_to_native : Maker → NewPartitions → Traced
unfolding cstring_new check_count make_partitions
partitions_to_native m p = elim (cstring_new p.topic_name) [
  | err e ↦ ([], err (other e))
  | ok name ↦ elim (check_count p) [ err e ↦ ([], err e) | ok u ↦ make_partitions m p name ]
]
