-- ===== src/TopicPartitionList/Elem.antt =====
-- The entries of a list: `rd_kafka_topic_partition_s` and the methods of `TopicPartitionListElem`.
use rust_rdkafka.Prelude.{
  ℕ, List, if◌then◌else◌, ℤ, String, Bool, true, false, ◌&&◌, Option, none, some, eqb_ℤ, str_eq,
}
use rust_rdkafka.Codes.RespErr.{RespErr}
use rust_rdkafka.Codes.ErrorCode.{ErrorCode}
use rust_rdkafka.Codes.Convert.{to_error_code}
use rust_rdkafka.Error.Defs.{KafkaResult, ok, err, is_error, offset_fetch, set_partition_offset}
use rust_rdkafka.TopicPartitionList.Offset.{
  Offset, beginning, end, stored, invalid, offset, offset_tail, from_raw, to_raw,
}

-- The bytes of the metadata: those of a text, or bytes that are not UTF-8.
pub data Metadata : Type 0 where
  utf8 : String → Metadata
  not_utf8 : List ℕ → Metadata

-- A null pointer to the metadata is `none`. The opaque fields of the struct are never read.
pub record Elem : Type 0 where
  pub topic : String
  pub partition : ℤ
  pub raw_offset : ℤ
  pub raw_metadata : Option Metadata
  pub resp_err : RespErr

unfoldable pub error : Elem → KafkaResult (Unit {0})
unfolding is_error
error e = elim (is_error e.resp_err) [
  | true ↦ err (offset_fetch (to_error_code e.resp_err))
  | false ↦ ok tt
]

-- The method `offset`.
unfoldable pub offset_of : Elem → Offset
unfolding from_raw
offset_of e = from_raw e.raw_offset

-- The element after the call, and its result.
unfoldable pub set_offset : Elem → Offset → Elem × KafkaResult (Unit {0})
set_offset e o = elim (to_raw o) [
  | some raw ↦ (record e { raw_offset = raw }, ok tt)
  | none ↦ (e, err (set_partition_offset ErrorCode.invalid_argument))
]

-- `none` is the panic on bytes that are not UTF-8.
unfoldable pub metadata : Elem → Option String
metadata e = elim e.raw_metadata [
  | none ↦ some ""
  | some (utf8 text) ↦ some text
  | some (not_utf8 bytes) ↦ none
]

unfoldable pub set_metadata : Elem → String → Elem
set_metadata e text = record e { raw_metadata = some (utf8 text) }

-- The derived equality of `Offset`.
unfoldable pub offset_eq : Offset → Offset → Bool
offset_eq beginning beginning = true
offset_eq end end = true
offset_eq stored stored = true
offset_eq invalid invalid = true
offset_eq (offset a) (offset b) = eqb_ℤ a b
offset_eq (offset_tail a) (offset_tail b) = eqb_ℤ a b
offset_eq _ _ = false

-- What is left of an equality once the metadata are read.
unfoldable pub metadata_eq : Option String → Option String → Option Bool
metadata_eq none b = none
metadata_eq (some a) none = none
metadata_eq (some a) (some b) = some (str_eq a b)

-- `PartialEq for TopicPartitionListElem`; the metadata are read last.
unfoldable pub elem_eq : Elem → Elem → Option Bool
unfolding offset_of offset_eq metadata metadata_eq
elem_eq a b =
    if str_eq a.topic b.topic
      && (eqb_ℤ a.partition b.partition && offset_eq (offset_of a) (offset_of b))
    then metadata_eq (metadata a) (metadata b)
    else some false
