-- ===== src/TopicPartitionList/Native.antt =====
-- What topic_partition_list.rs relies on of librdkafka's lists, as rdkafka.h documents it. The
-- code reads the fields `cnt`, `size` and `elems` of a list itself.
use rust_rdkafka.Prelude.{
  ℕ, zero, suc, ℤ, String, Bool, ◌&&◌, Option, none, some, List, [], ◌∷◌, ◌++◌, eqb_ℤ, str_eq, ◌≡◌,
  refl, if◌then◌else◌, pos_part,
}
use rust_rdkafka.Codes.RespErr.{RespErr}
use rust_rdkafka.TopicPartitionList.Offset.{offset_invalid}
use rust_rdkafka.TopicPartitionList.Elem.{Elem}

-- `rd_kafka_topic_partition_list_s`; `cnt` is the length of `elems`.
pub record Tpl : Type 0 where
  pub elems : List Elem
  pub size : ℕ

abbrev pub is_at : String → ℤ → Elem → Bool
is_at topic partition e = str_eq e.topic topic && eqb_ℤ e.partition partition

-- The position of the first entry for a topic and partition.
abbrev pub index_of : String → ℤ → List Elem → Option ℕ
index_of topic partition [] = none
index_of topic partition (e ∷ es) =
    let rest = index_of topic partition es in
    if is_at topic partition e then some 0 else elim rest [ none ↦ none | some i ↦ some (suc i) ]

-- A new entry has the logical offset INVALID, no metadata and no error.
abbrev pub fresh : String → ℤ → Elem
fresh topic partition = record {
  topic = topic;
  partition = partition;
  raw_offset = offset_invalid;
  raw_metadata = none;
  resp_err = RespErr.no_error;
}

abbrev pub write_offset : List Elem → ℕ → ℤ → List Elem
write_offset [] i raw = []
write_offset (e ∷ es) zero raw = record e { raw_offset = raw } ∷ es
write_offset (e ∷ es) (suc i) raw = e ∷ write_offset es i raw

pub record Native : Type 0 where
  -- `rd_kafka_topic_partition_list_new`, `_add`, `_add_range`, `_find` and `_set_offset`.
  pub list_new : ℤ → Tpl
  pub list_add : Tpl → String → ℤ → Tpl
  pub list_add_range : Tpl → String → ℤ → ℤ → Tpl
  pub list_find : Tpl → String → ℤ → Option ℕ
  pub list_set_offset : Tpl → String → ℤ → ℤ → Tpl × RespErr
  pub new_empty : (n : ℤ) → (list_new n).elems ≡ []
  pub add_appends :
      (t : Tpl) (topic : String) (partition : ℤ)
      → (list_add t topic partition).elems ≡ t.elems ++ fresh topic partition ∷ []
  pub find_first :
      (t : Tpl) (topic : String) (partition : ℤ)
      → list_find t topic partition ≡ index_of topic partition t.elems
  pub set_found :
      (t : Tpl) (topic : String) (partition raw : ℤ) (i : ℕ)
      → index_of topic partition t.elems ≡ some i
      → list_set_offset t topic partition raw
        ≡ (record t { elems = write_offset t.elems i raw }, RespErr.no_error)
  pub set_missing :
      (t : Tpl) (topic : String) (partition raw : ℤ)
      → index_of topic partition t.elems ≡ none
      → list_set_offset t topic partition raw ≡ (t, RespErr.unknown_partition)

-- The laws can be met.
set_by : Option ℕ → Tpl → ℤ → Tpl × RespErr
set_by none t raw = (t, RespErr.unknown_partition)
set_by (some i) t raw = (record t { elems = write_offset t.elems i raw }, RespErr.no_error)

abbrev pub plain : Native
unfolding set_by
plain = record {
  list_new = λ n. record { elems = []; size = pos_part n };
  list_add = λ t topic partition. record t { elems = t.elems ++ fresh topic partition ∷ [] };
  list_add_range = λ t topic start stop. t;
  list_find = λ t topic partition. index_of topic partition t.elems;
  list_set_offset = λ t topic partition raw. set_by (index_of topic partition t.elems) t raw;
  new_empty = λ n. refl;
  add_appends = λ t topic partition. refl;
  find_first = λ t topic partition. refl;
  set_found = λ t topic partition raw i h. rw h;
  set_missing = λ t topic partition raw h. rw h;
}
