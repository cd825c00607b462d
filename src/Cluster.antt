-- ===== src/Cluster.antt =====
-- What `fetch_group_list` and `fetch_metadata` return: groups.rs and metadata.rs, as the accessors read
-- librdkafka's structs. `none` is a null pointer; the elements of an array are those that its count
-- says.
use rust_rdkafka.Prelude.{ℕ, ℤ, String, true, false, Option, none, some, List, [], ◌∷◌, ◌++◌}
use rust_rdkafka.Codes.RespErr.{RespErr}
use rust_rdkafka.Error.Defs.{is_error}

-- `rd_kafka_group_member_info`.
pub record GroupMemberInfo : Type 0 where
  pub member_id : String
  pub client_id : String
  pub client_host : String
  pub member_metadata : Option (List ℕ)
  pub member_assignment : Option (List ℕ)

unfoldable pub metadata : GroupMemberInfo → Option (List ℕ)
metadata m = elim m.member_metadata [ none ↦ none | some bytes ↦ some bytes ]

unfoldable pub assignment : GroupMemberInfo → Option (List ℕ)
assignment m = elim m.member_assignment [ none ↦ none | some bytes ↦ some bytes ]

-- `rd_kafka_group_info`, as far as it is read.
pub record GroupInfo : Type 0 where
  pub group : String
  pub state : String
  pub protocol : String
  pub protocol_type : String
  pub members_ptr : Option (List GroupMemberInfo)

unfoldable pub members : GroupInfo → List GroupMemberInfo
members g = elim g.members_ptr [ none ↦ [] | some ms ↦ ms ]

-- `rd_kafka_metadata_partition`, `_topic` and `_broker`, and the metadata.
pub record MetadataPartition : Type 0 where
  pub id : ℤ
  pub err : RespErr
  pub leader : ℤ
  pub replicas : List ℤ
  pub isrs : List ℤ

pub record MetadataTopic : Type 0 where
  pub topic : String
  pub partitions : List MetadataPartition
  pub err : RespErr

pub record MetadataBroker : Type 0 where
  pub id : ℤ
  pub host : String
  pub port : ℤ

unfoldable pub error : RespErr → Option RespErr
unfolding is_error
error e = elim (is_error e) [ true ↦ some e | false ↦ none ]

unfoldable pub partition_error : MetadataPartition → Option RespErr
unfolding error
partition_error p = error p.err

unfoldable pub topic_error : MetadataTopic → Option RespErr
unfolding error
topic_error t = error t.err

-- The fields that `Debug` shows, by name.
abbrev error_field : Option RespErr → List String
error_field none = []
error_field (some e) = "error" ∷ []

unfoldable pub debug_partition : MetadataPartition → List String
unfolding partition_error
debug_partition p =
    ("id" ∷ []) ++ error_field (partition_error p) ++ "leader" ∷ "replicas" ∷ "isr" ∷ []

unfoldable pub debug_topic : MetadataTopic → List String
unfolding topic_error
debug_topic t = ("name" ∷ []) ++ error_field (topic_error t) ++ "partitions" ∷ []
