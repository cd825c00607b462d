-- ===== src/Admin/Results.antt =====
-- What the futures of the admin client make of librdkafka's results. A result is what librdkafka's
-- accessors return of it; `parse` is `str::parse::<i32>`.
use rust_rdkafka.Prelude.{ℤ, String, true, false, Option, none, some, List, [], ◌∷◌}
use rust_rdkafka.Codes.RespErr.{RespErr}
use rust_rdkafka.Codes.ErrorCode.{ErrorCode}
use rust_rdkafka.Codes.Convert.{to_error_code}
use rust_rdkafka.Error.Defs.{Result, ok, err, is_error, ◌>>=◌, RdKafkaError, is_error_native, code}

-- `rd_kafka_topic_result_t`.
pub record TopicAnswer : Type 0 where
  pub name : String
  pub error : RespErr

abbrev pub TopicResult : Type 0
TopicResult = Result (String × ErrorCode) String

unfoldable pub build_topic_results : List TopicAnswer → List TopicResult
unfolding is_error
build_topic_results [] = []
build_topic_results (t ∷ ts) =
    let rest = build_topic_results ts in
    elim (is_error t.error) [
      | true ↦ err (t.name, to_error_code t.error) ∷ rest
      | false ↦ ok t.name ∷ rest
    ]

-- `rd_kafka_group_result_t`.
pub record GroupAnswer : Type 0 where
  pub name : String
  pub error : RdKafkaError

unfoldable pub build_group_results : List GroupAnswer → List TopicResult
unfolding is_error_native code
build_group_results [] = []
build_group_results (g ∷ gs) =
    let rest = build_group_results gs in
    elim (is_error_native g.error) [
      | true ↦ err (g.name, code g.error) ∷ rest
      | false ↦ ok g.name ∷ rest
    ]

-- `RDKafkaResourceType`.
pub data ResourceType : Type 0 where
  unknown any topic group broker count : ResourceType

-- `rd_kafka_ConfigResource_t`, with the error that librdkafka has for it.
pub record Resource : Type 0 where
  pub typ : ResourceType
  pub name : String
  pub error : RespErr

pub data OwnedResourceSpecifier : Type 0 where
  topic_specifier group_specifier : String → OwnedResourceSpecifier
  broker_specifier : ℤ → OwnedResourceSpecifier

-- `RDKafkaConfigSource`.
pub data NativeSource : Type 0 where
  unknown_config dynamic_topic_config dynamic_broker_config dynamic_default_broker_config :
      NativeSource
  static_broker_config default_config group_config source_count : NativeSource

pub data Bogus : Type 0 where
  bogus_broker_id : String → Bogus
  bogus_type : ResourceType → Bogus
  bogus_source : NativeSource → Bogus

module _ (parse : String → Option ℤ) where
  unfoldable pub extract_config_specifier : Resource → Result Bogus OwnedResourceSpecifier
  extract_config_specifier r = elim r.typ [
    | topic ↦ ok (topic_specifier r.name)
    | group ↦ ok (group_specifier r.name)
    | broker ↦ elim (parse r.name) [
      | some id ↦ ok (broker_specifier id)
      | none ↦ err (bogus_broker_id r.name)
    ]
    | typ ↦ err (bogus_type typ)
  ]

  -- The loop of `AlterConfigsFuture::poll`; an element is an `AlterConfigsResult`.
  unfoldable pub alter_configs_results :
      List Resource
      → Result Bogus (List (Result (OwnedResourceSpecifier × ErrorCode) OwnedResourceSpecifier))
  unfolding extract_config_specifier
  alter_configs_results [] = ok []
  alter_configs_results (r ∷ rs) = extract_config_specifier r >>= λ specifier.
      alter_configs_results rs >>= λ rest. ok (ok specifier ∷ rest)
