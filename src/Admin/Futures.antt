-- ===== src/Admin/Futures.antt =====
-- The futures of the admin client, the thread that completes them, and described configurations.
use rust_rdkafka.Prelude.{
  ℤ, ℕ, String, Bool, true, false, Option, none, some, List, [], ◌∷◌, str_eq, if◌then◌else◌,
  map_option,
}
use rust_rdkafka.Codes.RespErr.{RespErr}
use rust_rdkafka.Codes.ErrorCode.{ErrorCode}
use rust_rdkafka.Codes.Convert.{to_error_code}
use rust_rdkafka.Error.Defs.{
  KafkaError, KafkaResult, Result, ok, err, is_error, ◌>>=◌, admin_op, canceled,
}
use rust_rdkafka.TopicPartitionList.Native.{Tpl}
use rust_rdkafka.Admin.Results.{
  TopicAnswer, GroupAnswer, TopicResult, Resource, Bogus, bogus_source, NativeSource,
  OwnedResourceSpecifier, build_topic_results, build_group_results, extract_config_specifier,
  alter_configs_results, unknown_config, dynamic_topic_config, dynamic_broker_config,
  dynamic_default_broker_config, static_broker_config, default_config,
}

pub data ConfigSource : Type 0 where
  unknown dynamic_topic dynamic_broker dynamic_default_broker static_broker default : ConfigSource

unfoldable pub extract_config_source : NativeSource → Result Bogus ConfigSource
extract_config_source unknown_config = ok unknown
extract_config_source dynamic_topic_config = ok dynamic_topic
extract_config_source dynamic_broker_config = ok dynamic_broker
extract_config_source dynamic_default_broker_config = ok dynamic_default_broker
extract_config_source static_broker_config = ok static_broker
extract_config_source default_config = ok default
extract_config_source source = err (bogus_source source)

-- `rd_kafka_ConfigEntry_t`; a flag is whether it is not 0.
pub record NativeEntry : Type 0 where
  pub name : String
  pub value : Option String
  pub source : NativeSource
  pub is_read_only : Bool
  pub is_default : Bool
  pub is_sensitive : Bool

pub record ConfigEntry : Type 0 where
  pub name : String
  pub value : Option String
  pub source : ConfigSource
  pub is_read_only : Bool
  pub is_default : Bool
  pub is_sensitive : Bool

pub record ConfigResource : Type 0 where
  pub specifier : OwnedResourceSpecifier
  pub entries : List ConfigEntry

-- `ConfigResource::get`, and `entry_map` in the order in which the map is iterated: of entries with
-- one name the last stands in it.
unfoldable pub find_entry : String → List ConfigEntry → Option ConfigEntry
find_entry name [] = none
find_entry name (e ∷ es) = if str_eq e.name name then some e else find_entry name es

unfoldable pub get : ConfigResource → String → Option ConfigEntry
unfolding find_entry
get r name = find_entry name r.entries

unfoldable pub put_entry : ConfigEntry → List ConfigEntry → List ConfigEntry
put_entry new [] = new ∷ []
put_entry new (e ∷ es) =
    let rest = put_entry new es in if str_eq e.name new.name then new ∷ es else e ∷ rest

unfoldable pub collect_entries : List ConfigEntry → List ConfigEntry → List ConfigEntry
unfolding put_entry
collect_entries [] m = m
collect_entries (e ∷ es) m = collect_entries es (put_entry e m)

unfoldable pub entry_map : ConfigResource → List ConfigEntry
unfolding collect_entries
entry_map r = collect_entries r.entries []

-- The loops of `DescribeConfigsFuture::poll`.
unfoldable pub config_entries : List NativeEntry → Result Bogus (List ConfigEntry)
unfolding extract_config_source
config_entries [] = ok []
config_entries (e ∷ es) = extract_config_source e.source >>= λ source. config_entries es >>= λ rest.
    ok (
      record {
        name = e.name;
        value = e.value;
        source = source;
        is_read_only = e.is_read_only;
        is_default = e.is_default;
        is_sensitive = e.is_sensitive;
      }
      ∷ rest)

module _ (parse : String → Option ℤ) where
  unfoldable pub describe_configs_results :
      List (Resource × List NativeEntry) → Result Bogus (List (Result ErrorCode ConfigResource))
  unfolding config_entries extract_config_specifier
  describe_configs_results [] = ok []
  describe_configs_results ((r, configs) ∷ rs) = extract_config_specifier parse r >>= λ specifier.
      config_entries configs >>= λ entries. describe_configs_results rs >>= λ rest.
      ok (ok (record { specifier = specifier; entries = entries }) ∷ rest)

-- What the receiver of a future gets: nothing when the sender is gone, or an event by its error, its
-- result, `none` the null pointer, and its type.
pub data Received (R : Type 0) : Type 0 where
  gone : Received R
  received : RespErr → Option R → ℤ → Received R

pub data FutureError : Type 0 where
  failed : KafkaError → FutureError
  incorrect_type : ℤ → FutureError
  response : Bogus → FutureError

unfoldable pub check_error : RespErr → KafkaResult (Unit {0})
unfolding is_error
check_error e = elim (is_error e) [ true ↦ err (admin_op (to_error_code e)) | false ↦ ok tt ]

abbrev pub respond : {A : Type 0} → Result Bogus A → Result FutureError A
respond (ok a) = ok a
respond (err e) = err (response e)

-- `poll` of a future that is ready; `build` is what is particular to it.
unfoldable pub resolve : {R A : Type 0} → (R → Result Bogus A) → Received R → Result FutureError A
unfolding check_error
resolve build gone = err (failed canceled)
resolve build (received e result typ) = elim (check_error e) [
  | err x ↦ err (failed x)
  | ok u ↦ elim result [ none ↦ err (incorrect_type typ) | some r ↦ respond (build r) ]
]

-- The futures for topics that are created or deleted and for partitions; for groups; for records.
unfoldable pub topics_future : Received (List TopicAnswer) → Result FutureError (List TopicResult)
unfolding resolve build_topic_results
topics_future r = resolve (λ topics. ok (build_topic_results topics)) r

unfoldable pub groups_future : Received (List GroupAnswer) → Result FutureError (List TopicResult)
unfolding resolve build_group_results
groups_future r = resolve (λ groups. ok (build_group_results groups)) r

unfoldable pub records_future : Received Tpl → Result FutureError Tpl
unfolding resolve
records_future r = resolve ok r

module _ (parse : String → Option ℤ) where
  unfoldable pub describe_configs_future :
      Received (List (Resource × List NativeEntry))
      → Result FutureError (List (Result ErrorCode ConfigResource))
  unfolding resolve describe_configs_results
  describe_configs_future r = resolve (describe_configs_results parse) r

  unfoldable pub alter_configs_future :
      Received (List Resource)
      → Result FutureError
          (List (Result (OwnedResourceSpecifier × ErrorCode) OwnedResourceSpecifier))
  unfolding resolve alter_configs_results
  alter_configs_future r = resolve (alter_configs_results parse) r

-- One poll of the queue by the thread: the event with the opaque of its sender, and `should_stop`
-- then.
pub record Polled (E : Type 0) : Type 0 where
  pub event : Option (ℕ × E)
  pub should_stop : Bool

-- The thread of `start_poll_thread`: the events that it sends, each to the sender of its opaque, and
-- the polls that it leaves; `none` while it has not ended.
unfoldable pub poll_thread :
    {E : Type 0} → List (Polled E) → Option (List (ℕ × E) × List (Polled E))
poll_thread [] = none
poll_thread (p ∷ ps) =
    let rest = poll_thread ps in
    elim p.event [
      | some e ↦ map_option (λ r. (e ∷ r.0, r.1)) rest
      | none ↦ if p.should_stop then some ([], ps) else rest
    ]
