-- ===== src/Examples/Codes.antt =====
-- Uses of the theorems on codes, errors, timeouts, configurations and messages.
use rust_rdkafka.Prelude.{
  ◌+◌, ◌-◌, ◌*◌, ◌^◌, ◌≡◌, refl, pos, true, none, some, List, [], ◌∷◌, if◌then◌else◌,
}
use rust_rdkafka.Codes.RespErr
use rust_rdkafka.Codes.RespErr.{RespErr}
use rust_rdkafka.Codes.ErrorCode
use rust_rdkafka.Codes.ErrorCode.{ErrorCode}
use rust_rdkafka.Codes.Convert.{to_error_code}
use rust_rdkafka.Codes.Laws.{value-to_error_code}
use rust_rdkafka.ErrBuf.{ErrBuf}
use rust_rdkafka.Util.{after, never, as_millis, from_millis}
use rust_rdkafka.Util.Laws.{as_millis_wraps}
use rust_rdkafka.Client.Config.{
  ClientConfig, get, lookup, config_map, debug_map, is_sensitive, LogLevel,
}
use rust_rdkafka.Client.ConfigLaws.{sanitized, printed-get}
use rust_rdkafka.Admin.Requests.{NewPartitions, Maker, partitions_to_native}
use rust_rdkafka.Admin.Results.{
  Resource, ResourceType, alter_configs_results, topic_specifier, OwnedResourceSpecifier,
}
use rust_rdkafka.Admin.Laws.{HasRoom, partitions_to_native-HasRoom, alter_configs_results-all_ok}
use rust_rdkafka.Error.Defs.{ok, Result}
use rust_rdkafka.Prelude.{map}

value-to_error_code_example :
    ErrorCode.value (to_error_code RespErr.partition_eof) ≡ RespErr.value RespErr.partition_eof
value-to_error_code_example = value-to_error_code RespErr.partition_eof

as_millis_wraps_example :
    as_millis (after (from_millis (1 * 2 ^ 32 + (2 ^ 32 - 1)))) ≡ as_millis never
as_millis_wraps_example = as_millis_wraps 1

abbrev config : ClientConfig
config = record { conf_map = ("sasl.password", "secret") ∷ []; log_level = LogLevel.info }

printed-get_example :
    (lookup "sasl.password" (config_map config.conf_map)
      ≡ sanitized "sasl.password" (get config "sasl.password"))
    × (lookup "sasl.password" (debug_map config.conf_map)
        ≡ (if is_sensitive "sasl.password" then none else get config "sasl.password"))
printed-get_example = printed-get config "sasl.password"

abbrev buffer : ErrBuf
buffer = record { buf = 104 ∷ 105 ∷ 0 ∷ 0 ∷ [] }

abbrev maker : Maker
maker = record {
  make = λ name n. (true, buffer);
  set_replicas = λ i ids. (RespErr.no_error, buffer);
}

abbrev partitions : NewPartitions
partitions = record {
  topic_name = "t";
  new_partition_count = 3;
  assignment = some ((pos 1 ∷ []) ∷ (pos 2 ∷ []) ∷ []);
}

partitions_to_native-HasRoom_example : HasRoom 3 (partitions_to_native maker partitions).0
partitions_to_native-HasRoom_example = partitions_to_native-HasRoom maker partitions

abbrev resources : List Resource
resources =
    record { typ = ResourceType.topic; name = "t"; error = RespErr.unknown_topic_or_part } ∷ []

abbrev outcomes : List (Result (OwnedResourceSpecifier × ErrorCode) OwnedResourceSpecifier)
outcomes = ok (topic_specifier "t") ∷ []

altered : alter_configs_results (λ s. none) resources ≡ ok outcomes
unfolding alter_configs_results
altered = refl

alter_configs_results-all_ok_example :
    (specifiers : List OwnedResourceSpecifier) × (outcomes ≡ map ok specifiers)
alter_configs_results-all_ok_example =
    alter_configs_results-all_ok (λ s. none) resources outcomes altered
