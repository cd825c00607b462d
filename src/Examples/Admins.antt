-- ===== src/Examples/Admins.antt =====
-- Uses of the theorems on the admin client and on the equality of lists of topic partitions.
use rust_rdkafka.Prelude.{
  map, ℤ, pos, negsuc, ◌≡◌, ◌↔◌, refl, true, false, String, Option, none, some, List, [], ◌∷◌, ◌++◌,
  codes_contain, All, arith, if◌then◌else◌, str_eq,
}
use rust_rdkafka.Codes.RespErr.{RespErr}
use rust_rdkafka.Codes.ErrorCode.{ErrorCode}
use rust_rdkafka.Codes.Convert.{to_error_code}
use rust_rdkafka.Error.Defs.{Result, ok, err}
use rust_rdkafka.ErrBuf.{ErrBuf}
use rust_rdkafka.TopicPartitionList.Native.{Tpl, plain, fresh}
use rust_rdkafka.TopicPartitionList.Tpl.{tpl_eq}
use rust_rdkafka.TopicPartitionList.Elem.{metadata}
use rust_rdkafka.TopicPartitionList.Equality.{IsCString, IsReadable}
use rust_rdkafka.TopicPartitionList.MapView.{to_map, tpl_eq_map}
use rust_rdkafka.Admin.Requests
use rust_rdkafka.Admin.Requests.{AdminOptions, Setting, RequestError}
use rust_rdkafka.Admin.Results.{
  Resource, Bogus, broker_specifier, broker, static_broker_config, group_config,
  extract_config_specifier,
}
use rust_rdkafka.Admin.Building.{
  Native, NativeTopic, NewTopic, variable, create_topics_inner, build_topic, set_replicas,
  specifier_to_native,
}
use rust_rdkafka.Admin.BuildingLaws.{IsMade, Each, create_topics_inner-IsMade}
use rust_rdkafka.Admin.Futures.{
  NativeEntry, ConfigResource, Received, received, describe_configs_future,
  describe_configs_results, Polled, poll_thread,
}
use rust_rdkafka.Admin.FuturesLaws.{
  extract-specifier_to_native, AreDescribed, describe_configs_future-AreDescribed,
  describe_configs_results-group_config, Drains, poll_thread-Drains,
}

abbrev buffer : ErrBuf
buffer = record { buf = 0 ∷ [] }

-- A librdkafka that accepts all.
abbrev native : Native
native = record {
  new_topic = λ name n repl buf. (true, buf);
  set_replica_assignment = λ t i ids buf. (RespErr.no_error, buf);
  topic_set_config = λ t key val. RespErr.no_error;
  resource_set_config = λ c key val. RespErr.no_error;
  make_partitions = λ buf. record {
    make = λ name n. (true, buf);
    set_replicas = λ i ids. (RespErr.no_error, buf);
  };
  new_delete_records = λ t. true;
  options = λ buf s. (RespErr.no_error, buf);
}

-- Ids are printed as one name, and parsed as one id.
abbrev print : ℤ → String
print id = "7"

abbrev topics : List NewTopic
topics =
    record {
      name = "t";
      num_partitions = pos 2;
      replication = variable ((pos 1 ∷ []) ∷ (pos 2 ∷ []) ∷ []);
      config = ("retention.ms", "5") ∷ [];
    }
    ∷ []

abbrev no_options : AdminOptions
unfolding Requests.new
no_options = Requests.new

abbrev made : List NativeTopic
made =
    record {
      name = "t";
      num_partitions = pos 2;
      replication_factor = negsuc 0;
      replicas = (pos 0, pos 1 ∷ []) ∷ (pos 1, pos 2 ∷ []) ∷ [];
      config = ("retention.ms", "5") ∷ [];
    }
    ∷ []

made_is : create_topics_inner native print topics no_options ≡ ok made
unfolding create_topics_inner codes_contain to_error_code build_topic set_replicas no_options
made_is = refl

create_topics_inner-IsMade_example : Each IsMade topics made
create_topics_inner-IsMade_example =
    create_topics_inner-IsMade native print topics no_options made made_is

abbrev parse : String → Option ℤ
parse name = if str_eq name "7" then some (pos 7) else none

printed : specifier_to_native print (broker_specifier (pos 7)) ≡ ok ("7", broker)
unfolding specifier_to_native codes_contain
printed = refl

parsed : (id : ℤ) → broker_specifier (pos 7) ≡ broker_specifier id → parse (print id) ≡ some id
parsed id h = ground (arith, h)

extract-specifier_to_native_example :
    extract_config_specifier parse (record { typ = broker; name = "7"; error = RespErr.no_error })
    ≡ ok (broker_specifier (pos 7))
extract-specifier_to_native_example =
    extract-specifier_to_native parse print (broker_specifier (pos 7)) "7" broker RespErr.no_error
      parsed printed

abbrev entry : NativeEntry
entry = record {
  name = "log.dirs";
  value = some "/tmp";
  source = static_broker_config;
  is_read_only = true;
  is_default = false;
  is_sensitive = false;
}

abbrev resource : Resource
resource = record { typ = broker; name = "7"; error = RespErr.no_error }

abbrev event : Received (List (Resource × List NativeEntry))
event =
    received RespErr.no_error
      (some ((record resource { error = RespErr.invalid_config }, entry ∷ []) ∷ [])) (pos 0)

abbrev described : List (Result ErrorCode ConfigResource)
unfolding describe_configs_future
described = elim (describe_configs_future parse event) [ ok cs ↦ cs | err e ↦ [] ]

described_is : describe_configs_future parse event ≡ ok described
unfolding describe_configs_future
described_is = refl

describe_configs_future-AreDescribed_example :
    (rs : List (Resource × List NativeEntry)) × (e : RespErr) × (typ : ℤ) × (out : List
      ConfigResource)
    × (event ≡ received e (some rs) typ)
    × (e ≡ RespErr.no_error)
    × (described ≡ map ok out)
    × AreDescribed parse rs out
describe_configs_future-AreDescribed_example =
    describe_configs_future-AreDescribed parse event described described_is

abbrev group_entry : NativeEntry
group_entry = record entry { source = group_config }

describe_configs_results-group_config_example :
    (e : Bogus) × (describe_configs_results parse
        ([] ++ (resource, (entry ∷ []) ++ group_entry ∷ []) ∷ [])
      ≡ err e)
describe_configs_results-group_config_example =
    describe_configs_results-group_config parse [] [] resource (entry ∷ []) [] group_entry refl

abbrev thread_polls : List (Polled String)
thread_polls =
    record { event = none; should_stop = false }
    ∷ record { event = some (3, "created"); should_stop = true }
    ∷ record { event = none; should_stop = true }
    ∷ []

drained : poll_thread thread_polls ≡ some ((3, "created") ∷ [], [])
unfolding poll_thread
drained = refl

poll_thread-Drains_example : Drains thread_polls ((3, "created") ∷ []) []
poll_thread-Drains_example = poll_thread-Drains thread_polls ((3, "created") ∷ []) [] drained

abbrev last_first : Tpl
last_first = record { elems = fresh "b" (pos 1) ∷ fresh "a" (pos 0) ∷ []; size = 5 }

abbrev first_last : Tpl
first_last = record { elems = fresh "a" (pos 0) ∷ fresh "b" (pos 1) ∷ []; size = 2 }

no_zeros : All IsCString first_last.elems
unfolding codes_contain
no_zeros = (refl, (refl, tt))

texts : All IsReadable first_last.elems
unfolding metadata
texts = (λ h. ground (arith, h), ((λ h. ground (arith, h)), tt))

tpl_eq_map_example : (tpl_eq plain first_last last_first ≡ some true) ↔ (
    (topic : String) (partition : ℤ)
    → to_map first_last topic partition ≡ to_map last_first topic partition)
tpl_eq_map_example =
    tpl_eq_map plain first_last last_first no_zeros texts (refl, (refl, tt)) (refl, (refl, tt))
