-- ===== src/Mocking/Session.antt =====
-- How long a mock cluster lives in mocking.rs: `MockCluster::new` or `from_client`, then its methods,
-- then its drop, as what they do to librdkafka's objects.
use rust_rdkafka.Prelude.{
  Bool, if◌then◌else◌, ℕ, ℤ, String, Option, none, some, List, [], ◌∷◌, ◌++◌, map,
}
use rust_rdkafka.Codes.RespErr.{RespErr}
use rust_rdkafka.Codes.ErrorCode.{ErrorCode}
use rust_rdkafka.Error.Defs.{KafkaResult, Result, ok, err, mock_cluster}
use rust_rdkafka.ErrBuf.{ErrBuf}
use rust_rdkafka.Client.Config.{ClientConfig}
use rust_rdkafka.Client.Calls.{CreationError, other, new_context_arc}
use rust_rdkafka.Util.{Duration}
use rust_rdkafka.Mocking.ApiKey.{ApiKey}
use rust_rdkafka.Mocking.Defs.{
  Made, MockCall, MockCoordinator, clear_request_errors, request_errors, topic_error, create_topic,
  partition_leader, partition_follower, follower_watermarks, broker_down, broker_up,
  broker_round_trip_time, broker_rack, coordinator, apiversion,
}

-- The methods, with their arguments.
pub data Method : Type 0 where
  clears_request_errors : ApiKey → Method
  requests_errors : ApiKey → List RespErr → Method
  sets_topic_error : String → RespErr → Method
  creates_topic : String → ℤ → ℤ → Method
  sets_partition_leader : String → ℤ → Option ℤ → Method
  sets_partition_follower : String → ℤ → ℤ → Method
  sets_follower_watermarks : String → ℤ → Option ℤ → Option ℤ → Method
  takes_broker_down takes_broker_up : ℤ → Method
  sets_round_trip_time : ℤ → Duration → Method
  sets_rack : ℤ → String → Method
  sets_coordinator : MockCoordinator → ℤ → Method
  sets_apiversion : ApiKey → Option ℤ → Option ℤ → Method

unfoldable pub perform : (MockCall → RespErr) → Method → Made
unfolding clear_request_errors request_errors topic_error create_topic partition_leader
    partition_follower follower_watermarks broker_down broker_up broker_round_trip_time broker_rack
    coordinator apiversion
perform answer (clears_request_errors k) = clear_request_errors answer k
perform answer (requests_errors k es) = request_errors answer k es
perform answer (sets_topic_error t e) = topic_error answer t e
perform answer (creates_topic t p r) = create_topic answer t p r
perform answer (sets_partition_leader t p b) = partition_leader answer t p b
perform answer (sets_partition_follower t p b) = partition_follower answer t p b
perform answer (sets_follower_watermarks t p l h) = follower_watermarks answer t p l h
perform answer (takes_broker_down b) = broker_down answer b
perform answer (takes_broker_up b) = broker_up answer b
perform answer (sets_round_trip_time b d) = broker_round_trip_time answer b d
perform answer (sets_rack b r) = broker_rack answer b r
perform answer (sets_coordinator c b) = coordinator answer c b
perform answer (sets_apiversion k l h) = apiversion answer k l h

pub data MockClusterClient : Type 0 where
  owned borrowed : MockClusterClient

-- `mock_cluster` is the pointer.
pub record MockCluster : Type 0 where
  pub mock_cluster : ℕ
  pub client : MockClusterClient

-- What happens to librdkafka's objects: a client is made or destroyed, a cluster is made (`none` is the
-- null pointer), used or destroyed.
pub data NativeCall : Type 0 where
  client_new client_destroy : NativeCall
  cluster_new : Option ℕ → NativeCall
  on_cluster : ℕ → MockCall → NativeCall
  cluster_destroy : ℕ → NativeCall

-- What `Client::new` is answered: by `native_config.set("log.queue", "true")`, by `rd_kafka_new`, and by
-- `rd_kafka_set_log_queue`. When that one fails, librdkafka's client is made and not destroyed.
pub record ClientAnswers : Type 0 where
  pub set : KafkaResult (Unit {0})
  pub made : Bool × ErrBuf
  pub queued : RespErr

unfoldable pub client_new_calls : KafkaResult (Unit {0}) → Bool × ErrBuf → List NativeCall
client_new_calls (err e) made = []
client_new_calls (ok u) made = if made.0 then client_new ∷ [] else []

-- The end of `MockCluster::new`, of what `rd_kafka_mock_cluster_new` returns. The client is dropped when
-- there is no cluster.
unfoldable pub cluster_of : Option ℕ → List NativeCall × Result CreationError MockCluster
cluster_of none =
    (cluster_new none ∷ client_destroy ∷ [], err (other (mock_cluster ErrorCode.fail)))
cluster_of (some p) = (cluster_new (some p) ∷ [], ok (record { mock_cluster = p; client = owned }))

-- `MockCluster::new`; `native_config` is the result of `create_native_config`.
unfoldable pub new :
    ClientConfig
    → KafkaResult (Unit {0})
    → ClientAnswers
    → Option ℕ
    → List NativeCall × Result CreationError MockCluster
unfolding new_context_arc client_new_calls cluster_of
new config (err e) answers made = ([], err (other e))
new config (ok u) answers made =
    let calls = client_new_calls answers.set answers.made in
    elim (new_context_arc config answers.set answers.made answers.queued) [
      | err e ↦ (calls, err e)
      | ok log_level ↦ let (later, result) = cluster_of made in (calls ++ later, result)
    ]

-- `MockCluster::from_client`, of what `rd_kafka_handle_mock_cluster` returns.
unfoldable pub from_client : Option ℕ → Option MockCluster
from_client none = none
from_client (some p) = some (record { mock_cluster = p; client = borrowed })

-- `drop`, and then the drop of the field `client`.
unfoldable pub drop : MockCluster → List NativeCall
drop c = elim c.client [
  | owned ↦ cluster_destroy c.mock_cluster ∷ client_destroy ∷ []
  | borrowed ↦ []
]

-- The calls of methods one after the other, each with librdkafka's answers then.
unfoldable pub performed : ℕ → List ((MockCall → RespErr) × Method) → List NativeCall
unfolding perform
performed p [] = []
performed p ((answer, m) ∷ ms) = map (on_cluster p) (perform answer m).0 ++ performed p ms

-- A cluster with its methods, to its drop.
abbrev pub used : List ((MockCall → RespErr) × Method) → MockCluster → List NativeCall
used ms c = performed c.mock_cluster ms ++ drop c

-- A session of `new`, and one of `from_client`.
unfoldable pub new_session :
    ClientConfig
    → KafkaResult (Unit {0})
    → ClientAnswers
    → Option ℕ
    → List ((MockCall → RespErr) × Method)
    → List NativeCall
unfolding new drop
new_session config native_config answers made ms =
    let (calls, made_cluster) = new config native_config answers made in
    calls ++ (elim made_cluster [ err e ↦ [] | ok c ↦ used ms c ])

unfoldable pub borrowed_session : Option ℕ → List ((MockCall → RespErr) × Method) → List NativeCall
unfolding from_client drop
borrowed_session handle ms = elim (from_client handle) [ none ↦ [] | some c ↦ used ms c ]
