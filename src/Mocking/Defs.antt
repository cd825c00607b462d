-- ===== src/Mocking/Defs.antt =====
-- `MockCluster` of mocking.rs: its creation, its methods and its drop, as the calls of librdkafka that
-- they make. What librdkafka answers is a parameter.
use rust_rdkafka.Prelude.{
  ℕ, ◌-◌, ◌^◌, ℤ, pos, negsuc, String, true, false, Option, none, some, List, [], ◌∷◌, ltb,
  if◌then◌else◌,
}
use rust_rdkafka.Codes.RespErr.{RespErr}
use rust_rdkafka.Codes.Convert.{to_error_code}
use rust_rdkafka.Error.Defs.{KafkaResult, ok, err, is_error, cstring_new, mock_cluster}
use rust_rdkafka.Util.{Duration, millis}
use rust_rdkafka.Mocking.ApiKey.{ApiKey, value}

-- The functions `rd_kafka_mock_*` that work on a cluster.
pub data MockCall : Type 0 where
  clear_errors : ℤ → MockCall
  push_errors : ℤ → List RespErr → MockCall
  topic_set_error : String → RespErr → MockCall
  topic_create : String → ℤ → ℤ → MockCall
  partition_set_leader partition_set_follower : String → ℤ → ℤ → MockCall
  partition_set_follower_wmarks : String → ℤ → ℤ → ℤ → MockCall
  broker_set_down broker_set_up : ℤ → MockCall
  broker_set_rtt : ℤ → ℤ → MockCall
  broker_set_rack : ℤ → String → MockCall
  coordinator_set : String → String → ℤ → MockCall
  set_apiversion : ℤ → ℤ → ℤ → MockCall

-- The calls that a method has made, and its result.
abbrev pub Made : Type 0
Made = List MockCall × KafkaResult (Unit {0})

pub data MockCoordinator : Type 0 where
  transaction group : String → MockCoordinator

-- `Option<i32>`, `Option<i16>` and `Option<i64>` with -1 for none.
abbrev pub unwrap_or_minus_one : Option ℤ → ℤ
unwrap_or_minus_one none = negsuc 0
unwrap_or_minus_one (some a) = a

-- `TryInto<c_int>` of a u128.
abbrev pub try_into_c_int : ℕ → Option ℤ
try_into_c_int n = if ltb n (2 ^ 31) then some (pos n) else none

abbrev pub c_int_max : ℤ
c_int_max = pos (2 ^ 31 - 1)

-- A text that is made a C string, with what is done with it.
unfoldable pub with_c_string : String → (String → Made) → Made
unfolding cstring_new
with_c_string text f = elim (cstring_new text) [ err e ↦ ([], err e) | ok text_c ↦ f text_c ]

module _ (answer : MockCall → RespErr) where
  unfoldable pub return_mock_op : MockCall → Made
  unfolding is_error
  return_mock_op op = (
    op ∷ [],
    elim (is_error (answer op)) [
      | true ↦ err (mock_cluster (to_error_code (answer op)))
      | false ↦ ok tt
    ],
  )

  unfoldable pub clear_request_errors : ApiKey → Made
  unfolding value
  clear_request_errors api_key = (clear_errors (value api_key) ∷ [], ok tt)

  unfoldable pub request_errors : ApiKey → List RespErr → Made
  unfolding value
  request_errors api_key errors = (push_errors (value api_key) errors ∷ [], ok tt)

  unfoldable pub topic_error : String → RespErr → Made
  unfolding with_c_string
  topic_error topic error =
      with_c_string topic (λ topic_c. (topic_set_error topic_c error ∷ [], ok tt))

  unfoldable pub create_topic : String → ℤ → ℤ → Made
  unfolding with_c_string return_mock_op
  create_topic topic partition_count replication_factor =
      with_c_string topic
        (λ topic_c. return_mock_op (topic_create topic_c partition_count replication_factor))

  unfoldable pub partition_leader : String → ℤ → Option ℤ → Made
  unfolding with_c_string return_mock_op
  partition_leader topic partition broker_id = with_c_string topic (λ topic_c.
      return_mock_op (partition_set_leader topic_c partition (unwrap_or_minus_one broker_id)))

  unfoldable pub partition_follower : String → ℤ → ℤ → Made
  unfolding with_c_string return_mock_op
  partition_follower topic partition broker_id =
      with_c_string topic
        (λ topic_c. return_mock_op (partition_set_follower topic_c partition broker_id))

  unfoldable pub follower_watermarks : String → ℤ → Option ℤ → Option ℤ → Made
  unfolding with_c_string return_mock_op
  follower_watermarks topic partition low_watermark high_watermark = with_c_string topic (λ topic_c.
      return_mock_op (
        partition_set_follower_wmarks topic_c partition (unwrap_or_minus_one low_watermark)
          (unwrap_or_minus_one high_watermark)))

  unfoldable pub broker_down : ℤ → Made
  unfolding return_mock_op
  broker_down broker_id = return_mock_op (broker_set_down broker_id)

  unfoldable pub broker_up : ℤ → Made
  unfolding return_mock_op
  broker_up broker_id = return_mock_op (broker_set_up broker_id)

  unfoldable pub broker_round_trip_time : ℤ → Duration → Made
  unfolding return_mock_op
  broker_round_trip_time broker_id delay =
      let rtt_ms : ℤ = elim (try_into_c_int (millis delay)) [ none ↦ c_int_max | some m ↦ m ] in
      return_mock_op (broker_set_rtt broker_id rtt_ms)

  unfoldable pub broker_rack : ℤ → String → Made
  unfolding with_c_string return_mock_op
  broker_rack broker_id rack =
      with_c_string rack (λ rack_c. return_mock_op (broker_set_rack broker_id rack_c))

  unfoldable pub coordinator : MockCoordinator → ℤ → Made
  unfolding with_c_string return_mock_op
  coordinator (transaction key) broker_id = with_c_string "transaction" (λ kind_c.
      with_c_string key (λ raw_c. return_mock_op (coordinator_set kind_c raw_c broker_id)))
  coordinator (group key) broker_id = with_c_string "group" (λ kind_c.
      with_c_string key (λ raw_c. return_mock_op (coordinator_set kind_c raw_c broker_id)))

  unfoldable pub apiversion : ApiKey → Option ℤ → Option ℤ → Made
  unfolding value return_mock_op
  apiversion api_key min_version max_version = return_mock_op (
      set_apiversion (value api_key) (unwrap_or_minus_one min_version)
        (unwrap_or_minus_one max_version))
