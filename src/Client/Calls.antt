-- ===== src/Client/Calls.antt =====
-- The calls of `Client` in client.rs: its creation, the refresh of OAuth tokens, and what it fetches.
-- Answers of librdkafka and of the context come in.
use rust_rdkafka.Prelude.{
  ℕ, ℤ, pos, negsuc, String, Bool, true, false, Option, none, some, List, [], ◌∷◌, if◌then◌else◌,
}
use rust_rdkafka.Codes.RespErr.{RespErr}
use rust_rdkafka.Codes.ErrorCode.{ErrorCode}
use rust_rdkafka.Codes.Convert.{to_error_code}
use rust_rdkafka.Error.Defs.{
  KafkaError, KafkaResult, Result, ok, err, is_error, cstring_new, global, metadata_fetch,
  group_list_fetch,
}
use rust_rdkafka.ErrBuf.{ErrBuf, to_string}
use rust_rdkafka.Client.Config.{ClientConfig, to_int}

-- Why a client is not made: the text in the error buffer, or another error.
pub data CreationError : Type 0 where
  creation_text : Option (List ℕ) → CreationError
  other : KafkaError → CreationError

-- `Client::new_context_arc`: the level that is set for the log. `set` is the result of
-- `native_config.set("log.queue", "true")`, `made` that of `rd_kafka_new` with its buffer, `queued` that
-- of `rd_kafka_set_log_queue`.
unfoldable pub new_context_arc :
    ClientConfig → KafkaResult (Unit {0}) → Bool × ErrBuf → RespErr → Result CreationError ℤ
unfolding to_string is_error to_int
new_context_arc config (err e) made queued = err (other e)
new_context_arc config (ok u) made queued =
    if made.0
    then elim (is_error queued) [
      | true ↦ err (other (global (to_error_code queued)))
      | false ↦ ok (to_int config.log_level)
    ]
    else err (creation_text (to_string made.1))

pub record OAuthToken : Type 0 where
  pub token : String
  pub principal_name : String
  pub lifetime_ms : ℤ

-- A call of `rd_kafka_oauthbearer_set_token` or `_set_token_failure`; the text of a failure is that of
-- an error, what librdkafka left in the error buffer, or the literal.
pub data TokenCall : Type 0 where
  set_token : String → ℤ → String → TokenCall
  set_token_failure : String → TokenCall
  set_token_failure_text : ErrBuf → TokenCall

abbrev pub null_character_text : String
null_character_text = "error while refreshing OAuth token has embedded null character"

-- The closure in `handle_oauth_refresh_event`; `show` is the text of an error, here a `NulError`.
unfoldable pub refreshed :
    (KafkaError → String) → Result String OAuthToken → Result String (String × String × ℤ)
unfolding cstring_new
refreshed show (err e) = err e
refreshed show (ok t) = elim (cstring_new t.token) [
  | err e ↦ err (show e)
  | ok token ↦ elim (cstring_new t.principal_name) [
    | err e ↦ err (show e)
    | ok principal_name ↦ ok (token, principal_name, t.lifetime_ms)
  ]
]

-- The `match` on its result; `answer` is what `rd_kafka_oauthbearer_set_token` answers.
unfoldable pub token_calls :
    (TokenCall → RespErr × ErrBuf) → Result String (String × String × ℤ) → List TokenCall
unfolding cstring_new is_error
token_calls answer (ok (token, principal_name, lifetime_ms)) =
    let call = set_token token lifetime_ms principal_name in
    let answered = answer call in
    elim (is_error answered.0) [
      | false ↦ call ∷ []
      | true ↦ call ∷ set_token_failure_text answered.1 ∷ []
    ]
token_calls answer (err e) = elim (cstring_new e) [
  | ok message ↦ set_token_failure message ∷ []
  | err x ↦ set_token_failure null_character_text ∷ []
]

-- `handle_oauth_refresh_event`: its calls, of the token that the context gives for the configuration or
-- the text of its error.
unfoldable pub handle_oauth_refresh_event :
    (KafkaError → String)
    → (Option String → Result String OAuthToken)
    → (TokenCall → RespErr × ErrBuf)
    → Option String
    → List TokenCall
unfolding refreshed token_calls
handle_oauth_refresh_event show generate answer config =
    token_calls answer (refreshed show (generate config))

-- `native_topic`: the topic that is made, or that the name has a zero byte.
unfoldable pub native_topic : String → KafkaResult String
unfolding cstring_new
native_topic topic = cstring_new topic

-- `fetch_metadata`, of what `rd_kafka_metadata` answers to the flag and the topic.
unfoldable pub fetch_metadata {ℓ} :
    {A : Type ℓ} → (ℤ → Option String → RespErr × A) → Option String → KafkaResult A
unfolding native_topic is_error
fetch_metadata native none =
    let answered = native (pos 1) none in
    elim (is_error answered.0) [
      | true ↦ err (metadata_fetch (to_error_code answered.0))
      | false ↦ ok answered.1
    ]
fetch_metadata native (some topic_name) = elim (native_topic topic_name) [
  | err e ↦ err e
  | ok topic ↦
      let answered = native (pos 0) (some topic) in
      elim (is_error answered.0) [
        | true ↦ err (metadata_fetch (to_error_code answered.0))
        | false ↦ ok answered.1
      ]
]

-- `fetch_watermarks`, of the code and of what is in `low` and `high` after the call, -1 if it was not
-- written.
unfoldable pub fetch_watermarks :
    (String → ℤ → RespErr × Option ℤ × Option ℤ) → String → ℤ → KafkaResult (ℤ × ℤ)
unfolding cstring_new is_error
fetch_watermarks native topic partition = elim (cstring_new topic) [
  | err e ↦ err e
  | ok topic_c ↦
      let answered = native topic_c partition in
      let value : Option ℤ → ℤ = λ o. elim o [ none ↦ negsuc 0 | some v ↦ v ] in
      elim (is_error answered.0) [
        | true ↦ err (metadata_fetch (to_error_code answered.0))
        | false ↦ ok (value answered.1, value answered.2)
      ]
]

-- `fetch_cluster_id`: the bytes that `rd_kafka_clusterid` returns, by `String::from_utf8`.
unfoldable pub fetch_cluster_id : (List ℕ → Option String) → Option (List ℕ) → Option String
fetch_cluster_id from_utf8 none = none
fetch_cluster_id from_utf8 (some bytes) = from_utf8 bytes

-- `fetch_group_list`, of what `rd_kafka_list_groups` answers; `none` is the null pointer.
unfoldable pub fetch_group_list {ℓ} :
    {A : Type ℓ} → (Option String → RespErr × A) → Option String → KafkaResult A
unfolding cstring_new is_error
fetch_group_list native group = elim (cstring_new (elim group [ none ↦ "" | some g ↦ g ])) [
  | err e ↦ err e
  | ok group_c ↦
      let answered = native (elim group [ none ↦ none | some g ↦ some group_c ]) in
      elim (is_error answered.0) [
        | true ↦ err (group_list_fetch (to_error_code answered.0))
        | false ↦ ok answered.1
      ]
]

-- `fatal_error`, of the code and the buffer that `rd_kafka_fatal_error` gives.
unfoldable pub fatal_error : RespErr × ErrBuf → Option (ErrorCode × Option (List ℕ))
unfolding to_string
fatal_error (RespErr.no_error, err_buf) = none
fatal_error (code, err_buf) = some (to_error_code code, to_string err_buf)
