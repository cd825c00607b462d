-- ===== src/Client/Events.antt =====
-- The events of a librdkafka queue, `Client::poll_event` with its handlers, and the callbacks that
-- the client's context receives.
use rust_rdkafka.Prelude.{ℕ, ℤ, String, Bool, Option, none, some, List, [], ◌∷◌, if◌then◌else◌}
use rust_rdkafka.Codes.RespErr.{RespErr}
use rust_rdkafka.Codes.ErrorCode.{ErrorCode}
use rust_rdkafka.Codes.Convert.{to_error_code}
use rust_rdkafka.Error.Defs.{KafkaError, global}
use rust_rdkafka.TopicPartitionList.Native.{Tpl}
use rust_rdkafka.Message.Headers.{NativeHeaders}
use rust_rdkafka.Message.Defs.{NativeMessage, DeliveryResult}
use rust_rdkafka.Client.Config.{LogLevel, from_int}

module _ (native : NativeHeaders) where
  -- An event by `rd_kafka_event_type`, with what the functions `rd_kafka_event_*` that the code
  -- calls return for it. The first fields of a LOG event are the result of `rd_kafka_event_log`
  -- and the level, those of an ERROR event its code, text, whether it is fatal and its partition.
  -- A delivered message stands with its opaque.
  pub data Event : Type 0 where
    dr : List (NativeMessage native × ℕ) → Event
    fetch : Option (NativeMessage native) → Event
    log : ℤ → ℤ → String → String → Event
    error : RespErr → String → Bool → ℤ → Event
    rebalance : RespErr → Tpl → Event
    offset_commit : RespErr → Option Tpl → Event
    stats : String → Event
    oauthbearer_token_refresh : Option String → Event
    other : ℤ → Event

  -- What the context is told, in order. Texts are those before `trim`.
  pub data Callback : Type 0 where
    on_log : LogLevel → String → String → Callback
    on_stats_raw : String → Callback
    on_error : KafkaError → String → Callback
    on_oauth_refresh : Option String → Callback
    on_delivery : DeliveryResult native → ℕ → Callback
    on_rebalance : RespErr → Tpl → Callback
    on_commit : Option ErrorCode → Tpl → Callback

pub data EventPollResult {ℓ} (T : Type ℓ) : Type ℓ where
  nothing : EventPollResult T
  event_consumed : EventPollResult T
  event : T → EventPollResult T

-- `From<EventPollResult<T>> for Option<T>`.
unfoldable pub to_option {ℓ} : {T : Type ℓ} → EventPollResult T → Option T
to_option nothing = none
to_option event_consumed = none
to_option (event t) = some t

module _ {native : NativeHeaders} where
  unfoldable pub handle_log_event : ℤ → ℤ → String → String → List (Callback native)
  unfolding from_int
  handle_log_event (ℤ.pos ℕ.zero) level fac message = on_log (from_int level) fac message ∷ []
  handle_log_event _ level fac message = []

  unfoldable pub handle_error_event : RespErr → String → List (Callback native)
  handle_error_event e reason = on_error (global (to_error_code e)) reason ∷ []

  -- The result of the poll of the queue and `C::ENABLE_REFRESH_OAUTH_TOKEN` come in; the callbacks
  -- that are made and the result go out.
  unfoldable pub poll_event :
      Bool → Option (Event native) → List (Callback native) × EventPollResult (Event native)
  unfolding handle_log_event handle_error_event
  poll_event enable_refresh none = ([], nothing)
  poll_event enable_refresh (some (log result level fac message)) =
      (handle_log_event result level fac message, event_consumed)
  poll_event enable_refresh (some (stats json)) = (on_stats_raw json ∷ [], event_consumed)
  poll_event enable_refresh (some (error e reason fatal partition)) =
      (handle_error_event e reason, event (error e reason fatal partition))
  poll_event enable_refresh (some (oauthbearer_token_refresh config)) =
      (if enable_refresh then on_oauth_refresh config ∷ [] else [], event_consumed)
  poll_event enable_refresh (some ev) = ([], event ev)
