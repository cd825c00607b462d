-- ===== src/Consumer/Poll.antt =====
-- `BaseConsumer::poll_queue` and its event handlers. The queue and the clock enter as a list of
-- answers: what each poll of the queue returned, and how long after the start it returned.
use rust_rdkafka.Prelude.{
  ℤ, Bool, true, false, Option, none, some, map_option, List, [], ◌∷◌, ◌++◌, if◌then◌else◌,
}
use rust_rdkafka.Codes.RespErr.{RespErr}
use rust_rdkafka.Codes.ErrorCode.{ErrorCode}
use rust_rdkafka.Codes.Convert.{to_error_code}
use rust_rdkafka.Error.Defs.{
  KafkaError, KafkaResult, err, is_error, partition_eof, message_consumption,
  message_consumption_fatal,
}
use rust_rdkafka.Util.{Timeout, Duration, saturating_sub, is_zero, is_never, min_timeout}
use rust_rdkafka.TopicPartitionList.Native.{Tpl}
use rust_rdkafka.Message.Headers.{NativeHeaders}
use rust_rdkafka.Message.Defs.{NativeMessage, from_client}
use rust_rdkafka.Client.Events.{
  Event, fetch, error, rebalance, offset_commit, Callback, on_rebalance, on_commit, EventPollResult,
  nothing, event_consumed, event, poll_event,
}

unfoldable pub handle_error_event : RespErr → Bool → ℤ → Option KafkaError
unfolding is_error
handle_error_event e fatal partition = elim (is_error e) [
  | false ↦ none
  | true ↦ elim e [
    | RespErr.partition_eof ↦ some (partition_eof partition)
    | e' ↦ some (
        if fatal
        then message_consumption_fatal (to_error_code e')
        else message_consumption (to_error_code e'))
  ]
]

module _ {native : NativeHeaders} where
  unfoldable pub handle_fetch_event :
      Option (NativeMessage native) → Option (KafkaResult (NativeMessage native))
  unfolding from_client
  handle_fetch_event none = none
  handle_fetch_event (some m) = some (from_client m)

  unfoldable pub handle_rebalance_event : RespErr → Tpl → List (Callback native)
  handle_rebalance_event RespErr.assign_partitions tpl =
      on_rebalance RespErr.assign_partitions tpl ∷ []
  handle_rebalance_event RespErr.revoke_partitions tpl =
      on_rebalance RespErr.revoke_partitions tpl ∷ []
  handle_rebalance_event _ tpl = []

  -- `none` is the success that the callback is told. A commit with no list is told a new one.
  unfoldable pub handle_offset_commit_event : Tpl → RespErr → Option Tpl → List (Callback native)
  unfolding is_error
  handle_offset_commit_event empty e offsets =
      let result : Option ErrorCode = elim (is_error e) [
        | true ↦ some (to_error_code e)
        | false ↦ none
      ] in
      elim offsets [ none ↦ on_commit result empty ∷ [] | some tpl ↦ on_commit result tpl ∷ [] ]

-- What a turn of the loop leads to: the loop returns, or it goes on with this `timeout`.
pub data Turn (R : Type 0) : Type 0 where
  return : R → Turn R
  continue : Timeout → Turn R

-- One poll of the queue: what it returned, and `now.elapsed()` then.
pub record Answer (native : NativeHeaders) : Type 0 where
  pub polled : Option (Event native)
  pub elapsed : Duration

-- What `poll_queue` has done when it returns: its result, the callbacks made, the timeouts that it
-- polled the queue with, and the answers that it did not ask for.
pub record Polled (native : NativeHeaders) : Type 0 where
  pub result : EventPollResult (KafkaResult (NativeMessage native))
  pub callbacks : List (Callback native)
  pub timeouts : List Timeout
  pub rest : List (Answer native)

module _ {native : NativeHeaders} where
  -- The handling of one event: the callbacks, and whether the loop returns.
  unfoldable pub handle_event :
      Tpl
      → Timeout
      → Event native
      → List (Callback native) × Option (EventPollResult (KafkaResult (NativeMessage native)))
  unfolding handle_fetch_event handle_error_event handle_rebalance_event handle_offset_commit_event
  handle_event empty timeout (fetch m) =
      ([], elim (handle_fetch_event m) [ none ↦ none | some r ↦ some (event r) ])
  handle_event empty timeout (error e reason fatal partition) = (
    [],
    elim (handle_error_event e fatal partition) [ none ↦ none | some x ↦ some (event (err x)) ],
  )
  handle_event empty timeout (rebalance e tpl) =
      (handle_rebalance_event e tpl, if is_never timeout then none else some event_consumed)
  handle_event empty timeout (offset_commit e offsets) = (
    handle_offset_commit_event empty e offsets,
    if is_never timeout then none else some event_consumed,
  )
  handle_event empty timeout _ = ([], none)

  -- A turn's callbacks and timeout stand before those of the turns after it.
  abbrev pub goes_on : List (Callback native) → Timeout → Polled native → Polled native
  goes_on cs t p = record {
    result = p.result;
    callbacks = cs ++ p.callbacks;
    timeouts = t ∷ p.timeouts;
    rest = p.rest;
  }

  -- The rest of the loop after a turn: nothing, or the loop with another timeout.
  abbrev pub follow :
      Timeout
      → List (Callback native)
      → List (Answer native)
      → (Timeout → Option (Polled native))
      → Turn (EventPollResult (KafkaResult (NativeMessage native)))
      → Option (Polled native)
  follow op_timeout cs rest loop (return r) =
      some record { result = r; callbacks = cs; timeouts = op_timeout ∷ []; rest = rest }
  follow op_timeout cs rest loop (continue t) = map_option (goes_on cs op_timeout) (loop t)

  -- `refresh` is the context's ENABLE_REFRESH_OAUTH_TOKEN, `interval` its
  -- `main_queue_min_poll_interval`, `empty` the list that `TopicPartitionList::new` returns.
  module _ (refresh : Bool) (interval : Timeout) (empty : Tpl) (initial : Timeout) where
    -- What follows a poll of the queue with the current `timeout`.
    unfoldable pub turn :
        Timeout
        → Answer native
        → List (Callback native) × Turn (EventPollResult (KafkaResult (NativeMessage native)))
    unfolding poll_event handle_event saturating_sub is_zero
    turn timeout a =
        let polled = poll_event refresh a.polled in
        let left = saturating_sub initial a.elapsed in
        elim polled.1 [
          | event ev ↦
              let handled = handle_event empty timeout ev in
              (
                polled.0 ++ handled.0,
                elim handled.1 [ some r ↦ return r | none ↦ continue timeout ],
              )
          | nothing ↦ (polled.0, if is_zero left then return nothing else continue left)
          | event_consumed ↦
              (polled.0, if is_zero left then return event_consumed else continue left)
        ]

    -- The loop; `none` while no answer is left and it has not returned.
    unfoldable pub poll_loop : Timeout → List (Answer native) → Option (Polled native)
    unfolding turn min_timeout
    poll_loop timeout [] = none
    poll_loop timeout (a ∷ rest) =
        let turned = turn timeout a in
        follow (min_timeout timeout interval) turned.0 rest (λ t. poll_loop t rest) turned.1

    unfoldable pub poll_queue : List (Answer native) → Option (Polled native)
    unfolding poll_loop
    poll_queue answers = poll_loop initial answers
