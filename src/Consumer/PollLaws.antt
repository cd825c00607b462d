-- ===== src/Consumer/PollLaws.antt =====
-- No message is lost by a poll of a consumer, and when it returns.
use rust_rdkafka.Prelude.{
  ℤ, String, ap, sym, ◌∙◌, Bool, true, false, ◌≡◌, ◌≢◌, refl, ◌⊎◌, inl, inr, Option, none, some,
  List, [], ◌∷◌, ◌++◌, map_option, All, arith, Option-cases,
}
use rust_rdkafka.Codes.RespErr.{RespErr}
use rust_rdkafka.Codes.Convert.{to_error_code}
use rust_rdkafka.Error.Defs.{
  KafkaResult, ok, err, is_error, partition_eof, message_consumption, message_consumption_fatal,
}
use rust_rdkafka.Util.{Timeout, saturating_sub, is_zero}
use rust_rdkafka.TopicPartitionList.Native.{Tpl}
use rust_rdkafka.Message.Headers.{NativeHeaders}
use rust_rdkafka.Message.Defs.{NativeMessage, from_client}
use rust_rdkafka.Client.Events.{
  Event, dr, fetch, log, error, stats, oauthbearer_token_refresh, other, to_option, EventPollResult,
  poll_event,
}
use rust_rdkafka.Consumer.Poll.{
  Answer, Polled, Turn, return, continue, turn, handle_event, handle_error_event,
  handle_fetch_event, poll_loop,
}

pub Turn-cases :
    {R : Type 0} (t : Turn R) → ((r : R) × (t ≡ return r)) ⊎ ((u : Timeout) × (t ≡ continue u))
Turn-cases (return r) = inl (r, refl)
Turn-cases (continue u) = inr (u, refl)

module _ {native : NativeHeaders} where
  -- The message of a FETCH event, or its error; and the error of an ERROR event, which is none when its
  -- code is that of success.
  abbrev pub message_or_error : RespErr → NativeMessage native → KafkaResult (NativeMessage native)
  message_or_error RespErr.no_error m = ok m
  message_or_error RespErr.partition_eof m = err (partition_eof m.partition)
  message_or_error e m = err (message_consumption (to_error_code e))

  abbrev pub error_of : RespErr → Bool → ℤ → Option (KafkaResult (NativeMessage native))
  error_of RespErr.no_error fatal partition = none
  error_of RespErr.partition_eof fatal partition = some (err (partition_eof partition))
  error_of e true partition = some (err (message_consumption_fatal (to_error_code e)))
  error_of e false partition = some (err (message_consumption (to_error_code e)))

  -- What the queue gave the user.
  abbrev pub yield_of : Option (Event native) → Option (KafkaResult (NativeMessage native))
  yield_of (some (fetch (some m))) = some (message_or_error m.resp_err m)
  yield_of (some (error e reason fatal partition)) = error_of e fatal partition
  yield_of _ = none

  -- What the handlers make of it.
  abbrev handled_of : Option (Event native) → Option (KafkaResult (NativeMessage native))
  handled_of (some (fetch (some m))) = some (from_client m)
  handled_of (some (error e reason fatal partition)) = elim (handle_error_event e fatal partition) [
    | none ↦ none
    | some x ↦ some (err x)
  ]
  handled_of _ = none

  from_client_lem :
      (e : RespErr) (m : NativeMessage native)
      → m.resp_err ≡ e
      → from_client m ≡ message_or_error e m
  unfolding from_client is_error
  from_client_lem RespErr.no_error m h = ground (arith, h)
  from_client_lem RespErr.partition_eof m h = ground (arith, h)
  from_client_lem _ m h = ground (arith, h)

  handle_error_event_lem :
      (e : RespErr) (reason : String) (fatal : Bool) (partition : ℤ)
      → handled_of (some (error e reason fatal partition)) ≡ error_of e fatal partition
  unfolding handle_error_event is_error
  handle_error_event_lem RespErr.no_error reason fatal partition = refl
  handle_error_event_lem RespErr.partition_eof reason fatal partition = refl
  handle_error_event_lem _ reason true partition = refl
  handle_error_event_lem _ reason false partition = refl

  handled_lem : (polled : Option (Event native)) → handled_of polled ≡ yield_of polled
  handled_lem (some (fetch (some m))) = ap some (from_client_lem m.resp_err m refl)
  handled_lem (some (error e reason fatal partition)) =
      handle_error_event_lem e reason fatal partition
  handled_lem (some (fetch none)) = refl
  handled_lem none = refl
  handled_lem (some _) = refl

  -- The queue was empty, or its event was for the client alone.
  abbrev pub is_idle : Option (Event native) → Bool
  is_idle none = true
  is_idle (some (log r l f m)) = true
  is_idle (some (stats json)) = true
  is_idle (some (oauthbearer_token_refresh c)) = true
  is_idle _ = false

  -- The consumer does not use the event.
  abbrev pub is_ignored : Option (Event native) → Bool
  is_ignored (some (other k)) = true
  is_ignored (some (dr ms)) = true
  is_ignored (some (fetch none)) = true
  is_ignored _ = false

  -- An answer after which a poll cannot go on: it yields, or nothing came and the time is up.
  abbrev pub IsFinal : Timeout → Answer native → Type 0
  IsFinal initial a =
      (yield_of a.polled ≢ none)
      ⊎ ((is_idle a.polled ≡ true) × (is_zero (saturating_sub initial a.elapsed) ≡ true))

  pub record Takes (answers : List (Answer native)) (p : Polled native) : Type 0 where
    pub before : List (Answer native)
    pub last : Answer native
    pub split : answers ≡ before ++ last ∷ p.rest
    pub silent : All (λ a. yield_of a.polled ≡ none) before
    pub result : to_option p.result ≡ yield_of last.polled

  module _ (refresh : Bool) (interval : Timeout) (empty : Tpl) (initial : Timeout) where
    turn_returns :
        (timeout : Timeout) (a : Answer native)
        (r : EventPollResult (KafkaResult (NativeMessage native)))
        → (turn refresh interval empty initial timeout a).1 ≡ return r
        → to_option r ≡ handled_of a.polled
    unfolding turn poll_event handle_event handle_fetch_event to_option
    turn_returns timeout a r h = ground arith

    turn_goes_on :
        (timeout t : Timeout) (a : Answer native)
        → (turn refresh interval empty initial timeout a).1 ≡ continue t
        → handled_of a.polled ≡ none
    unfolding turn poll_event handle_event handle_fetch_event
    turn_goes_on timeout t a h = ground arith

    turn_ignored :
        (timeout : Timeout) (a : Answer native)
        → is_ignored a.polled ≡ true
        → (turn refresh interval empty initial timeout a).1 ≡ continue timeout
    unfolding turn poll_event handle_event handle_fetch_event
    turn_ignored timeout a h = ground arith

    turn_final :
        (timeout : Timeout) (a : Answer native)
        → IsFinal initial a
        → (r : EventPollResult (KafkaResult (NativeMessage native))) × ((turn refresh interval empty
              initial timeout a).1
            ≡ return r)
    unfolding turn poll_event handle_event handle_fetch_event
    turn_final timeout a h =
        let same = handled_lem a.polled in
        elim (Turn-cases (turn refresh interval empty initial timeout a).1) [
          | inl (r, e) ↦ (r, e)
          | inr (t, e) ↦ absurd (ground (arith, sym same ∙ turn_goes_on timeout t a e))
        ]

    -- If the loop of a poll returns, the answers that it asked for yielded nothing up to the last,
    -- and the result is what the last one yields: no message and no error is taken and dropped.
    pub poll_loop-Takes :
        (answers : List (Answer native)) (timeout : Timeout) (p : Polled native)
        → poll_loop refresh interval empty initial timeout answers ≡ some p
        → Takes answers p
    unfolding poll_loop
    poll_loop-Takes [] timeout p h = ground arith
    poll_loop-Takes (a ∷ rest) timeout p h =
        elim (Turn-cases (turn refresh interval empty initial timeout a).1) [
          | inl (r, e) ↦
              let e_rest : p.rest ≡ rest = ground arith in
              let e_result : p.result ≡ r = ground arith in
              record {
                before = [];
                last = a;
                split = cc;
                silent = tt;
                result = rw e_result (turn_returns timeout a r e ∙ handled_lem a.polled);
              }
          | inr (t, e) ↦ elim (Option-cases (poll_loop refresh interval empty initial t rest)) [
            | inl e_none ↦ absurd (ground arith)
            | inr (q, e_some) ↦
                let ih = poll_loop-Takes rest t q e_some in
                let e_rest : p.rest ≡ q.rest = ground arith in
                let e_result : p.result ≡ q.result = ground arith in
                record {
                  before = a ∷ ih.before;
                  last = ih.last;
                  split = cc (ih.split);
                  silent = (sym (handled_lem a.polled) ∙ turn_goes_on timeout t a e, ih.silent);
                  result = rw e_result (ih.result);
                }
          ]
        ]

    -- Events that the consumer ignores change nothing of how a poll goes on, whatever time has passed
    -- when they come: its result is that of the answers after them with the timeout as it was.
    pub poll_loop_ignored :
        (before rest : List (Answer native)) (timeout : Timeout)
        → All (λ a. is_ignored a.polled ≡ true) before
        → map_option
            (λ p. p.result)
            (poll_loop refresh interval empty initial timeout (before ++ rest))
          ≡ map_option (λ p. p.result) (poll_loop refresh interval empty initial timeout rest)
    unfolding poll_loop
    poll_loop_ignored [] rest timeout h = refl
    poll_loop_ignored (a ∷ before) rest timeout h =
        let e : (turn refresh interval empty initial timeout a).1 ≡ continue timeout =
          turn_ignored timeout a h.0 in
        let ih = poll_loop_ignored before rest timeout h.1 in grind arith

    -- A poll returns by the time of an answer that yields a message or an error, and by the time of an
    -- answer that is no event, or an event for the client alone, once its timeout has passed.
    pub poll_loop_returns :
        (before : List (Answer native)) (last : Answer native) (rest : List (Answer native))
        (timeout : Timeout)
        → IsFinal initial last
        → poll_loop refresh interval empty initial timeout (before ++ last ∷ rest) ≢ none
    unfolding poll_loop
    poll_loop_returns [] last rest timeout h =
        let r = turn_final timeout last h in
        let e : (turn refresh interval empty initial timeout last).1 ≡ return r.0 = r.1 in
        λ nothing. absurd (ground arith)
    poll_loop_returns (a ∷ before) last rest timeout h = λ nothing.
        elim (Turn-cases (turn refresh interval empty initial timeout a).1) [
          | inl (r, e) ↦ absurd (ground arith)
          | inr (t, e) ↦ poll_loop_returns before last rest t h (ground arith)
        ]
