-- ===== src/Consumer/LifecycleLaws.antt =====
-- The iterator of a consumer and its `drop`.
use mathlib.Core.Path.{subst}
use rust_rdkafka.Prelude.{
  String, ℕ, suc, Bool, true, false, Option, none, some, List, [], ◌∷◌, ◌++◌, ◌≡◌, refl, inl, inr,
  Option-cases, length, arith,
}
use rust_rdkafka.Error.Defs.{KafkaResult, ok, RdKafkaError}
use rust_rdkafka.Util.{Timeout, min_timeout, never, after, from_millis}
use rust_rdkafka.TopicPartitionList.Native.{Tpl}
use rust_rdkafka.Message.Headers.{NativeHeaders}
use rust_rdkafka.Message.Defs.{NativeMessage}
use rust_rdkafka.Client.Events.{
  Event, nothing, event_consumed, Callback, EventPollResult, event, to_option, poll_event,
}
use rust_rdkafka.Consumer.Calls.{close_queue}
use rust_rdkafka.Consumer.Poll.{
  Answer, Polled, Turn, return, continue, turn, handle_event, poll_loop, poll_queue, follow,
}
use rust_rdkafka.Consumer.Lifecycle.{poll, next, close_loop, drop}

module _ {native : NativeHeaders} (refresh : Bool) (interval : Timeout) (empty : Tpl) where
  -- With no timeout a turn returns an item, or goes on with no timeout.
  abbrev HasItem : EventPollResult (KafkaResult (NativeMessage native)) → Type 0
  HasItem (event m) = Unit
  HasItem _ = ⊥

  abbrev IsPatient : Turn (EventPollResult (KafkaResult (NativeMessage native))) → Type 0
  IsPatient (return r) = HasItem r
  IsPatient (continue t) = t ≡ never

  handled-IsPatient :
      (ev : Event native)
      → IsPatient
          (elim (handle_event empty never ev).1 [ some r ↦ return r | none ↦ continue never ])
  unfolding handle_event
  handled-IsPatient ev = ground arith

  turn-IsPatient : (a : Answer native) → IsPatient (turn refresh interval empty never never a).1
  unfolding turn poll_event
  turn-IsPatient a = ground arith

  followed-HasItem :
      (used : Timeout) (cs : List (Callback native)) (rest : List (Answer native))
      (loop : Timeout → Option (Polled native))
      (t : Turn (EventPollResult (KafkaResult (NativeMessage native)))) (p : Polled native)
      → IsPatient t
      → ((q : Polled native) → loop never ≡ some q → HasItem q.result)
      → follow used cs rest loop t ≡ some p
      → HasItem p.result
  followed-HasItem used cs rest loop (return r) p i ih h = subst HasItem (ground (arith, h)) i
  followed-HasItem used cs rest loop (continue t) p i ih h = elim (Option-cases (loop never)) [
    | inl e ↦ ground (arith, h, i, e)
    | inr (q, e) ↦ subst HasItem (ground (arith, h, i, e)) (ih q e)
  ]

  poll_loop-HasItem :
      (answers : List (Answer native)) (p : Polled native)
      → poll_loop refresh interval empty never never answers ≡ some p
      → HasItem p.result
  unfolding poll_loop
  poll_loop-HasItem [] p h = ground (arith, h)
  poll_loop-HasItem (a ∷ rest) p h =
      followed-HasItem (min_timeout never interval) _ rest
        (λ t. poll_loop refresh interval empty never t rest) _ p (turn-IsPatient a)
        (λ q e. poll_loop-HasItem rest q e) h

  HasItem-some :
      (r : EventPollResult (KafkaResult (NativeMessage native)))
      → HasItem r
      → (m : KafkaResult (NativeMessage native)) × (to_option r ≡ some m)
  unfolding to_option
  HasItem-some nothing h = absurd h
  HasItem-some event_consumed h = absurd h
  HasItem-some (event m) h = (m, refl)

  poll_never-item :
      (answers : List (Answer native))
      (r : Option (KafkaResult (NativeMessage native)) × List (Answer native))
      → poll refresh interval empty never answers ≡ some r
      → (m : KafkaResult (NativeMessage native)) × (r.0 ≡ some m)
  unfolding poll poll_queue
  poll_never-item answers r h =
      elim (Option-cases (poll_loop refresh interval empty never never answers)) [
        | inl e ↦ ground (arith, h, e)
        | inr (p, e) ↦
            let item = HasItem-some p.result (poll_loop-HasItem answers p e) in
            (item.0, ground (arith, h, e, item.1))
      ]

  -- `Iter::next` returns when the first poll that it makes does, which gives it an item: it makes no
  -- second turn, whatever the queue answers.
  pub next_lem :
      (fuel : ℕ) (answers : List (Answer native))
      → next refresh interval empty (suc fuel) answers ≡ next refresh interval empty 1 answers
  unfolding next
  next_lem fuel answers = elim (Option-cases (poll refresh interval empty never answers)) [
    | inl e ↦ ground (arith, e)
    | inr (r, e) ↦ let item = poll_never-item answers r e in ground (arith, e, item.1)
  ]

  abbrev pub callbacks_of : List (Polled native) → List (Callback native)
  callbacks_of [] = []
  callbacks_of (p ∷ ps) = p.callbacks ++ callbacks_of ps

  -- What the polls of 100 ms return, one by one.
  abbrev pub Return : List (List (Answer native)) → List (Polled native) → Type 0
  Return [] [] = Unit
  Return (a ∷ as_) (p ∷ ps) =
      (poll_queue refresh interval empty (after (from_millis 100)) a ≡ some p) × Return as_ ps
  Return as_ ps = ⊥

  abbrev pub open_turns :
      List (List (Answer native))
      → List (Bool × List (Answer native))
      → List (Bool × List (Answer native))
  open_turns [] rest = rest
  open_turns (a ∷ as_) rest = (false, a) ∷ open_turns as_ rest

  close_loop_returns :
      (turns : List (List (Answer native))) (polls : List (Polled native))
      (answers : List (Answer native)) (later : List (Bool × List (Answer native)))
      → Return turns polls
      → close_loop refresh interval empty (open_turns turns ((true, answers) ∷ later))
        ≡ some (callbacks_of polls, length polls)
  unfolding close_loop
  close_loop_returns [] [] answers later h = refl
  close_loop_returns [] (p ∷ polls) answers later h = absurd h
  close_loop_returns (a ∷ turns) [] answers later h = absurd h
  close_loop_returns (a ∷ turns) (p ∷ polls) answers later h =
      rw (h.0, close_loop_returns turns polls answers later h.1)

  -- The `drop` of a consumer that has a group and whose queue librdkafka closes returns once
  -- librdkafka says that the consumer is closed, if the polls of 100 ms before that return; it makes
  -- the callbacks of those polls, in order, and no others.
  pub drop_returns :
      (group_id : String) (ret : RdKafkaError) (turns : List (List (Answer native)))
      (polls : List (Polled native)) (answers : List (Answer native))
      (later : List (Bool × List (Answer native)))
      → close_queue ret ≡ ok tt
      → Return turns polls
      → drop refresh interval empty (some group_id) ret (open_turns turns ((true, answers) ∷ later))
        ≡ some (ok tt, callbacks_of polls, length polls)
  unfolding drop
  drop_returns group_id ret turns polls answers later c h =
      ground (arith, c, close_loop_returns turns polls answers later h)
