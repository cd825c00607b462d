-- ===== src/Consumer/Stream.antt =====
-- consumer/stream_consumer.rs: `MessageStream::poll_next`, one access of the queue or of the wakers
-- at a time, and what may happen between two of them.
pub mod Wakers
pub mod Creation
pub mod Laws
use rust_rdkafka.Prelude.{
  ℕ, ◌≡◌, ◌≢◌, Bool, true, false, ◌||◌, Option, none, some, List, [], ◌∷◌, ◌++◌,
}
use rust_rdkafka.Error.Defs.{KafkaResult}
use rust_rdkafka.Util.{Timeout, after}
use rust_rdkafka.TopicPartitionList.Native.{Tpl}
use rust_rdkafka.Message.Headers.{NativeHeaders}
use rust_rdkafka.Message.Defs.{NativeMessage}
use rust_rdkafka.Client.Events.{Event, EventPollResult, nothing, event_consumed, event}
use rust_rdkafka.Consumer.Poll.{Answer, Turn, return, continue, turn}
use rust_rdkafka.Consumer.Stream.Wakers.{Slab, has, wake_all, register, unregister, set_waker}

abbrev pub head {ℓ} : {A : Type ℓ} → List A → Option A
head [] = none
head (x ∷ xs) = some x

abbrev pub tail {ℓ} : {A : Type ℓ} → List A → List A
tail [] = []
tail (x ∷ xs) = xs

-- Where `poll_next` stands: about to poll the queue, to store the waker, to poll it again; or what
-- it returned.
pub data Phase (Item : Type 0) : Type 0 where
  first_poll storing second_poll pending : Phase Item
  ready : Item → Phase Item

-- The queue, the slab, and the stream of one slot: its phase, the waker of its last `cx`, and
-- whether that waker has been woken since the stream was last polled.
pub record State (native : NativeHeaders) (slab : Slab) : Type 0 where
  pub queue : List (Event native)
  pub wakers : slab.Carrier
  pub phase : Phase (KafkaResult (NativeMessage native))
  pub waker : ℕ
  pub woken : Bool

module _ {native : NativeHeaders} {slab : Slab} where
  -- rdkafka.h: the callback of `rd_kafka_queue_cb_event_enable` runs when an empty queue gets an
  -- event. It is `native_message_queue_nonempty_cb`, which wakes all.
  unfoldable pub enqueue : Event native → State native slab → State native slab
  unfolding wake_all
  enqueue ev s = elim s.queue [
    | [] ↦
        let woke = wake_all slab s.wakers in
        record s { queue = ev ∷ []; wakers = woke.0; woken = s.woken || has s.waker woke.1 }
    | e ∷ es ↦ record s { queue = (e ∷ es) ++ ev ∷ [] }
  ]

  -- The background task of the consumer wakes all.
  unfoldable pub background_wake : State native slab → State native slab
  unfolding wake_all
  background_wake s =
      let woke = wake_all slab s.wakers in
      record s { wakers = woke.0; woken = s.woken || has s.waker woke.1 }

  -- `poll_next` begins, with the waker of the task that polls.
  unfoldable pub begin : ℕ → State native slab → State native slab
  begin waker s = record s { phase = first_poll; waker = waker; woken = false }

  -- What `poll_next` makes of a turn of the poll; `idle` is where it goes when there was no event.
  abbrev pub settle :
      Phase (KafkaResult (NativeMessage native))
      → List (Event native)
      → State native slab
      → Turn (EventPollResult (KafkaResult (NativeMessage native)))
      → State native slab
  settle idle rest s (return (event message)) = record s { queue = rest; phase = ready message }
  settle idle rest s (return event_consumed) = record s {
    queue = rest;
    phase = pending;
    woken = true;
  }
  settle idle rest s (return nothing) = record s { queue = rest; phase = idle }
  settle idle rest s (continue t) = record s { queue = rest }

  module _ (refresh : Bool) (interval : Timeout) (empty : Tpl) (slot : ℕ) where
    -- A turn of `poll_queue` with `Duration::ZERO`, and the `match` on what it returns.
    unfoldable pub poll :
        Phase (KafkaResult (NativeMessage native)) → State native slab → State native slab
    unfolding turn
    poll idle s =
        let polled : Answer native = record { polled = head s.queue; elapsed = 0 } in
        settle idle (tail s.queue) s (turn refresh interval empty (after 0) (after 0) polled).1

    unfoldable pub poll_next : State native slab → State native slab
    unfolding poll set_waker
    poll_next s = elim s.phase [
      | first_poll ↦ poll storing s
      | storing ↦ record s { wakers = set_waker slab s.wakers slot s.waker; phase = second_poll }
      | second_poll ↦ poll pending s
      | pending ↦ s
      | ready m ↦ s
    ]

    -- The steps of the stream, of librdkafka, of the background task and of the other streams of the
    -- consumer.
    pub data Step : State native slab → State native slab → Type 0 where
      polls : (s : State native slab) → Step s (poll_next s)
      begins : (w : ℕ) (s : State native slab) → Step s (begin w s)
      enqueues : (ev : Event native) (s : State native slab) → Step s (enqueue ev s)
      background_wakes : (s : State native slab) → Step s (background_wake s)
      other_takes : (s : State native slab) → Step s (record s { queue = tail s.queue })
      other_registers :
          (s : State native slab) → Step s (record s { wakers = (register slab s.wakers).0 })
      other_unregisters :
          (other : ℕ) (s : State native slab)
          → other ≢ slot
          → Step s (record s { wakers = unregister slab s.wakers other })
      other_stores :
          (other w : ℕ) (s : State native slab)
          → other ≢ slot
          → Step s (record s { wakers = set_waker slab s.wakers other w })

    pub data Steps : State native slab → State native slab → Type 0 where
      done : {s : State native slab} → Steps s s
      also : {s t u : State native slab} → Steps s t → Step t u → Steps s u

-- A stream that is made on a consumer: `MessageStream::new`.
unfoldable pub new :
    (native : NativeHeaders) (slab : Slab)
    → List (Event native)
    → slab.Carrier
    → State native slab × ℕ
unfolding register
new native slab queue wakers =
    let registered = register slab wakers in
    (
      record { queue = queue; wakers = registered.0; phase = pending; waker = 0; woken = true },
      registered.1,
    )
