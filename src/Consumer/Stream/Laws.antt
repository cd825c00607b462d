-- ===== src/Consumer/Stream/Laws.antt =====
-- No wakeup of a stream is lost.
use rust_rdkafka.Prelude.{
  ℕ, ◌≡◌, refl, sym, ap, ◌∙◌, map_option, Bool, true, false, ◌||◌, ◌⊎◌, inl, inr, Option, none,
  some, List, [], ◌∷◌, arith,
}
use mathlib.Core.Path.{subst}
use rust_rdkafka.Error.Defs.{KafkaResult}
use rust_rdkafka.Util.{Timeout, after}
use rust_rdkafka.TopicPartitionList.Native.{Tpl}
use rust_rdkafka.Message.Headers.{NativeHeaders}
use rust_rdkafka.Message.Defs.{NativeMessage}
use rust_rdkafka.Client.Events.{Event, EventPollResult, nothing, event_consumed, event, poll_event}
use rust_rdkafka.Consumer.Poll.{Turn, return, continue, turn, handle_event, handle_fetch_event}
use rust_rdkafka.Consumer.Stream.Wakers.{Slab, has, wake_all, register, unregister, set_waker}
use rust_rdkafka.Consumer.Stream.{
  Phase, first_poll, storing, second_poll, pending, ready, State, head, tail, enqueue, begin,
  settle, poll, poll_next, Step, polls, begins, enqueues, background_wake, background_wakes,
  other_takes, other_registers, other_unregisters, other_stores, Steps, done, also, new,
}

or_true : (b : Bool) → b || true ≡ true
or_true b = ground arith

head-none : {A : Type 0} (q : List A) → head q ≡ none → q ≡ []
head-none q h = ground arith

turn_nothing :
    {native : NativeHeaders} (refresh : Bool) (interval : Timeout) (empty : Tpl)
    (polled : Option (Event native))
    → (turn refresh interval empty (after 0) (after 0) record { polled = polled; elapsed = 0 }).1
      ≡ return nothing
    → polled ≡ none
unfolding turn poll_event handle_event handle_fetch_event
turn_nothing refresh interval empty polled h = ground arith

module _ {native : NativeHeaders} {slab : Slab} where
  -- The slot of the stream holds the waker of its last `cx`.
  abbrev pub Stored : ℕ → State native slab → Type 0
  Stored slot s = slab.get s.wakers slot ≡ some (some s.waker)

  -- By the phase: what keeps a task that waits from waiting for ever.
  abbrev pub Sound : Phase (KafkaResult (NativeMessage native)) → ℕ → State native slab → Type 0
  Sound second_poll slot s = (s.woken ≡ true) ⊎ Stored slot s
  Sound pending slot s = (s.woken ≡ true) ⊎ (s.queue ≡ []) × Stored slot s
  Sound _ slot s = Unit

  pub record Invariant (slot : ℕ) (s : State native slab) : Type 0 where
    pub occupied : (v : Option ℕ) × (slab.get s.wakers slot ≡ some v)
    pub sound : Sound s.phase slot s

  wakes :
      (slot : ℕ) (s : State native slab)
      → Stored slot s
      → has s.waker (wake_all slab s.wakers).1 ≡ true
  unfolding wake_all
  wakes slot s h = slab.values_get s.wakers slot s.waker h

  -- The slots keep their keys when all wakers are taken.
  still_occupied :
      (slot : ℕ) (s : State native slab)
      → (v : Option ℕ) × (slab.get s.wakers slot ≡ some v)
      → (v : Option ℕ) × (slab.get (wake_all slab s.wakers).0 slot ≡ some v)
  unfolding wake_all
  still_occupied slot s (v, h) =
      (none, slab.map_get s.wakers (λ _. none) slot ∙ ap (map_option (λ _. none)) h)

  abbrev pub with_queue : List (Event native) → State native slab → State native slab
  with_queue q s = record s { queue = q }

  enqueue-Sound :
      (slot : ℕ) (ev : Event native) (q : List (Event native))
      (ph : Phase (KafkaResult (NativeMessage native))) (s : State native slab)
      → Sound ph slot (with_queue q s)
      → Sound ph slot (enqueue ev (with_queue q s))
  unfolding enqueue
  enqueue-Sound slot ev [] second_poll s (inl h) = inl (rw h refl)
  enqueue-Sound slot ev [] second_poll s (inr h) = inl (rw (wakes slot s h) (or_true s.woken))
  enqueue-Sound slot ev [] pending s (inl h) = inl (rw h refl)
  enqueue-Sound slot ev [] pending s (inr h) = inl (rw (wakes slot s h.1) (or_true s.woken))
  enqueue-Sound slot ev (e ∷ q) second_poll s h = h
  enqueue-Sound slot ev (e ∷ q) pending s (inl h) = inl h
  enqueue-Sound slot ev (e ∷ q) pending s (inr h) = absurd (ground (arith, h.0))
  enqueue-Sound slot ev [] _ s h = tt
  enqueue-Sound slot ev (e ∷ q) _ s h = tt

  enqueue_occupied :
      (slot : ℕ) (ev : Event native) (q : List (Event native)) (s : State native slab)
      → (v : Option ℕ) × (slab.get s.wakers slot ≡ some v)
      → (v : Option ℕ) × (slab.get (enqueue ev (with_queue q s)).wakers slot ≡ some v)
  unfolding enqueue
  enqueue_occupied slot ev [] s h = still_occupied slot s h
  enqueue_occupied slot ev (e ∷ q) s h = h

  enqueue_phase :
      (ev : Event native) (q : List (Event native)) (s : State native slab)
      → (enqueue ev (with_queue q s)).phase ≡ s.phase
  unfolding enqueue
  enqueue_phase ev [] s = refl
  enqueue_phase ev (e ∷ q) s = refl

  enqueue-Invariant :
      (slot : ℕ) (ev : Event native) (s : State native slab)
      → Invariant slot s
      → Invariant slot (enqueue ev s)
  enqueue-Invariant slot ev s inv = record {
    occupied = enqueue_occupied slot ev s.queue s inv.occupied;
    sound =
        subst (λ ph. Sound ph slot (enqueue ev s)) (sym (enqueue_phase ev s.queue s))
          (enqueue-Sound slot ev s.queue s.phase s inv.sound);
  }

  background_wake-Sound :
      (slot : ℕ) (ph : Phase (KafkaResult (NativeMessage native))) (s : State native slab)
      → Sound ph slot s
      → Sound ph slot (background_wake s)
  unfolding background_wake
  background_wake-Sound slot second_poll s (inl h) = inl (rw h refl)
  background_wake-Sound slot second_poll s (inr h) = inl (rw (wakes slot s h) (or_true s.woken))
  background_wake-Sound slot pending s (inl h) = inl (rw h refl)
  background_wake-Sound slot pending s (inr h) = inl (rw (wakes slot s h.1) (or_true s.woken))
  background_wake-Sound slot _ s h = tt

  background_wake-Invariant :
      (slot : ℕ) (s : State native slab) → Invariant slot s → Invariant slot (background_wake s)
  unfolding background_wake
  background_wake-Invariant slot s inv = record {
    occupied = still_occupied slot s inv.occupied;
    sound = background_wake-Sound slot s.phase s inv.sound;
  }

  settle-Sound :
      (slot : ℕ) (idle : Phase (KafkaResult (NativeMessage native))) (q : List (Event native))
      (s : State native slab) (t : Turn (EventPollResult (KafkaResult (NativeMessage native))))
      → Sound s.phase slot (with_queue q s)
      → (t ≡ return nothing → Sound idle slot (record s { queue = q; phase = idle }))
      → Sound (settle idle q s t).phase slot (settle idle q s t)
  settle-Sound slot idle q s (return (event m)) now then = tt
  settle-Sound slot idle q s (return event_consumed) now then = inl refl
  settle-Sound slot idle q s (return nothing) now then = then refl
  settle-Sound slot idle q s (continue t) now then = now

  settle_wakers :
      (idle : Phase (KafkaResult (NativeMessage native))) (q : List (Event native))
      (s : State native slab) (t : Turn (EventPollResult (KafkaResult (NativeMessage native))))
      → (settle idle q s t).wakers ≡ s.wakers
  settle_wakers idle q s (return (event m)) = refl
  settle_wakers idle q s (return event_consumed) = refl
  settle_wakers idle q s (return nothing) = refl
  settle_wakers idle q s (continue t) = refl

  second_waits :
      (slot : ℕ) (s : State native slab)
      → s.queue ≡ []
      → Sound second_poll slot s
      → Sound pending slot (record s { queue = tail s.queue; phase = pending })
  second_waits slot s e (inl h) = inl h
  second_waits slot s e (inr h) = inr (rw e refl, h)

  change-Sound :
      (ph : Phase (KafkaResult (NativeMessage native))) (slot : ℕ) (s : State native slab)
      (q : List (Event native)) (w : slab.Carrier)
      → (s.queue ≡ [] → q ≡ [])
      → ((v : Option ℕ) → slab.get s.wakers slot ≡ some v → slab.get w slot ≡ some v)
      → Sound ph slot s
      → Sound ph slot (record s { queue = q; wakers = w })
  change-Sound second_poll slot s q w f g (inl h) = inl h
  change-Sound second_poll slot s q w f g (inr h) = inr (g _ h)
  change-Sound pending slot s q w f g (inl h) = inl h
  change-Sound pending slot s q w f g (inr h) = inr (f h.0, g _ h.1)
  change-Sound _ slot s q w f g h = tt

  -- A step of others that empties no slot and fills no queue.
  change-Invariant :
      (slot : ℕ) (s : State native slab) (q : List (Event native)) (w : slab.Carrier)
      → (s.queue ≡ [] → q ≡ [])
      → ((v : Option ℕ) → slab.get s.wakers slot ≡ some v → slab.get w slot ≡ some v)
      → Invariant slot s
      → Invariant slot (record s { queue = q; wakers = w })
  change-Invariant slot s q w f g inv = record {
    occupied = (inv.occupied.0, g inv.occupied.0 inv.occupied.1);
    sound = change-Sound s.phase slot s q w f g inv.sound;
  }

  pending_waits :
      (ph : Phase (KafkaResult (NativeMessage native))) (slot : ℕ) (s : State native slab)
      → ph ≡ pending
      → s.woken ≡ false
      → Sound ph slot s
      → (s.queue ≡ []) × Stored slot s
  pending_waits pending slot s e asleep (inl h) = absurd (ground arith)
  pending_waits pending slot s e asleep (inr h) = h
  pending_waits first_poll slot s e asleep h = absurd (ground arith)
  pending_waits second_poll slot s e asleep h = absurd (ground arith)
  pending_waits storing slot s e asleep h = absurd (ground arith)
  pending_waits (ready m) slot s e asleep h = absurd (ground arith)

  module _ (refresh : Bool) (interval : Timeout) (empty : Tpl) (slot : ℕ) where
    poll-Sound :
        (idle : Phase (KafkaResult (NativeMessage native))) (s : State native slab)
        → Sound s.phase slot (with_queue (tail s.queue) s)
        → (s.queue ≡ [] → Sound idle slot (record s { queue = tail s.queue; phase = idle }))
        → Sound
            (poll refresh interval empty slot idle s).phase
            slot
            (poll refresh interval empty slot idle s)
    unfolding poll
    poll-Sound idle s now then =
        settle-Sound slot idle (tail s.queue) s _ now
          (λ h. then (head-none s.queue (turn_nothing refresh interval empty (head s.queue) h)))

    poll_occupied :
        (idle : Phase (KafkaResult (NativeMessage native))) (s : State native slab)
        → (poll refresh interval empty slot idle s).wakers ≡ s.wakers
    unfolding poll
    poll_occupied idle s =
        settle_wakers idle (tail s.queue) s
          (turn refresh interval empty (after 0) (after 0)
            (record { polled = head s.queue; elapsed = 0 })).1

    poll-Invariant :
        (idle : Phase (KafkaResult (NativeMessage native))) (s : State native slab)
        → Invariant slot s
        → Sound s.phase slot (with_queue (tail s.queue) s)
        → (s.queue ≡ [] → Sound idle slot (record s { queue = tail s.queue; phase = idle }))
        → Invariant slot (poll refresh interval empty slot idle s)
    poll-Invariant idle s inv now then = record {
      occupied = rw (poll_occupied idle s) inv.occupied;
      sound = poll-Sound idle s now then;
    }

    poll_next_lem :
        (ph : Phase (KafkaResult (NativeMessage native))) (s : State native slab)
        → Invariant slot (record s { phase = ph })
        → Invariant slot (poll_next refresh interval empty slot (record s { phase = ph }))
    unfolding poll_next set_waker
    poll_next_lem first_poll s inv =
        poll-Invariant storing (record s { phase = first_poll }) inv tt (λ e. tt)
    poll_next_lem storing s inv = record {
      occupied = (_, slab.assign_get s.wakers slot (some s.waker) inv.occupied.0 inv.occupied.1);
      sound = inr (slab.assign_get s.wakers slot (some s.waker) inv.occupied.0 inv.occupied.1);
    }
    poll_next_lem second_poll s inv =
        poll-Invariant pending (record s { phase = second_poll }) inv inv.sound
          (λ e. second_waits slot s e inv.sound)
    poll_next_lem pending s inv = inv
    poll_next_lem (ready m) s inv = inv

    -- Every step of the stream, of librdkafka, of the background task and of the other streams keeps
    -- the invariant.
    pub Step-Invariant :
        {s t : State native slab}
        → Step refresh interval empty slot s t
        → Invariant slot s
        → Invariant slot t
    unfolding begin register unregister set_waker
    Step-Invariant (polls s) inv = poll_next_lem s.phase s inv
    Step-Invariant (begins w s) inv = record { occupied = inv.occupied; sound = tt }
    Step-Invariant (enqueues ev s) inv = enqueue-Invariant slot ev s inv
    Step-Invariant (background_wakes s) inv = background_wake-Invariant slot s inv
    Step-Invariant (other_takes s) inv =
        change-Invariant slot s (tail s.queue) s.wakers (λ e. rw e refl) (λ v h. h) inv
    Step-Invariant (other_registers s) inv =
        change-Invariant slot s s.queue (slab.insert s.wakers none).0 (λ e. e)
          (λ v h. slab.insert_keeps s.wakers none v slot h) inv
    Step-Invariant (other_unregisters other s ne) inv =
        change-Invariant slot s s.queue (slab.remove s.wakers other) (λ e. e)
          (λ v h. slab.remove_keeps s.wakers other slot ne ∙ h) inv
    Step-Invariant (other_stores other w s ne) inv =
        change-Invariant slot s s.queue (slab.assign s.wakers other (some w)) (λ e. e)
          (λ v h. slab.assign_keeps s.wakers other slot (some w) ne ∙ h) inv

    Steps-Invariant :
        {s t : State native slab}
        → Steps refresh interval empty slot s t
        → Invariant slot s
        → Invariant slot t
    Steps-Invariant done inv = inv
    Steps-Invariant (also steps step) inv = Step-Invariant step (Steps-Invariant steps inv)

-- A stream that has returned `Pending` and whose task nothing has woken since finds its queue empty
-- and its own waker in its slot, whatever the other streams, librdkafka and the background task did
-- since it was made.
pub no_lost_wakeup :
    {native : NativeHeaders} {slab : Slab} (refresh : Bool) (interval : Timeout) (empty : Tpl)
    (queue : List (Event native)) (wakers : slab.Carrier) (t : State native slab)
    → Steps refresh interval empty
        (new native slab queue wakers).1
        (new native slab queue wakers).0
        t
    → t.phase ≡ pending
    → t.woken ≡ false
    → (t.queue ≡ []) × Stored (new native slab queue wakers).1 t
unfolding new register
no_lost_wakeup {native} {slab} refresh interval empty queue wakers t steps waits asleep =
    let start : Invariant (new native slab queue wakers).1 (new native slab queue wakers).0 =
      record { occupied = (none, slab.insert_get wakers none); sound = inl refl } in
    let inv = Steps-Invariant refresh interval empty (new native slab queue wakers).1 steps start in
    pending_waits t.phase _ t waits asleep inv.sound
