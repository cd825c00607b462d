-- ===== src/Producer/Threaded/Laws.antt =====
-- The shared state of a threaded producer under every interleaving of its clones and its thread.
use rust_rdkafka.Prelude.{
  ℕ, zero, suc, ◌+◌, ◌<◌, ◌≡◌, ◌≢◌, refl, Bool, true, false, List, [], ◌∷◌, ◌==◌, arith,
  if◌then◌else◌, some,
}
use rust_rdkafka.Message.Headers.{NativeHeaders}
use rust_rdkafka.Client.Events.{Callback}
use rust_rdkafka.Producer.Poll.{Round, poll}
use rust_rdkafka.Util.{Instant, after, from_millis}
use rust_rdkafka.Producer.Threaded.{
  Thread, leaving, ended, Stopper, no_one, stopping, joining, stopped, State, Action, clones,
  drops_handle, stores, joins, drops_fields, loads, leaves, polls, new, release, clone, take_handle,
  store, join, drop_fields, thread_poll, load, leave, step, run,
}

-- The reference of the base producer that the thread holds, and that of the clone that stops it.
abbrev pub thread_refs : Thread → ℕ
thread_refs ended = 0
thread_refs _ = 1

abbrev pub stopper_refs : Stopper → ℕ
stopper_refs stopping = 1
stopper_refs joining = 1
stopper_refs _ = 0

-- What the clones have done to the flag and the handles by each point of the last `drop`.
abbrev pub Staged : Stopper → ℕ → Bool → Thread → Type 0
Staged no_one handles should_stop thread = (0 < handles) × (should_stop ≡ false)
Staged stopping handles should_stop thread = (handles ≡ 0) × (should_stop ≡ false)
Staged joining handles should_stop thread = (handles ≡ 0) × (should_stop ≡ true)
Staged stopped handles should_stop thread = (handles ≡ 0) × (should_stop ≡ true) × (thread ≡ ended)

-- The thread is out of its loop only when the flag is set.
abbrev pub Told : Thread → Bool → Type 0
Told leaving should_stop = should_stop ≡ true
Told ended should_stop = should_stop ≡ true
Told _ should_stop = Unit

module _ {native : NativeHeaders} where
  -- The references are those of the clones and the thread, and the base producer is dropped once,
  -- when there is none.
  pub record Invariant (s : State native) : Type 0 where
    pub counted :
        s.producers ≡ s.handles + s.dropped + stopper_refs s.stopper + thread_refs s.thread
    pub staged : Staged s.stopper s.handles s.should_stop s.thread
    pub told : Told s.thread s.should_stop
    pub once : s.drops ≡ (if s.producers == 0 then 1 else 0)

  new-Invariant : Invariant (new {native = native})
  unfolding new
  new-Invariant = record { counted = refl; staged = (omega arith, refl); told = tt; once = refl }

  clone-Invariant : (s : State native) → Invariant s → Invariant (clone s)
  unfolding clone
  clone-Invariant s inv = ground (arith, inv.counted, inv.staged, inv.told, inv.once)

  take_handle-Invariant : (s : State native) → Invariant s → Invariant (take_handle s)
  unfolding take_handle
  take_handle-Invariant s inv = ground (arith, inv.counted, inv.staged, inv.told, inv.once)

  store-Invariant : (s : State native) → Invariant s → Invariant (store s)
  unfolding store
  store-Invariant s inv = ground (arith, inv.counted, inv.staged, inv.told, inv.once)

  join-Invariant : (s : State native) → Invariant s → Invariant (join s)
  unfolding join
  join-Invariant s inv = ground (arith, inv.counted, inv.staged, inv.told, inv.once)

  drop_fields-Invariant : (s : State native) → Invariant s → Invariant (drop_fields s)
  unfolding drop_fields release
  drop_fields-Invariant s inv = ground (arith, inv.counted, inv.staged, inv.told, inv.once)

  leave-Invariant : (refresh : Bool) (s : State native) → Invariant s → Invariant (leave refresh s)
  unfolding leave release
  leave-Invariant refresh s inv = ground (arith, inv.counted, inv.staged, inv.told, inv.once)

  load-Invariant : (refresh : Bool) (s : State native) → Invariant s → Invariant (load refresh s)
  unfolding load
  load-Invariant refresh s inv = ground (arith, inv.counted, inv.staged, inv.told, inv.once)

  thread_poll-Invariant :
      (refresh : Bool) (start : Instant) (rounds : List (Round native)) (s : State native)
      → Invariant s
      → Invariant (thread_poll refresh start rounds s)
  unfolding thread_poll
  thread_poll-Invariant refresh start rounds s inv =
      ground (arith, inv.counted, inv.staged, inv.told, inv.once)

  pub step-Invariant :
      (refresh : Bool) (s : State native) (a : Action native)
      → Invariant s
      → Invariant (step refresh s a)
  unfolding step
  step-Invariant refresh s clones inv = clone-Invariant s inv
  step-Invariant refresh s drops_handle inv = take_handle-Invariant s inv
  step-Invariant refresh s stores inv = store-Invariant s inv
  step-Invariant refresh s joins inv = join-Invariant s inv
  step-Invariant refresh s drops_fields inv = drop_fields-Invariant s inv
  step-Invariant refresh s (polls start rounds) inv =
      thread_poll-Invariant refresh start rounds s inv
  step-Invariant refresh s loads inv = load-Invariant refresh s inv
  step-Invariant refresh s leaves inv = leave-Invariant refresh s inv

  run-Invariant :
      (refresh : Bool) (s : State native) (actions : List (Action native))
      → Invariant s
      → Invariant (run refresh s actions)
  unfolding run
  run-Invariant refresh s [] inv = inv
  run-Invariant refresh s (a ∷ rest) inv =
      run-Invariant refresh (step refresh s a) rest (step-Invariant refresh s a inv)

  -- On every interleaving of the clones and the thread, from the creation of the producer on: the
  -- strong count of the base producer is the number of the clones and threads that hold it, the flag
  -- is set only by the clone that had the last handle, the thread is out of its loop only after that,
  -- and the base producer is dropped once when its last reference goes, and not before.
  pub run-new-Invariant :
      (refresh : Bool) (actions : List (Action native)) → Invariant (run refresh new actions)
  run-new-Invariant refresh actions = run-Invariant refresh new actions new-Invariant

  live_thread :
      (s : State native)
      → Invariant s
      → 0 < s.handles
      → (s.thread ≢ leaving) × (s.thread ≢ ended) × (s.drops ≡ 0)
  live_thread s inv h = ground (arith, inv.counted, inv.staged, inv.told, inv.once)

  dropped_last :
      (s : State native)
      → Invariant s
      → s.drops ≢ 0
      → (s.drops ≡ 1)
        × (s.handles ≡ 0)
        × (s.dropped ≡ 0)
        × (s.thread ≡ ended)
        × (s.stopper ≡ stopped)
  dropped_last s inv h = ground (arith, inv.counted, inv.staged, inv.told, inv.once)

  -- While a clone has its handle, the polling thread is in its loop and the base producer is not
  -- dropped; and when the base producer was dropped, that happened once, no clone is left, and the
  -- thread had ended and was joined.
  pub run-ends_in_order :
      (refresh : Bool) (actions : List (Action native))
      → (0 < (run refresh new actions).handles
          → ((run refresh new actions).thread ≢ leaving)
            × ((run refresh new actions).thread ≢ ended)
            × ((run refresh new actions).drops ≡ 0))
        × ((run refresh new actions).drops ≢ 0
            → ((run refresh new actions).drops ≡ 1)
              × ((run refresh new actions).handles ≡ 0)
              × ((run refresh new actions).dropped ≡ 0)
              × ((run refresh new actions).thread ≡ ended)
              × ((run refresh new actions).stopper ≡ stopped))
  run-ends_in_order refresh actions = (
    live_thread (run refresh new actions) (run-new-Invariant refresh actions),
    dropped_last (run refresh new actions) (run-new-Invariant refresh actions),
  )

  -- What is left to do after the last handle was taken: the store, a poll of the thread, its load of
  -- the flag, the end of the thread, and the join; and the fields of the clones.
  abbrev pub drops_all : ℕ → List (Action native)
  drops_all zero = []
  drops_all (suc n) = drops_fields ∷ drops_all n

  abbrev pub last_actions : Instant → List (Round native) → List (Action native)
  last_actions start rounds = stores ∷ polls start rounds ∷ loads ∷ leaves ∷ joins ∷ []

  last_actions-stopped :
      (refresh : Bool) (start : Instant) (rounds : List (Round native)) (s : State native)
      (r : List (Callback native) × List (Round native))
      → Invariant s
      → s.handles ≡ 0
      → poll refresh start (after (from_millis 100)) rounds ≡ some r
      → ((run refresh s (last_actions start rounds)).handles ≡ 0)
        × ((run refresh s (last_actions start rounds)).thread ≡ ended)
        × ((run refresh s (last_actions start rounds)).stopper ≡ stopped)
  unfolding run step store thread_poll load leave release join
  last_actions-stopped refresh start rounds s r inv h p = ground (arith, inv.staged, inv.told, h, p)

  drops_all-once :
      (refresh : Bool) (s : State native) (n : ℕ)
      → Invariant s
      → s.dropped ≡ n
      → (s.handles ≡ 0) × (s.thread ≡ ended) × (s.stopper ≡ stopped)
      → (run refresh s (drops_all n)).drops ≡ 1
  unfolding run step drop_fields release
  drops_all-once refresh s zero inv d h = ground (arith, inv.counted, inv.once, d, h)
  drops_all-once refresh s (suc n) inv d h =
      drops_all-once refresh (drop_fields s) n (drop_fields-Invariant s inv) (ground (arith, d))
        (ground (arith, d, h))

  abbrev pub last_drop :
      (refresh : Bool) (actions : List (Action native)) (start : Instant)
      → List (Round native)
      → State native
  last_drop refresh actions start rounds =
      run refresh (run refresh new actions) (last_actions start rounds)

  -- When no clone has a handle, whatever has happened before, the `drop` of the clone that had the
  -- last one returns after the store, one more poll of the thread, if that poll returns, its load of
  -- the flag and its end; and when the fields of the clones are dropped then, the base producer has
  -- been dropped once.
  pub run-finishes :
      (refresh : Bool) (actions : List (Action native)) (start : Instant)
      (rounds : List (Round native)) (r : List (Callback native) × List (Round native))
      → (run refresh new actions).handles ≡ 0
      → poll refresh start (after (from_millis 100)) rounds ≡ some r
      → ((last_drop refresh actions start rounds).stopper ≡ stopped)
        × ((run refresh
              (last_drop refresh actions start rounds)
              (drops_all (last_drop refresh actions start rounds).dropped)).drops
            ≡ 1)
  run-finishes refresh actions start rounds r h p =
      let inv = run-new-Invariant refresh actions in
      let after_join = last_actions-stopped refresh start rounds _ r inv h p in
      (
        after_join.2,
        drops_all-once refresh _ _
            (run-Invariant refresh (run refresh new actions) (last_actions start rounds) inv) refl
            after_join,
      )
