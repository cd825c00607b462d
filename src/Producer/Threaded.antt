-- ===== src/Producer/Threaded.antt =====
-- `ThreadedProducer` of producer/base_producer.rs: its clones, its polling thread and its `drop`, one
-- access of what they share at a time, and `BaseProducer::drop` and `purge`. A callback that panics in
-- the thread is not modelled.
pub mod Laws
use rust_rdkafka.Prelude.{
  ℕ, zero, suc, ◌+◌, ◌-◌, Bool, true, false, not, Option, none, some, List, [], ◌∷◌, ◌++◌, ◌==◌,
  if◌then◌else◌,
}
use rust_rdkafka.Codes.RespErr.{RespErr}
use rust_rdkafka.Error.Defs.{KafkaResult, ok, err, is_error}
use rust_rdkafka.Util.{Instant, after, from_millis}
use rust_rdkafka.Message.Headers.{NativeHeaders}
use rust_rdkafka.Client.Events.{Callback}
use rust_rdkafka.Producer.Purge.{PurgeConfig, queue, inflight, new as no_flags}
use rust_rdkafka.Producer.Poll.{Round, Turn, poll, flush_at}

-- `BaseProducer::purge`, of what `rd_kafka_purge` answers to the flags; `none` is the panic.
unfoldable pub purge : (ℕ → RespErr) → PurgeConfig → Option (Unit {0})
unfolding is_error
purge rd_kafka_purge flags = if is_error (rd_kafka_purge flags.flag_bits) then none else some tt

-- `BaseProducer::drop`: whether it warns of a flush that failed; `none` while it has not returned,
-- and for a panic.
unfoldable pub drop : (ℕ → RespErr) → Instant → List Turn → Option Bool
unfolding purge flush_at queue inflight no_flags
drop rd_kafka_purge start turns =
    let flushed = flush_at start (after (from_millis 500)) turns in
    elim (purge rd_kafka_purge (inflight (queue no_flags))) [
      | none ↦ none
      | some u ↦ elim flushed [
        | none ↦ none
        | some (ok v, _) ↦ some false
        | some (err e, _) ↦ some true
      ]
    ]

-- Where the polling thread stands: about to poll, about to load `should_stop`, out of the loop with
-- its reference of the base producer, or gone.
pub data Thread : Type 0 where
  polling checking leaving ended : Thread

-- Where the `drop` of the clone that got the join handle stands: no clone got it yet; before the
-- store of `should_stop`; waiting for the thread; past the `if let`.
pub data Stopper : Type 0 where
  no_one stopping joining stopped : Stopper

-- What all clones share. `handles` and `producers` are the strong counts of `handle` and `producer`;
-- `dropped` counts the clones whose `drop` is over and whose fields are not dropped yet; `drops`
-- counts the calls of `BaseProducer::drop`; `served` has the callbacks that the thread has made.
pub record State (native : NativeHeaders) : Type 0 where
  pub handles : ℕ
  pub producers : ℕ
  pub should_stop : Bool
  pub thread : Thread
  pub stopper : Stopper
  pub dropped : ℕ
  pub drops : ℕ
  pub served : List (Callback native)

-- What a clone or the thread does next. A poll comes with the time it begins and the rounds of the
-- queue.
pub data Action (native : NativeHeaders) : Type 0 where
  clones drops_handle stores joins drops_fields loads leaves : Action native
  polls : Instant → List (Round native) → Action native

module _ {native : NativeHeaders} where
  -- `from_config_and_context`: one clone, one handle, and a reference for the thread.
  unfoldable pub new : State native
  new = record {
    handles = 1;
    producers = 2;
    should_stop = false;
    thread = polling;
    stopper = no_one;
    dropped = 0;
    drops = 0;
    served = [];
  }

  -- A reference of the base producer goes; the last one drops it.
  unfoldable pub release : State native → State native
  release s = record s {
    producers = s.producers - 1;
    drops = if s.producers == 1 then s.drops + 1 else s.drops;
  }

  unfoldable pub clone : State native → State native
  clone s =
      if s.handles == 0
      then s
      else record s { handles = s.handles + 1; producers = s.producers + 1 }

  -- `self.handle.take().and_then(Arc::into_inner)`.
  unfoldable pub take_handle : State native → State native
  take_handle s =
      if s.handles == 0
      then s
      else if s.handles == 1
      then record s { handles = 0; stopper = stopping }
      else record s { handles = s.handles - 1; dropped = s.dropped + 1 }

  unfoldable pub store : State native → State native
  store s = elim s.stopper [
    | stopping ↦ record s { should_stop = true; stopper = joining }
    | other ↦ s
  ]

  -- `handle.join()` returns when the thread has ended.
  unfoldable pub join : State native → State native
  join s = elim s.stopper [
    | joining ↦ elim s.thread [
      | ended ↦ record s { stopper = stopped; dropped = s.dropped + 1 }
      | other ↦ s
    ]
    | other ↦ s
  ]

  unfoldable pub drop_fields : State native → State native
  unfolding release
  drop_fields s = if s.dropped == 0 then s else release (record s { dropped = s.dropped - 1 })

  module _ (refresh : Bool) where
    -- `producer.poll(Duration::from_millis(100))` of the thread.
    unfoldable pub thread_poll : Instant → List (Round native) → State native → State native
    unfolding poll
    thread_poll start rounds s =
        let polled = poll refresh start (after (from_millis 100)) rounds in
        elim s.thread [
          | polling ↦ elim polled [
            | none ↦ s
            | some (cs, _) ↦ record s { thread = checking; served = s.served ++ cs }
          ]
          | other ↦ s
        ]

    unfoldable pub load : State native → State native
    load s = elim s.thread [
      | checking ↦
          if s.should_stop then record s { thread = leaving } else record s { thread = polling }
      | other ↦ s
    ]

    unfoldable pub leave : State native → State native
    unfolding release
    leave s = elim s.thread [ leaving ↦ release (record s { thread = ended }) | other ↦ s ]

    unfoldable pub step : State native → Action native → State native
    unfolding clone take_handle store join drop_fields thread_poll load leave
    step s clones = clone s
    step s drops_handle = take_handle s
    step s stores = store s
    step s joins = join s
    step s drops_fields = drop_fields s
    step s (polls start rounds) = thread_poll start rounds s
    step s loads = load s
    step s leaves = leave s

    -- Any interleaving, from the creation on.
    unfoldable pub run : State native → List (Action native) → State native
    unfolding step
    run s [] = s
    run s (a ∷ rest) = run (step s a) rest
