-- ===== src/Consumer/Stream/Creation.antt =====
-- `StreamConsumer::from_config_and_context` of consumer/stream_consumer.rs: the interval from the
-- configuration, the consumer, and the background task.
use rust_rdkafka.Prelude.{ℕ, ◌/◌, Bool, Option, none, some, List, [], ◌∷◌, map_option}
use rust_rdkafka.Error.Defs.{KafkaResult, ok, err}
use rust_rdkafka.Util.{Duration, from_millis}
use rust_rdkafka.Client.Config.{ClientConfig}
use rust_rdkafka.Client.NativeConfig.{ConfGet, get, trim_end}
use rust_rdkafka.Consumer.Lifecycle
use rust_rdkafka.Consumer.Lifecycle.{Created}
use rust_rdkafka.Consumer.Stream.Wakers.{Slab, wake_all}

-- `parse` is `str::parse::<u64>`; `none` is the panic of its `expect`.
unfoldable pub poll_interval : ConfGet → (List ℕ → Option ℕ) → Option (KafkaResult Duration)
unfolding get trim_end
poll_interval native parse = elim (get native "max.poll.interval.ms") [
  | err e ↦ some (err e)
  | ok text ↦ map_option (λ millis. ok (from_millis millis)) (parse (trim_end text))
]

-- The consumer, and the delay between two turns of the background task. `client` and `has_queue` are
-- as for `BaseConsumer::new`.
unfoldable pub from_config_and_context :
    ClientConfig
    → ConfGet
    → (List ℕ → Option ℕ)
    → KafkaResult (Unit {0})
    → Bool
    → Option (KafkaResult (Created × Duration))
unfolding poll_interval Lifecycle.new
from_config_and_context config native parse client has_queue = elim (poll_interval native parse) [
  | none ↦ none
  | some (err e) ↦ some (err e)
  | some (ok interval) ↦ elim (Lifecycle.new config client has_queue) [
    | err e ↦ some (err e)
    | ok base ↦ some (ok (base, interval / 2))
  ]
]

-- The loop of the background task: for each turn the wakers at the end of the delay, or that the
-- consumer was dropped before. The tasks that each turn wakes; `none` while it has not ended.
unfoldable pub wake_loop : (slab : Slab) → List (Option slab.Carrier) → Option (List (List ℕ))
unfolding wake_all
wake_loop slab [] = none
wake_loop slab (none ∷ turns) = some []
wake_loop slab (some wakers ∷ turns) =
    map_option (λ later. (wake_all slab wakers).1 ∷ later) (wake_loop slab turns)
