-- ===== src/Examples/Handles.antt =====
-- Uses of the theorems on the boxed opaques of producers and on mock clusters.
use rust_rdkafka.Prelude.{
  length, ℕ, suc, ◌+◌, ◌<◌, ◌≡◌, refl, Bool, true, false, none, some, List, [], ◌∷◌, arith, pos,
  codes_contain,
}
use rust_rdkafka.Codes.RespErr.{RespErr}
use rust_rdkafka.Codes.Convert.{to_error_code}
use rust_rdkafka.Error.Defs.{KafkaError, Result, ok, is_error}
use rust_rdkafka.Message.Headers.{Bytes}
use rust_rdkafka.Producer.Record.{BaseRecord}
use rust_rdkafka.Producer.Boxes.{
  Heap, has_address, count_if, Allocator, State, new, into_ptr, from_ptr, take_at, Step, sends,
  reports, polls, run, send,
}
use rust_rdkafka.Producer.BoxesLaws.{Owned, IsSent, send-Owned, run-new-Owned, all_given_back}
use rust_rdkafka.Producer.BoxesDrain.{drain, run-drain-given_back}
use rust_rdkafka.Client.Config.{ClientConfig, LogLevel}
use rust_rdkafka.Mocking.Defs.{MockCall, group}
use rust_rdkafka.Mocking.Session.{
  Method, sets_coordinator, sets_round_trip_time, perform, ClientAnswers, new_session,
  borrowed_session,
}
use rust_rdkafka.Mocking.Laws.{IsPerformed, reads_answer, texts, perform-IsPerformed}
use rust_rdkafka.Mocking.SessionLaws.{effects, left_by, is_given_up, effects-sessions}
use rust_rdkafka.Examples.Instances.{hdrs}
use rust_rdkafka.Examples.Consumers.{message}
use rust_rdkafka.Examples.Producers.{bytes, base, full, accepts}

-- Boxes lie above all that are there.
abbrev above : Heap ℕ → ℕ
above [] = 0
above (b ∷ h) = suc (b.0 + above h)

above-count_if : (h : Heap ℕ) (p : ℕ) → above h < suc p → count_if (has_address p) h ≡ 0
above-count_if [] p lt = refl
above-count_if (b ∷ h) p lt = ground (arith, above-count_if h p (ground arith))

above_free : (h : Heap ℕ) → count_if (has_address (above h)) h ≡ 0
above_free h = above-count_if h (above h) (omega arith)

abbrev bump : Allocator ℕ
bump = record { address = above; address_free = above_free }

-- Two sends are accepted around one that is refused; the second message is reported first.
abbrev steps : List (Step hdrs bytes bytes bump)
steps =
    sends accepts base
    ∷ sends full base
    ∷ sends accepts (record base { delivery_opaque = 7 })
    ∷ reports 1 message
    ∷ polls 3
    ∷ reports 0 message
    ∷ polls 1
    ∷ []

run-new-Owned_example :
    (s : State hdrs ℕ) × (run hdrs bytes bytes bump steps new ≡ some s) × Owned s
run-new-Owned_example = run-new-Owned hdrs bytes bytes bump steps

abbrev all_reported : State hdrs ℕ
unfolding new run send take_at from_ptr into_ptr codes_contain to_error_code is_error
all_reported = elim (run hdrs bytes bytes bump steps new) [ none ↦ new | some s ↦ s ]

run-steps : run hdrs bytes bytes bump steps new ≡ some all_reported
unfolding new run send take_at from_ptr into_ptr codes_contain to_error_code is_error
run-steps = refl

all_given_back_example :
    (all_reported.heap ≡ [])
    × ((f : ℕ → Bool)
        → count_if f all_reported.accepted ≡ count_if (λ x. f x.1) all_reported.delivered)
unfolding all_reported
all_given_back_example = all_given_back hdrs bytes bytes bump steps all_reported run-steps refl refl

-- A message is still queued.
abbrev one_sent : State hdrs ℕ
unfolding new run send take_at from_ptr into_ptr codes_contain to_error_code is_error
one_sent = elim (run hdrs bytes bytes bump (sends accepts base ∷ []) new) [
  | none ↦ new
  | some s ↦ s
]

run-one_sent : run hdrs bytes bytes bump (sends accepts base ∷ []) new ≡ some one_sent
unfolding new run send take_at from_ptr into_ptr codes_contain to_error_code is_error
run-one_sent = refl

run-drain-given_back_example :
    (s' : State hdrs ℕ) × (run hdrs bytes bytes bump
        (drain hdrs bytes bytes bump message (length (one_sent.reported)) (one_sent.queued))
        one_sent
      ≡ some s')
    × (s'.heap ≡ [])
    × ((f : ℕ → Bool) → count_if f (one_sent.accepted) ≡ count_if (λ x. f x.1) s'.delivered)
run-drain-given_back_example =
    run-drain-given_back hdrs bytes bytes bump (sends accepts base ∷ []) one_sent message
      run-one_sent

new-Owned : Owned (new {native = hdrs} {D = ℕ})
unfolding new
new-Owned = record { held = λ p. refl; once = λ p. omega arith; kept = λ f. refl }

send-Owned_example :
    (x : State hdrs ℕ × Result (KafkaError × BaseRecord Bytes Bytes (hdrs.Hdrs) ℕ) Unit) × (send
        hdrs bytes bytes bump full base new
      ≡ some x)
    × IsSent hdrs bytes bytes bump base new x
    × Owned x.0
send-Owned_example = send-Owned hdrs bytes bytes bump full base new new-Owned

-- Every call of a mock cluster is refused.
abbrev refuses : MockCall → RespErr
refuses call = RespErr.fail

abbrev method : Method
method = sets_coordinator (group "g") (pos 1)

perform-IsPerformed_example :
    IsPerformed refuses (reads_answer method) (texts method) (perform refuses method)
perform-IsPerformed_example = perform-IsPerformed refuses method

abbrev methods : List ((MockCall → RespErr) × Method)
methods = (refuses, method) ∷ (refuses, sets_round_trip_time (pos 1) 5_000_000) ∷ []

abbrev no_config : ClientConfig
no_config = record { conf_map = []; log_level = LogLevel.info }

abbrev answered : ClientAnswers
answered = record { set = ok tt; made = (true, record { buf = 0 ∷ [] }); queued = RespErr.no_error }

effects-sessions_example :
    (effects (left_by false) (new_session no_config (ok tt) answered (some 5) methods)
      ≡ some (left_by (is_given_up (ok tt) answered)))
    × (effects (record { client = true; cluster = some 6 }) (borrowed_session (some 6) methods)
        ≡ some (record { client = true; cluster = some 6 }))
effects-sessions_example = effects-sessions no_config (ok tt) answered (some 5) (some 6) methods
