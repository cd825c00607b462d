-- ===== src/Examples/Threads.antt =====
-- Uses of the theorems on the polling thread, the futures and the errors of producers, on the iterator
-- of consumers and on the refresh of tokens.
use rust_rdkafka.Prelude.{
  ℕ, ◌≡◌, refl, false, String, pos, Option, none, some, List, [], ◌∷◌, ◌++◌, All,
}
use rust_rdkafka.Codes.RespErr.{RespErr}
use rust_rdkafka.Error.Defs.{KafkaError, Result, ok}
use rust_rdkafka.ErrBuf.{ErrBuf}
use rust_rdkafka.Util.{after, never, at, from_millis}
use rust_rdkafka.Message.Defs.{NativeMessage}
use rust_rdkafka.Client.Events.{Callback, dr, error}
use rust_rdkafka.Client.Calls.{OAuthToken, TokenCall, handle_oauth_refresh_event}
use rust_rdkafka.Client.CallsLaws.{IsAnswered, IsSendable, handle_oauth_refresh_event-IsAnswered}
use rust_rdkafka.Consumer.Lifecycle.{next}
use rust_rdkafka.Consumer.LifecycleLaws.{next_lem}
use rust_rdkafka.Producer.Poll.{Round, poll, poll_until}
use rust_rdkafka.Producer.PollLaws.{deliveries}
use rust_rdkafka.Producer.Deliveries.{resolve_all, resolved, resolve_all-sent}
use rust_rdkafka.Producer.ErrorLaws.{told, twice, poll_until-errors}
use rust_rdkafka.Producer.Threaded
use rust_rdkafka.Producer.Threaded.{
  State, Action, clones, drops_handle, stores, drops_fields, polls, loads, stopped, run,
}
use rust_rdkafka.Producer.Threaded.Laws.{
  Invariant, run-new-Invariant, run-finishes, last_drop, drops_all,
}
use rust_rdkafka.Examples.Instances.{hdrs, number}
use rust_rdkafka.Examples.Consumers.{message, empty, counters, arrival}

-- A clone is made, the first producer is dropped, and then the clone while the thread has polled.
abbrev actions : List (Action hdrs)
actions =
    clones
    ∷ drops_handle
    ∷ drops_fields
    ∷ polls 0 (record { polled = none; now = 100_000_000 } ∷ [])
    ∷ drops_handle
    ∷ loads
    ∷ []

run-new-Invariant_example : Invariant (run false Threaded.new actions)
run-new-Invariant_example = run-new-Invariant false actions

abbrev idle : List (Round hdrs)
idle = record { polled = none; now = 300_000_000 } ∷ []

no_handles : (run false Threaded.new actions).handles ≡ 0
unfolding run Threaded.new
no_handles = refl

idle_returns : poll false 0 (after (from_millis 100)) idle ≡ some ([], [])
unfolding poll
idle_returns = refl

run-finishes_example :
    ((last_drop false actions 0 idle).stopper ≡ stopped)
    × ((run false
          (last_drop false actions 0 idle)
          (drops_all (last_drop false actions 0 idle).dropped)).drops
        ≡ 1)
run-finishes_example = run-finishes false actions 0 idle ([], []) no_handles idle_returns

abbrev sent : List (NativeMessage hdrs × ℕ)
sent = (message, 42) ∷ (message, 43) ∷ []

abbrev rounds : List (Round hdrs)
rounds =
    record { polled = some (dr ((message, 42) ∷ [])); now = 30 }
    ∷ record { polled = some (dr ((message, 43) ∷ [])); now = 100 }
    ∷ []

abbrev called : List (Callback hdrs)
unfolding poll_until
called = elim (poll_until false (at 100) rounds) [ some (cs, rest) ↦ cs | none ↦ [] ]

polled_is : poll_until false (at 100) rounds ≡ some (called, [])
unfolding poll_until
polled_is = refl

resolve_all-sent_example : resolve_all number (deliveries called) ≡ resolved number sent
resolve_all-sent_example = resolve_all-sent number false (at 100) rounds called sent polled_is refl

abbrev faulty : List (Round hdrs)
faulty = record { polled = some (error RespErr.fail "broken" false (pos 0)); now = 100 } ∷ []

abbrev faulty_called : List (Callback hdrs)
unfolding poll_until
faulty_called = elim (poll_until false (at 100) faulty) [ some (cs, rest) ↦ cs | none ↦ [] ]

faulty_is : poll_until false (at 100) faulty ≡ some (faulty_called, [])
unfolding poll_until
faulty_is = refl

poll_until-errors_example : told faulty_called ++ twice {native = hdrs} [] ≡ twice faulty
poll_until-errors_example = poll_until-errors false (at 100) faulty faulty_called [] faulty_is

next_lem_example :
    next false never empty 3 (counters ∷ arrival ∷ [])
    ≡ next false never empty 1 (counters ∷ arrival ∷ [])
next_lem_example = next_lem false never empty 2 (counters ∷ arrival ∷ [])

abbrev generate : Option String → Result String OAuthToken
generate config = ok (record { token = "token"; principal_name = "me"; lifetime_ms = pos 1000 })

abbrev refuse : TokenCall → RespErr × ErrBuf
refuse call = (RespErr.fail, record { buf = 104 ∷ 0 ∷ [] })

abbrev no_text : KafkaError → String
no_text e = ""

handle_oauth_refresh_event-IsAnswered_example :
    IsAnswered refuse (generate none) (handle_oauth_refresh_event no_text generate refuse none)
    × All IsSendable (handle_oauth_refresh_event no_text generate refuse none)
handle_oauth_refresh_event-IsAnswered_example =
    handle_oauth_refresh_event-IsAnswered no_text generate refuse none
