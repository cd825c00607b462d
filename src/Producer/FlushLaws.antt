-- ===== src/Producer/FlushLaws.antt =====
-- How a flush ends, and that a transaction is committed after a flush that succeeded.
use rust_rdkafka.Prelude.{
  ◌≡◌, ◌≢◌, ◌≤◌, refl, ◌⊎◌, inl, inr, ◌∙◌, ap, sym, Bool, true, false, Option, none, some, List, [],
  ◌∷◌, ◌++◌, All, Bool-cases, Option-cases, arith, map_option, length, min,
}
use rust_rdkafka.Codes.RespErr.{RespErr}
use rust_rdkafka.Codes.Convert.{to_error_code}
use rust_rdkafka.Error.Defs.{KafkaError, KafkaResult, ok, err, flush, RdKafkaError}
use rust_rdkafka.Util.{Timeout, Instant, Duration, Deadline, remaining, elapsed, from_millis}
use rust_rdkafka.Producer.Poll.{Turn, flush_until, flush_at, commit_transaction, transaction_result}

data Answer (code : RespErr) : Type 0 where
  flushed : code ≡ RespErr.no_error → Answer code
  not_yet : code ≡ RespErr.timed_out → Answer code
  failed : code ≢ RespErr.no_error → code ≢ RespErr.timed_out → Answer code

answer_of : (code : RespErr) → Answer code
answer_of RespErr.no_error = flushed refl
answer_of RespErr.timed_out = not_yet refl
answer_of code = failed (ground arith) (ground arith)

no_error-timed_out : RespErr.no_error ≢ RespErr.timed_out
no_error-timed_out = ground arith

same_pair :
    {A B : Type 0} {o : Option (A × B)} {a c : A} {b d : B}
    → o ≡ some (a, b)
    → o ≡ some (c, d)
    → (a ≡ c) × (b ≡ d)
same_pair h k = (ground arith, ground arith)

some-none : {A : Type 0} {a : A} → Path (Option A) (some a) none → ⊥
some-none h = ground arith

abbrev at_code : RespErr → Turn → Turn
at_code code t = record t { code = code }

until_failed :
    (code : RespErr) (t : Turn) (deadline : Deadline) (turns : List Turn)
    → code ≢ RespErr.no_error
    → code ≢ RespErr.timed_out
    → flush_until deadline (at_code code t ∷ turns) ≡ some (err (flush (to_error_code code)), [])
unfolding flush_until
until_failed RespErr.no_error t deadline turns h k = absurd (h refl)
until_failed RespErr.timed_out t deadline turns h k = absurd (k refl)
until_failed _ t deadline turns h k = refl

until_flushed :
    (code : RespErr) (t : Turn) (deadline : Deadline) (turns : List Turn)
    → code ≡ RespErr.no_error
    → flush_until deadline (at_code code t ∷ turns) ≡ some (ok tt, [])
unfolding flush_until
until_flushed code t deadline turns e = rw e refl

until_late :
    (code : RespErr) (t : Turn) (deadline : Deadline) (turns : List Turn)
    → code ≡ RespErr.timed_out
    → elapsed deadline t.now ≡ true
    → flush_until deadline (at_code code t ∷ turns)
      ≡ some (err (flush (to_error_code RespErr.timed_out)), [])
unfolding flush_until
until_late code t deadline turns e late = rw (e, late) refl

-- A call of `poll` in between.
abbrev polled :
    Duration → KafkaResult (Unit {0}) × List Duration → KafkaResult (Unit {0}) × List Duration
polled d (r, ds) = (r, min d (from_millis 100) ∷ ds)

until_polls :
    (code : RespErr) (t : Turn) (deadline : Deadline) (turns : List Turn)
    → code ≡ RespErr.timed_out
    → elapsed deadline t.now ≡ false
    → flush_until deadline (at_code code t ∷ turns)
      ≡ map_option (polled (remaining deadline t.polls_at)) (flush_until deadline turns)
unfolding flush_until
until_polls code t deadline turns e early = rw (e, early) refl

pub record Flushed (deadline : Deadline) (turns : List Turn) (result : KafkaResult (Unit {0}))
    (polls : List Duration) : Type 0 where
  pub before : List Turn
  pub last : Turn
  pub rest : List Turn
  pub split : turns ≡ before ++ last ∷ rest
  pub waited : All (λ t. (t.code ≡ RespErr.timed_out) × (elapsed deadline t.now ≡ false)) before
  pub one_each : length polls ≡ length before
  pub short : All (λ d. d ≤ from_millis 100) polls
  pub ended :
      (last.code ≡ RespErr.no_error) × (result ≡ ok tt)
      ⊎ (last.code ≢ RespErr.no_error)
        × (result ≡ err (flush (to_error_code last.code)))
        × ((last.code ≡ RespErr.timed_out) → elapsed deadline last.now ≡ true)

one_turn :
    (deadline : Deadline) (t : Turn) (turns : List Turn) (result : KafkaResult (Unit {0}))
    (polls : List Duration)
    → polls ≡ []
    → (t.code ≡ RespErr.no_error) × (result ≡ ok tt)
      ⊎ (t.code ≢ RespErr.no_error)
        × (result ≡ err (flush (to_error_code t.code)))
        × ((t.code ≡ RespErr.timed_out) → elapsed deadline t.now ≡ true)
    → Flushed deadline (t ∷ turns) result polls
one_turn deadline t turns result polls none_made ended = record {
  before = [];
  last = t;
  rest = turns;
  split = refl;
  waited = tt;
  one_each = rw none_made refl;
  short = rw none_made tt;
  ended = ended;
}

one_more :
    (deadline : Deadline) (t : Turn) (turns : List Turn) (result : KafkaResult (Unit {0}))
    (polls ds : List Duration)
    → polls ≡ min (remaining deadline t.polls_at) (from_millis 100) ∷ ds
    → (t.code ≡ RespErr.timed_out) × (elapsed deadline t.now ≡ false)
    → Flushed deadline turns result ds
    → Flushed deadline (t ∷ turns) result polls
one_more deadline t turns result polls ds made now f = record {
  before = t ∷ f.before;
  last = f.last;
  rest = f.rest;
  split = ap (◌∷◌ t) f.split;
  waited = (now, f.waited);
  one_each = ground (arith, f.one_each);
  short = rw made (ground arith, f.short);
  ended = f.ended;
}

-- If a flush returns, then all but the last answer of librdkafka were time-outs before the deadline,
-- each followed by one poll of at most 100 ms; the last is success, and then so is the result, or an
-- error, which is the result, and if it is a time-out the deadline has passed.
pub flush_until-Flushed :
    (deadline : Deadline) (turns : List Turn) (result : KafkaResult (Unit {0}))
    (polls : List Duration)
    → flush_until deadline turns ≡ some (result, polls)
    → Flushed deadline turns result polls
flush_until-Flushed deadline [] result polls h = unfold flush_until in absurd (ground arith)
flush_until-Flushed deadline (t ∷ turns) result polls h = elim (answer_of t.code) [
  | flushed e ↦
      let same = same_pair h (until_flushed t.code t deadline turns e) in
      one_turn deadline t turns result polls same.1 (inl (e, same.0))
  | failed not_done not_late ↦
      let same = same_pair h (until_failed t.code t deadline turns not_done not_late) in
      one_turn deadline t turns result polls same.1
        (inr (not_done, same.0, λ late. absurd (not_late late)))
  | not_yet e ↦ elim (Bool-cases (elapsed deadline t.now)) [
    | inl late ↦
        let same = same_pair h (until_late t.code t deadline turns e late) in
        one_turn deadline t turns result polls same.1 (
          inr (
            λ c. no_error-timed_out (sym c ∙ e),
            same.0 ∙ ap (λ c. err (flush (to_error_code c))) (sym e),
            λ _. late,
          ))
    | inr early ↦
        let computed = until_polls t.code t deadline turns e early in
        elim (Option-cases (flush_until deadline turns)) [
          | inl e_none ↦
              let stuck : flush_until deadline (t ∷ turns) ≡ none =
                computed ∙ ap (map_option (polled (remaining deadline t.polls_at))) e_none in
              absurd (some-none (sym h ∙ stuck))
          | inr ((r, ds), e_some) ↦
              let same =
                same_pair h
                  (computed ∙ ap (map_option (polled (remaining deadline t.polls_at))) e_some) in
              one_more deadline t turns result polls ds same.1 (e, early)
                (flush_until-Flushed deadline turns result ds
                  (e_some ∙ ap (λ x. some (x, ds)) (sym same.0)))
        ]
  ]
]

-- If a commit of a transaction returns, either the flush before it succeeded, librdkafka was asked to
-- commit and the result is its answer; or the flush failed, librdkafka was not asked, and the result
-- is the error of the flush.
pub commit_after_flush :
    (start : Instant) (timeout : Timeout) (turns : List Turn) (ret : RdKafkaError)
    (result : KafkaResult (Unit {0})) (called : Bool)
    → commit_transaction start timeout turns ret ≡ some (result, called)
    → (called ≡ true)
        × (result ≡ transaction_result ret)
        × ((polls : List Duration) × (flush_at start timeout turns ≡ some (ok tt, polls)))
      ⊎ (called ≡ false)
        × ((e : KafkaError) × (polls : List Duration) × (result ≡ err e)
            × (flush_at start timeout turns ≡ some (err e, polls)))
unfolding commit_transaction
commit_after_flush start timeout turns ret result called h =
    elim (Option-cases (flush_at start timeout turns)) [
      | inl e ↦ absurd (ground arith)
      | inr ((ok u, polls), e) ↦ inl (ground arith, ground arith, (polls, e))
      | inr ((err x, polls), e) ↦ inr (ground arith, (x, polls, ground arith, e))
    ]
