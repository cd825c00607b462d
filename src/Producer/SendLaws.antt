-- ===== src/Producer/SendLaws.antt =====
-- What a send gives back, and how the retries of a future producer end.
use rust_rdkafka.Prelude.{
  ℕ, suc, ◌+◌, ◌≡◌, ◌≢◌, refl, ap, ◌∙◌, ◌⊎◌, inl, inr, ◌&&◌, true, false, Option, none, some, List,
  [], ◌∷◌, ◌++◌, length, All, arith, Bool-cases,
}
use rust_rdkafka.Codes.RespErr.{RespErr}
use rust_rdkafka.Codes.ErrorCode.{ErrorCode}
use rust_rdkafka.Error.Defs.{Result-cases, KafkaError, Result, ok, err, message_production}
use rust_rdkafka.Util.{Timeout, Duration}
use rust_rdkafka.Message.Headers.{NativeHeaders, Bytes}
use rust_rdkafka.Message.Defs.{OwnedMessage}
use rust_rdkafka.Producer.Record.{BaseRecord}
use rust_rdkafka.Producer.Send.{
  Opaque, Call, send, Attempt, can_retry, is_queue_full, failed_message, follow, send_loop,
}

queue_full_lem :
    (e : KafkaError) → is_queue_full e ≡ true → e ≡ message_production ErrorCode.queue_full
queue_full_lem e h = ground arith

module _ (native : NativeHeaders) {K P D : Type 0} (key_bytes : K → Bytes)
    (payload_bytes : P → Bytes) (opaque : Opaque D) where
  -- A send that fails gives the record back as it was.
  pub send_gives_back :
      (producev : Call native.Hdrs → RespErr) (r r' : BaseRecord K P native.Hdrs D) (e : KafkaError)
      → send native key_bytes payload_bytes opaque producev r ≡ err (e, r')
      → r' ≡ r
  unfolding send
  send_gives_back producev r r' e h =
      let back : record r { delivery_opaque = opaque.from_ptr (opaque.into_ptr r.delivery_opaque) }
          ≡ r =
        ap (λ d. record r { delivery_opaque = d }) (opaque.from_into r.delivery_opaque) in
      ground arith

  -- The queue was full and there was time to try again.
  abbrev pub Retried : Timeout → BaseRecord K P native.Hdrs D → Attempt native.Hdrs → Type 0
  Retried queue_timeout r a =
      (send native key_bytes payload_bytes opaque a.producev r
        ≡ err (message_production ErrorCode.queue_full, r))
      × (can_retry queue_timeout a.elapsed ≡ true)

  -- The last attempt put the record into the queue after `n` delays, or failed for good.
  abbrev pub Ended :
      Timeout
      → ℕ
      → BaseRecord K P native.Hdrs D
      → Result (KafkaError × OwnedMessage native) ℕ
      → Attempt native.Hdrs
      → Type 0
  Ended queue_timeout n r result last =
      (send native key_bytes payload_bytes opaque last.producev r ≡ ok tt) × (result ≡ ok n)
      ⊎ ((e : KafkaError) × (send native key_bytes payload_bytes opaque last.producev r
            ≡ err (e, r))
          × (result ≡ err (e, failed_message native key_bytes payload_bytes opaque r))
          × (is_queue_full e && can_retry queue_timeout last.elapsed ≡ false))

  pub record Outcome (queue_timeout : Timeout) (delays : ℕ) (r : BaseRecord K P native.Hdrs D)
      (attempts : List (Attempt native.Hdrs)) (result : Result (KafkaError × OwnedMessage native) ℕ)
      : Type 0 where
    pub before : List (Attempt native.Hdrs)
    pub last : Attempt native.Hdrs
    pub rest : List (Attempt native.Hdrs)
    pub split : attempts ≡ before ++ last ∷ rest
    pub retried : All (Retried queue_timeout r) before
    pub ended : Ended queue_timeout (delays + length before) r result last

  one_more-Ended :
      (delays : ℕ) (r : BaseRecord K P native.Hdrs D) (queue_timeout : Timeout)
      (result : Result (KafkaError × OwnedMessage native) ℕ) (last : Attempt native.Hdrs) (n : ℕ)
      → Ended queue_timeout (suc delays + n) r result last
      → Ended queue_timeout (delays + suc n) r result last
  one_more-Ended delays r queue_timeout result last n (inl h) = inl (h.0, h.1 ∙ ap ok (omega arith))
  one_more-Ended delays r queue_timeout result last n (inr h) = inr h

  one_more :
      (a : Attempt native.Hdrs) (attempts : List (Attempt native.Hdrs)) (queue_timeout : Timeout)
      (delays : ℕ) (r : BaseRecord K P native.Hdrs D)
      (result : Result (KafkaError × OwnedMessage native) ℕ)
      → Retried queue_timeout r a
      → Outcome queue_timeout (suc delays) r attempts result
      → Outcome queue_timeout delays r (a ∷ attempts) result
  one_more a attempts queue_timeout delays r result now o = record {
    before = a ∷ o.before;
    last = o.last;
    rest = o.rest;
    split = ap (◌∷◌ a) o.split;
    retried = (now, o.retried);
    ended = one_more-Ended delays r queue_timeout result o.last (length o.before) o.ended;
  }

  retry_full :
      (queue_timeout : Timeout) (r : BaseRecord K P native.Hdrs D) (a : Attempt native.Hdrs)
      (e : KafkaError)
      → send native key_bytes payload_bytes opaque a.producev r ≡ err (e, r)
      → is_queue_full e && can_retry queue_timeout a.elapsed ≡ true
      → Retried queue_timeout r a
  retry_full queue_timeout r a e sent full =
      let e_full = queue_full_lem e (ground arith) in
      (sent ∙ ap (λ x. err (x, r)) e_full, ground arith)

  -- If the loop of `FutureProducer::send` ends, then every attempt but the last found the queue full
  -- while there was time to retry, each with the record that was submitted; and the last put it into
  -- the queue, or its error is the result, with the record as a message, and not to be retried.
  pub send_loop-Outcome :
      (attempts : List (Attempt native.Hdrs)) (queue_timeout : Timeout) (delays : ℕ)
      (r : BaseRecord K P native.Hdrs D) (result : Result (KafkaError × OwnedMessage native) ℕ)
      → send_loop native key_bytes payload_bytes opaque queue_timeout delays r attempts
        ≡ some result
      → Outcome queue_timeout delays r attempts result
  unfolding send_loop follow
  send_loop-Outcome [] queue_timeout delays r result h = absurd (ground arith)
  send_loop-Outcome (a ∷ attempts) queue_timeout delays r result h =
      elim (Result-cases (send native key_bytes payload_bytes opaque a.producev r)) [
        | inl (u, e) ↦ record {
          before = [];
          last = a;
          rest = attempts;
          split = refl;
          retried = tt;
          ended = inl (e, ground arith);
        }
        | inr ((e, r'), eq) ↦
            let same : r' ≡ r = send_gives_back a.producev r r' e eq in
            let eq' : send native key_bytes payload_bytes opaque a.producev r ≡ err (e, r) = cc in
            elim (Bool-cases (is_queue_full e && can_retry queue_timeout a.elapsed)) [
              | inl full ↦
                  one_more a attempts queue_timeout delays r result
                    (retry_full queue_timeout r a e eq' full)
                    (send_loop-Outcome attempts queue_timeout (suc delays) r result (ground arith))
              | inr over ↦ record {
                before = [];
                last = a;
                rest = attempts;
                split = refl;
                retried = tt;
                ended = inr (e, eq', ground arith, over);
              }
            ]
      ]

  follow_ends :
      (queue_timeout : Timeout) (delays : ℕ) (elapsed : Duration)
      (loop : BaseRecord K P native.Hdrs D → Option (Result (KafkaError × OwnedMessage native) ℕ))
      (sent : Result (KafkaError × BaseRecord K P native.Hdrs D) (Unit {0}))
      → ((r : BaseRecord K P native.Hdrs D) → loop r ≢ none)
        ⊎ (can_retry queue_timeout elapsed ≡ false)
      → follow native key_bytes payload_bytes opaque queue_timeout delays elapsed loop sent ≢ none
  unfolding follow
  follow_ends queue_timeout delays elapsed loop (ok u) h = ground arith
  follow_ends queue_timeout delays elapsed loop (err (e, r)) (inl h) = ground (arith, h r)
  follow_ends queue_timeout delays elapsed loop (err (e, r)) (inr h) = ground arith

  -- The loop of `FutureProducer::send` ends by the first attempt after which the time to retry is over.
  pub send_loop_ends :
      (before : List (Attempt native.Hdrs)) (last : Attempt native.Hdrs)
      (rest : List (Attempt native.Hdrs)) (queue_timeout : Timeout) (delays : ℕ)
      (r : BaseRecord K P native.Hdrs D)
      → can_retry queue_timeout last.elapsed ≡ false
      → send_loop native key_bytes payload_bytes opaque queue_timeout delays r
          (before ++ last ∷ rest)
        ≢ none
  unfolding send_loop
  send_loop_ends [] last rest queue_timeout delays r over =
      follow_ends queue_timeout delays last.elapsed _
        (send native key_bytes payload_bytes opaque last.producev r) (inr over)
  send_loop_ends (a ∷ before) last rest queue_timeout delays r over =
      follow_ends queue_timeout delays a.elapsed _
        (send native key_bytes payload_bytes opaque a.producev r)
        (inl (λ r'. send_loop_ends before last rest queue_timeout (suc delays) r' over))
