-- ===== src/Mocking/Laws.antt =====
-- What the methods of mocking.rs send to librdkafka.
use mathlib.Core.Path.{subst}
use rust_rdkafka.Prelude.{
  ◌-◌, ◌^◌, min, ℤ, pos, String, Bool, true, false, List, [], ◌∷◌, ◌≡◌, refl, sym, ◌⊎◌, inl, inr,
  arith, Bool-cases, codes_contain, All, Any,
}
use rust_rdkafka.Codes.RespErr.{RespErr}
use rust_rdkafka.Codes.Convert.{to_error_code}
use rust_rdkafka.Error.Defs.{KafkaResult, ok, err, is_error, cstring_new, nul, mock_cluster}
use rust_rdkafka.Util.{Duration, millis}
use rust_rdkafka.Mocking.Defs.{
  Made, MockCall, topic_set_error, topic_create, partition_set_leader, partition_set_follower,
  partition_set_follower_wmarks, broker_set_down, broker_set_up, broker_set_rtt, broker_set_rack,
  coordinator_set, transaction, group, with_c_string, return_mock_op, topic_error,
  clear_request_errors, request_errors, create_topic, partition_leader, partition_follower,
  follower_watermarks, broker_down, broker_up, broker_round_trip_time, broker_rack, coordinator,
  apiversion, unwrap_or_minus_one,
}
use rust_rdkafka.Mocking.Session.{
  Method, clears_request_errors, requests_errors, sets_topic_error, creates_topic,
  sets_partition_leader, sets_partition_follower, sets_follower_watermarks, takes_broker_down,
  takes_broker_up, sets_round_trip_time, sets_rack, sets_coordinator, sets_apiversion, perform,
}

-- The delay that librdkafka is given for a broker is the delay in whole milliseconds, and 2^31 - 1 when
-- that is larger.
pub broker_round_trip_time_lem :
    (answer : MockCall → RespErr) (broker_id : ℤ) (delay : Duration)
    → (broker_round_trip_time answer broker_id delay).0
      ≡ broker_set_rtt broker_id (pos (min (millis delay) (2 ^ 31 - 1))) ∷ []
unfolding broker_round_trip_time return_mock_op
broker_round_trip_time_lem answer broker_id delay = ground arith

-- The texts that a method is given for librdkafka, and those of a call.
abbrev pub texts : Method → List String
texts (clears_request_errors k) = []
texts (requests_errors k es) = []
texts (sets_topic_error t e) = t ∷ []
texts (creates_topic t p r) = t ∷ []
texts (sets_partition_leader t p b) = t ∷ []
texts (sets_partition_follower t p b) = t ∷ []
texts (sets_follower_watermarks t p l h) = t ∷ []
texts (takes_broker_down b) = []
texts (takes_broker_up b) = []
texts (sets_round_trip_time b d) = []
texts (sets_rack b r) = r ∷ []
texts (sets_coordinator (transaction key) b) = "transaction" ∷ key ∷ []
texts (sets_coordinator (group key) b) = "group" ∷ key ∷ []
texts (sets_apiversion k l h) = []

abbrev pub call_texts : MockCall → List String
call_texts (topic_set_error t e) = t ∷ []
call_texts (topic_create t p r) = t ∷ []
call_texts (partition_set_leader t p b) = t ∷ []
call_texts (partition_set_follower t p b) = t ∷ []
call_texts (partition_set_follower_wmarks t p l h) = t ∷ []
call_texts (broker_set_rack b r) = r ∷ []
call_texts (coordinator_set kind key b) = kind ∷ key ∷ []
call_texts _ = []

-- Whether a method reads the answer; librdkafka gives the others none.
abbrev pub reads_answer : Method → Bool
reads_answer (clears_request_errors k) = false
reads_answer (requests_errors k es) = false
reads_answer (sets_topic_error t e) = false
reads_answer _ = true

abbrev pub HasNoZero : String → Type 0
HasNoZero t = codes_contain 0 t ≡ false

-- What a method does that has the texts `ts`, and reads the answer or not.
abbrev pub IsPerformed : (MockCall → RespErr) → Bool → List String → Made → Type 0
IsPerformed answer reads ts (calls, result) =
    ((op : MockCall) × (calls ≡ op ∷ [])
      × (call_texts op ≡ ts)
      × All HasNoZero ts
      × (((result ≡ ok tt) × ((is_error (answer op) ≡ false) ⊎ (reads ≡ false)))
          ⊎ ((result ≡ err (mock_cluster (to_error_code (answer op))))
              × (is_error (answer op) ≡ true)
              × (reads ≡ true))))
    ⊎ ((calls ≡ [])
        × Any (λ t. (codes_contain 0 t ≡ true) × (result ≡ err (nul (record { bytes = t })))) ts)

with_c_string-cases :
    (P : Made → Type 0) (t : String) (f : String → Made)
    → (codes_contain 0 t ≡ true → P ([], err (nul (record { bytes = t }))))
    → (codes_contain 0 t ≡ false → P (f t))
    → P (with_c_string t f)
unfolding with_c_string cstring_new
with_c_string-cases P t f refused sent = elim (Bool-cases (codes_contain 0 t)) [
  | inl has ↦
      subst
        (λ b.
          P
            (elim (elim b as (λ x. KafkaResult String) [
              | false ↦ ok t
              | true ↦ err (nul (record { bytes = t }))
            ])
              as (λ x. Made) [ ok text_c ↦ f text_c | err e ↦ ([], err e) ]))
        (sym has) (refused has)
  | inr has ↦
      subst
        (λ b.
          P
            (elim (elim b as (λ x. KafkaResult String) [
              | false ↦ ok t
              | true ↦ err (nul (record { bytes = t }))
            ])
              as (λ x. Made) [ ok text_c ↦ f text_c | err e ↦ ([], err e) ]))
        (sym has) (sent has)
]

return_mock_op-IsPerformed :
    (answer : MockCall → RespErr) (op : MockCall)
    → All HasNoZero (call_texts op)
    → IsPerformed answer true (call_texts op) (return_mock_op answer op)
unfolding return_mock_op
return_mock_op-IsPerformed answer op clean = elim (Bool-cases (is_error (answer op))) [
  | inl is ↦ inl (op, refl, refl, clean, inr (ground arith, is, refl))
  | inr is ↦ inl (op, refl, refl, clean, inl (ground arith, inl is))
]

for_text :
    (answer : MockCall → RespErr) (t : String) (op : String → MockCall)
    → ((x : String) → call_texts (op x) ≡ x ∷ [])
    → IsPerformed answer true (t ∷ []) (with_c_string t (λ x. return_mock_op answer (op x)))
for_text answer t op same =
    with_c_string-cases (IsPerformed answer true (t ∷ [])) t _ (λ has. inr (refl, inl (has, refl)))
      (λ clean.
        subst (λ ts. IsPerformed answer true ts (return_mock_op answer (op t))) (same t)
          (return_mock_op-IsPerformed answer (op t)
            (subst (All HasNoZero) (sym (same t)) (clean, tt))))

for_coordinator :
    (answer : MockCall → RespErr) (kind key : String) (b : ℤ)
    → IsPerformed answer true (kind ∷ key ∷ []) (
        with_c_string kind
          (λ x. with_c_string key (λ y. return_mock_op answer (coordinator_set x y b))))
for_coordinator answer kind key b =
    with_c_string-cases (IsPerformed answer true (kind ∷ key ∷ [])) kind _
      (λ has. inr (refl, inl (has, refl)))
      (λ clean_kind.
        with_c_string-cases (IsPerformed answer true (kind ∷ key ∷ [])) key _
          (λ has. inr (refl, inr (inl (has, refl))))
          (λ clean. return_mock_op-IsPerformed answer _ (clean_kind, (clean, tt))))

-- A method of a mock cluster makes one call of librdkafka, whose texts are those that the method was
-- given and hold no zero byte; its result is the error MockCluster with the code of librdkafka's answer
-- if that is an error, but for the methods that read no answer, which succeed. Or one of its texts holds
-- a zero byte, it makes no call, and the result is the error of such a text.
pub perform-IsPerformed :
    (answer : MockCall → RespErr) (m : Method)
    → IsPerformed answer (reads_answer m) (texts m) (perform answer m)
unfolding perform clear_request_errors request_errors topic_error create_topic partition_leader
    partition_follower follower_watermarks broker_down broker_up broker_round_trip_time broker_rack
    coordinator apiversion
perform-IsPerformed answer (clears_request_errors k) = inl (_, refl, refl, tt, inl (refl, inr refl))
perform-IsPerformed answer (requests_errors k es) = inl (_, refl, refl, tt, inl (refl, inr refl))
perform-IsPerformed answer (sets_topic_error t e) =
    with_c_string-cases (IsPerformed answer false (t ∷ [])) t _ (λ has. inr (refl, inl (has, refl)))
      (λ clean. inl (_, refl, refl, (clean, tt), inl (refl, inr refl)))
perform-IsPerformed answer (creates_topic t p r) =
    for_text answer t (λ x. topic_create x p r) (λ x. refl)
perform-IsPerformed answer (sets_partition_leader t p b) =
    for_text answer t (λ x. partition_set_leader x p (unwrap_or_minus_one b)) (λ x. refl)
perform-IsPerformed answer (sets_partition_follower t p b) =
    for_text answer t (λ x. partition_set_follower x p b) (λ x. refl)
perform-IsPerformed answer (sets_follower_watermarks t p l h) =
    for_text answer t
      (λ x. partition_set_follower_wmarks x p (unwrap_or_minus_one l) (unwrap_or_minus_one h))
      (λ x. refl)
perform-IsPerformed answer (takes_broker_down b) =
    return_mock_op-IsPerformed answer (broker_set_down b) tt
perform-IsPerformed answer (takes_broker_up b) =
    return_mock_op-IsPerformed answer (broker_set_up b) tt
perform-IsPerformed answer (sets_round_trip_time b d) = return_mock_op-IsPerformed answer _ tt
perform-IsPerformed answer (sets_rack b r) =
    for_text answer r (λ x. broker_set_rack b x) (λ x. refl)
perform-IsPerformed answer (sets_coordinator (transaction key) b) =
    for_coordinator answer "transaction" key b
perform-IsPerformed answer (sets_coordinator (group key) b) = for_coordinator answer "group" key b
perform-IsPerformed answer (sets_apiversion k l h) = return_mock_op-IsPerformed answer _ tt
