-- ===== src/Producer/Boxes.antt =====
-- Who owns the boxed opaques of a producer, the senders of `FutureProducer`'s futures: `send` gives a
-- box to librdkafka as a raw pointer, and a delivery report gives it back. The heap holds the boxes that
-- are raw pointers; a step is a call of the producer or a report that librdkafka makes.
use rust_rdkafka.Prelude.{
  ℕ, zero, suc, ◌≡◌, Bool, true, false, Option, none, some, List, [], ◌∷◌, ◌++◌, map_option, ◌==◌,
  if◌then◌else◌,
}
use rust_rdkafka.Codes.RespErr.{RespErr}
use rust_rdkafka.Codes.Convert.{to_error_code}
use rust_rdkafka.Error.Defs.{KafkaError, Result, ok, err, is_error, cstring_new, message_production}
use rust_rdkafka.Message.Headers.{NativeHeaders, Bytes}
use rust_rdkafka.Message.Defs.{NativeMessage, DeliveryResult, from_dr_event}
use rust_rdkafka.Producer.Record.{BaseRecord}
use rust_rdkafka.Producer.Send.{Call, call_of}

-- The boxes that are raw pointers, by their addresses.
abbrev pub Heap : Type 0 → Type 0
Heap D = List (ℕ × D)

abbrev pub has_address : {D : Type 0} → ℕ → ℕ × D → Bool
has_address p b = b.0 == p

-- The number of elements that pass a test.
abbrev pub count_if : {A : Type 0} → (A → Bool) → List A → ℕ
count_if f [] = 0
count_if f (x ∷ xs) = if f x then suc (count_if f xs) else count_if f xs

-- The allocator: where a box comes to lie is no address of a box that is there.
pub record Allocator (D : Type 0) : Type 0 where
  pub address : Heap D → ℕ
  pub address_free : (h : Heap D) → count_if (has_address (address h)) h ≡ 0

module _ {D : Type 0} where
  -- `Box::into_raw` and `Box::from_raw`; `none` is a pointer that no box has, as one that was taken
  -- back before.
  unfoldable pub into_ptr : Allocator D → Heap D → D → ℕ × Heap D
  into_ptr allocator h d = (allocator.address h, (allocator.address h, d) ∷ h)

  unfoldable pub from_ptr : Heap D → ℕ → Option (D × Heap D)
  from_ptr [] p = none
  from_ptr (b ∷ h) p =
      let rest = from_ptr h p in
      if has_address p b then some (b.1, h) else map_option (λ r. (r.0, b ∷ r.1)) rest

-- librdkafka reports on the `i`-th of the messages in its queue: the pointer, and the others.
unfoldable pub take_at : ℕ → List ℕ → Option (ℕ × List ℕ)
take_at i [] = none
take_at zero (p ∷ ps) = some (p, ps)
take_at (suc i) (p ∷ ps) = map_option (λ r. (r.0, p ∷ r.1)) (take_at i ps)

-- A producer with its boxes: the pointers of messages that librdkafka has queued, the messages in its
-- delivery reports with their pointers, and, in the order of the calls, the opaques of the sends that
-- were accepted and what the context was given.
pub record State (native : NativeHeaders) (D : Type 0) : Type 0 where
  pub heap : Heap D
  pub queued : List ℕ
  pub reported : List (NativeMessage native × ℕ)
  pub accepted : List D
  pub delivered : List (DeliveryResult native × D)

module _ {native : NativeHeaders} {D : Type 0} where
  unfoldable pub new : State native D
  new = record { heap = []; queued = []; reported = []; accepted = []; delivered = [] }

  -- `handle_delivery_report_event`, for one message.
  unfoldable pub deliver : NativeMessage native × ℕ → State native D → Option (State native D)
  unfolding from_ptr from_dr_event
  deliver m s = elim (from_ptr s.heap m.1) [
    | none ↦ none
    | some (d, h) ↦ some (record s { heap = h; delivered = (from_dr_event m.0, d) ∷ s.delivered })
  ]

  -- A poll that takes the first `k` messages of the reports.
  unfoldable pub poll_reports :
      ℕ → List (NativeMessage native × ℕ) → State native D → Option (State native D)
  unfolding deliver
  poll_reports zero ms s = some (record s { reported = ms })
  poll_reports (suc k) [] s = some (record s { reported = [] })
  poll_reports (suc k) (m ∷ ms) s = elim (deliver m s) [
    | none ↦ none
    | some s' ↦ poll_reports k ms s'
  ]

  unfoldable pub report : ℕ → NativeMessage native → State native D → State native D
  unfolding take_at
  report i m s = elim (take_at i s.queued) [
    | none ↦ s
    | some (p, ps) ↦ record s { queued = ps; reported = s.reported ++ (m, p) ∷ [] }
  ]

module _ (native : NativeHeaders) {K P D : Type 0} (key_bytes : K → Bytes)
    (payload_bytes : P → Bytes) (allocator : Allocator D) where
  -- `BaseProducer::send`; `none` would be a pointer that is no box.
  unfoldable pub send :
      (Call native.Hdrs → RespErr)
      → BaseRecord K P native.Hdrs D
      → State native D
      → Option (State native D × Result (KafkaError × BaseRecord K P native.Hdrs D) (Unit {0}))
  unfolding cstring_new is_error call_of into_ptr from_ptr
  send producev r s = elim (cstring_new r.topic) [
    | err nul_error ↦ some (s, err (nul_error, r))
    | ok topic_cstring ↦
        let (opaque_ptr, h) = into_ptr allocator s.heap r.delivery_opaque in
        let produce_error =
          producev (call_of native key_bytes payload_bytes topic_cstring opaque_ptr r) in
        elim (is_error produce_error) [
          | true ↦ elim (from_ptr h opaque_ptr) [
            | none ↦ none
            | some (d, h') ↦ some (
              record s { heap = h' },
              err (
                message_production (to_error_code produce_error),
                record r { delivery_opaque = d },
              ),
            )
          ]
          | false ↦ some (
            record s {
              heap = h;
              queued = opaque_ptr ∷ s.queued;
              accepted = r.delivery_opaque ∷ s.accepted;
            },
            ok tt,
          )
        ]
  ]

  pub data Step : Type 0 where
    sends : (Call native.Hdrs → RespErr) → BaseRecord K P native.Hdrs D → Step
    reports : ℕ → NativeMessage native → Step
    polls : ℕ → Step

  unfoldable pub step : Step → State native D → Option (State native D)
  unfolding send report poll_reports
  step (sends producev r) s = map_option (λ x. x.0) (send producev r s)
  step (reports i m) s = some (report i m s)
  step (polls k) s = poll_reports k s.reported s

  unfoldable pub run : List Step → State native D → Option (State native D)
  unfolding step
  run [] s = some s
  run (a ∷ actions) s = elim (step a s) [ none ↦ none | some s' ↦ run actions s' ]
