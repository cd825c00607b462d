-- ===== src/Producer/Deliveries.antt =====
-- `FutureProducerContext::delivery` of producer/future_producer.rs: what the futures of a producer
-- resolve to.
use rust_rdkafka.Prelude.{
  ℕ, ◌≡◌, refl, sym, ap, ◌∙◌, Bool, Option, none, some, arith, List, [], ◌∷◌,
}
use mathlib.Core.List.{append-nil}
use rust_rdkafka.Error.Defs.{KafkaError, Result, ok, err, is_error, message_production}
use rust_rdkafka.Util.{Deadline}
use rust_rdkafka.Message.Headers.{NativeHeaders}
use rust_rdkafka.Message.Headers
use rust_rdkafka.Codes.RespErr.{RespErr}
use rust_rdkafka.Codes.Convert.{to_error_code}
use rust_rdkafka.Message.Defs.{
  NativeMessage, OwnedMessage, DeliveryResult, from_dr_event, timestamp_of, timestamp, detach,
  headers,
}
use rust_rdkafka.Client.Events.{Callback}
use rust_rdkafka.Producer.Send.{Opaque, Delivery, delivery}
use rust_rdkafka.Producer.Poll.{Round, poll_until}
use rust_rdkafka.Producer.PollLaws.{deliveries, reported, reports, poll_until-deliveries}

-- The headers of a message, unless librdkafka has none: it reports so by an error.
abbrev pub copied_headers : {H : Type 0} → RespErr → H → Option H
copied_headers RespErr.no_error h = some h
copied_headers e h = none

module _ {native : NativeHeaders} {Sender : Type 0} (opaque : Opaque Sender) where
  -- The call of `tx.send` that `delivery` makes, with the sender that the opaque is the pointer of.
  unfoldable pub resolve :
      DeliveryResult native × ℕ → Sender × Result (KafkaError × OwnedMessage native) Delivery
  unfolding delivery
  resolve (result, ptr) = (opaque.from_ptr ptr, delivery result)

  abbrev pub resolve_all :
      List (DeliveryResult native × ℕ)
      → List (Sender × Result (KafkaError × OwnedMessage native) Delivery)
  resolve_all [] = []
  resolve_all (d ∷ ds) = resolve d ∷ resolve_all ds

  -- Messages with the senders whose pointers `send` gave to librdkafka, as delivery reports bring them
  -- back, and what their futures are to resolve to.
  abbrev pub opaques : List (NativeMessage native × Sender) → List (NativeMessage native × ℕ)
  opaques [] = []
  opaques (m ∷ ms) = (m.0, opaque.into_ptr m.1) ∷ opaques ms

  -- What the future of a message is to resolve to: where the message was stored and its timestamp, or
  -- the code of its error, with all of the message.
  abbrev pub owned_copy : NativeMessage native → OwnedMessage native
  owned_copy m = record {
    payload = m.payload;
    key = m.key;
    topic = m.topic;
    timestamp = timestamp_of m.raw_timestamp m.timestamp_type;
    partition = m.partition;
    offset = m.offset;
    headers = copied_headers m.headers_err (native.headers_copy m.raw_headers);
  }

  abbrev pub outcome :
      RespErr → NativeMessage native → Result (KafkaError × OwnedMessage native) Delivery
  outcome RespErr.no_error m = ok (record {
    partition = m.partition;
    offset = m.offset;
    timestamp = timestamp_of m.raw_timestamp m.timestamp_type;
  })
  outcome e m = err (message_production (to_error_code e), owned_copy m)

  abbrev pub resolved :
      List (NativeMessage native × Sender)
      → List (Sender × Result (KafkaError × OwnedMessage native) Delivery)
  resolved [] = []
  resolved (m ∷ ms) = (m.1, outcome m.0.resp_err m.0) ∷ resolved ms

  headers_lem :
      (e : RespErr) (m : NativeMessage native)
      → m.headers_err ≡ e
      → (detach m).headers ≡ copied_headers e (native.headers_copy m.raw_headers)
  unfolding detach headers Headers.detach to_error_code
  headers_lem RespErr.no_error m h = ground (arith, h)
  headers_lem _ m h = ground (arith, h)

  detach_lem : (m : NativeMessage native) → detach m ≡ owned_copy m
  unfolding detach timestamp
  detach_lem m = λ i. record {
    payload = m.payload;
    key = m.key;
    topic = m.topic;
    timestamp = timestamp_of m.raw_timestamp m.timestamp_type;
    partition = m.partition;
    offset = m.offset;
    headers = headers_lem m.headers_err m refl i;
  }

  outcome_lem :
      (e : RespErr) (m : NativeMessage native)
      → m.resp_err ≡ e
      → delivery (from_dr_event m) ≡ outcome e m
  unfolding delivery from_dr_event is_error timestamp
  outcome_lem RespErr.no_error m h = ground (arith, h)
  outcome_lem _ m h = ground (arith, h, detach_lem m)

  resolve-reports :
      (ms : List (NativeMessage native × Sender)) → resolve_all (reports (opaques ms)) ≡ resolved ms
  unfolding resolve
  resolve-reports [] = refl
  resolve-reports (m ∷ ms) =
      λ i. (opaque.from_into m.1 i, outcome_lem m.0.resp_err m.0 refl i) ∷ resolve-reports ms i

  -- When librdkafka reports messages with the opaques that they were sent with, a poll of the producer
  -- that takes all reports sends each message's delivery, or its error with a copy of the message, to
  -- the sender of that message and to no other, once and in the order of the reports.
  pub resolve_all-sent :
      (refresh : Bool) (deadline : Deadline) (rounds : List (Round native))
      (cs : List (Callback native)) (sent : List (NativeMessage native × Sender))
      → poll_until refresh deadline rounds ≡ some (cs, [])
      → reported rounds ≡ reports (opaques sent)
      → resolve_all (deliveries cs) ≡ resolved sent
  resolve_all-sent refresh deadline rounds cs sent h r =
      ap resolve_all (
        sym (append-nil (deliveries cs))
        ∙ poll_until-deliveries refresh deadline rounds cs [] h
        ∙ r)
      ∙ resolve-reports sent
