-- ===== src/Message/Laws.antt =====
-- What a message keeps when it is detached, and when it is an error.
use rust_rdkafka.Prelude.{
  ℤ, negsuc, ◌≡◌, refl, Bool, true, false, eqb_ℤ, not, ◌&&◌, if◌then◌else◌, Option, none, some,
  List, arith, ap,
}
use rust_rdkafka.Message.Headers
use rust_rdkafka.Message.Headers.{Header, Bytes, NativeHeaders}
use rust_rdkafka.Message.Defs.{
  TimestampType, timestamp_not_available, timestamp_create_time, timestamp_log_append_time,
  NativeMessage, to_millis, timestamp, timestamp_of, headers, detach,
}

abbrev pub has_time : TimestampType → Bool
has_time timestamp_not_available = false
has_time timestamp_create_time = true
has_time timestamp_log_append_time = true

-- A message's timestamp has the milliseconds that librdkafka gives, unless they are -1 or their
-- type says that there is no time: then it has none.
pub to_millis-timestamp_of :
    (t : ℤ) (typ : TimestampType)
    → to_millis (timestamp_of t typ)
      ≡ (if has_time typ && not (eqb_ℤ t (negsuc 0)) then some t else none)
unfolding to_millis timestamp_of
to_millis-timestamp_of t typ = ground arith

module _ (native : NativeHeaders) where
  abbrev shown : Option native.Hdrs → Option (List (Header Bytes))
  shown none = none
  shown (some h) = some (native.view h)

  -- A detached message has the key, the payload, the topic, the time, the partition and the offset
  -- of the message that librdkafka owns, and headers with the same content.
  pub detach_keeps :
      (m : NativeMessage native)
      → ((detach m).key ≡ m.key)
        × ((detach m).payload ≡ m.payload)
        × ((detach m).topic ≡ m.topic)
        × ((detach m).timestamp ≡ timestamp m)
        × ((detach m).partition ≡ m.partition)
        × ((detach m).offset ≡ m.offset)
        × (shown (detach m).headers ≡ shown (headers m))
  unfolding detach Headers.detach
  detach_keeps m = (refl, refl, refl, refl, refl, refl, shown_copy (headers m))
    where
      shown_copy :
          (o : Option native.Hdrs)
          → shown (elim o [ none ↦ none | some h ↦ some (Headers.detach native h) ]) ≡ shown o
      shown_copy none = refl
      shown_copy (some h) = ap some (native.view_copy h)
