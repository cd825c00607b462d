-- ===== src/Examples/Lists.antt =====
-- Uses of the theorems on topic partition lists, offsets, headers and messages.
use rust_rdkafka.Prelude.{
  All, map, suc, ◌+◌, ◌-◌, ◌^◌, ◌≡◌, refl, ℤ, pos, negsuc, false, none, some, List, [], ◌∷◌, arith,
  codes_contain, length, String,
}
use rust_rdkafka.Error.Defs.{ok}
use rust_rdkafka.TopicPartitionList.Offset.{Offset, offset, offset_tail, from_raw, to_raw}
use rust_rdkafka.TopicPartitionList.OffsetLaws.{from_raw-to_raw, to_raw-tail_overflow}
use rust_rdkafka.TopicPartitionList.Elem.{Elem}
use rust_rdkafka.TopicPartitionList.Native.{Tpl, plain, fresh}
use rust_rdkafka.TopicPartitionList.Tpl.{
  Entry, map_get, from_topic_map, to_topic_map, set_partition_offset_of, find_partition, elements,
}
use rust_rdkafka.TopicPartitionList.Update.{find_partition-set_partition_offset}
use rust_rdkafka.TopicPartitionList.RoundTrip.{IsPlain, to_topic_map-from_topic_map}
use rust_rdkafka.TopicPartitionList.Collect.{from_iter, entry_of, map-from_iter}
use rust_rdkafka.Message.Headers.{Header, Bytes, insert_all, iterate, new, detach}
use rust_rdkafka.Message.HeadersLaws.{iterate-insert_all}
use rust_rdkafka.Examples.Instances.{hdrs}

five_raw : to_raw (offset (pos 5)) ≡ some (pos 5)
unfolding to_raw
five_raw = refl

from_raw-to_raw_example : from_raw (pos 5) ≡ offset (pos 5)
from_raw-to_raw_example = from_raw-to_raw (offset (pos 5)) (pos 5) (ground arith) five_raw

to_raw-tail_overflow_example :
    (to_raw (offset_tail (pos (2 ^ 63 - 1))) ≡ some (pos (2 ^ 64 - 2000 - (2 ^ 63 - 1))))
    × (from_raw (pos (2 ^ 64 - 2000 - (2 ^ 63 - 1))) ≡ offset (pos (2 ^ 64 - 2000 - (2 ^ 63 - 1))))
to_raw-tail_overflow_example = to_raw-tail_overflow (2 ^ 63 - 1) (ground arith) (ground arith)

abbrev first : Entry
first = record { topic = "a"; partition = pos 0; offset = offset (pos 5) }

abbrev second : Entry
second = record { topic = "b"; partition = pos 1; offset = Offset.beginning }

abbrev two : List Entry
two = first ∷ second ∷ []

first-IsPlain : IsPlain first
unfolding codes_contain to_raw
first-IsPlain = record { c_string = refl; fits = ground arith; raw = pos 5; to_raw_eq = refl }

second-IsPlain : IsPlain second
unfolding codes_contain to_raw
second-IsPlain = record { c_string = refl; fits = tt; raw = negsuc 1; to_raw_eq = refl }

first_new : map_get (second ∷ []) "a" (pos 0) ≡ none
unfolding map_get
first_new = refl

second_new : map_get [] "b" (pos 1) ≡ none
unfolding map_get
second_new = refl

to_topic_map-from_topic_map_example :
    (t : Tpl) × (from_topic_map plain two ≡ some (ok t))
    × ((topic : String) (partition : ℤ)
        → map_get (to_topic_map t) topic partition ≡ map_get two topic partition)
to_topic_map-from_topic_map_example =
    to_topic_map-from_topic_map plain two (first-IsPlain, (second-IsPlain, tt))
      (first_new, (second_new, tt))

map-from_iter_example :
    (t : Tpl) × (from_iter plain 0 (first ∷ second ∷ first ∷ []) ≡ some t)
    × (map entry_of (elements t) ≡ first ∷ second ∷ first ∷ [])
map-from_iter_example =
    map-from_iter plain 0 (first ∷ second ∷ first ∷ [])
      (first-IsPlain, (second-IsPlain, (first-IsPlain, tt)))

abbrev tpl : Tpl
tpl = record { elems = fresh "a" (pos 0) ∷ fresh "b" (pos 1) ∷ []; size = 5 }

no_zero : codes_contain 0 "b" ≡ false
unfolding codes_contain
no_zero = refl

find_partition-set_partition_offset_example :
    (t' : Tpl) × (e : Elem) × (set_partition_offset_of plain tpl "b" (pos 1) (offset (pos 5))
      ≡ some (t', ok tt))
    × (find_partition plain tpl "b" (pos 1) ≡ some (some e))
    × (find_partition plain t' "b" (pos 1) ≡ some (some (record e { raw_offset = pos 5 })))
find_partition-set_partition_offset_example =
    find_partition-set_partition_offset plain tpl "b" (pos 1) (offset (pos 5)) 1 (pos 5) no_zero
      refl five_raw

abbrev headers : List (Header Bytes)
headers = record { key = "k"; value = some (1 ∷ 2 ∷ []) } ∷ record { key = "n"; value = none } ∷ []

keys_clean : All (λ header. codes_contain 0 header.key ≡ false) headers
unfolding codes_contain
keys_clean = (refl, (refl, tt))

iterate-insert_all_example :
    (h : List (Header Bytes)) × (insert_all hdrs (new hdrs) headers ≡ some h)
    × (iterate hdrs (suc (length headers) + 0) h 0 ≡ some headers)
    × (iterate hdrs (suc (length headers) + 0) (detach hdrs h) 0 ≡ some headers)
iterate-insert_all_example = iterate-insert_all hdrs headers 0 keys_clean
