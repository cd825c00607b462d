-- ===== src/TopicPartitionList/Update.antt =====
-- What the methods that set offsets do, on every branch.
use rust_rdkafka.Prelude.{
  ℕ, ℤ, String, false, ◌≡◌, refl, Option, none, some, List, [], ◌∷◌, ◌++◌, map, codes_contain,
  arith, length, if◌then◌else◌,
}
use rust_rdkafka.Codes.ErrorCode
use rust_rdkafka.Codes.Convert.{to_error_code}
use rust_rdkafka.Error.Defs.{KafkaResult, ok, err, set_partition_offset}
use rust_rdkafka.TopicPartitionList.Offset.{Offset, to_raw}
use rust_rdkafka.TopicPartitionList.Elem.{Elem, set_offset}
use rust_rdkafka.TopicPartitionList.Native.{Tpl, Native, index_of, fresh, write_offset}
use rust_rdkafka.TopicPartitionList.Tpl.{
  set_all_offsets, set_offsets, add_partition_offset, set_partition_offset_of, find_partition,
}
use rust_rdkafka.TopicPartitionList.Keys.{
  key_refl, index_of-snoc, index_of-snoc_found, get_elem?-write_offset, write_offset-snoc,
  write_offset-snoc_found,
}

-- The list after `set_partition_offset` and its result, by the integer form of the offset and the
-- position of the first entry for the topic partition.
abbrev pub outcome : Tpl → Option ℤ → Option ℕ → Tpl × KafkaResult (Unit {0})
outcome t none i = (t, err (set_partition_offset ErrorCode.invalid_argument))
outcome t (some raw) none = (t, err (set_partition_offset ErrorCode.unknown_partition))
outcome t (some raw) (some i) = (record t { elems = write_offset t.elems i raw }, ok tt)

-- The entries with the offset written to every one, and the result.
abbrev pub outcome_all : Tpl → Option ℤ → Tpl × KafkaResult (Unit {0})
outcome_all t none = elim t.elems [
  | [] ↦ (t, ok tt)
  | e ∷ es ↦ (t, err (set_partition_offset ErrorCode.invalid_argument))
]
outcome_all t (some raw) =
    (record t { elems = map (λ (e : Elem). record e { raw_offset = raw }) t.elems }, ok tt)

module _ (native : Native) (t : Tpl) (topic : String) (partition : ℤ) (o : Offset) where
  set_partition_offset_outcome :
      (r : Option ℤ) (i : Option ℕ)
      → codes_contain 0 topic ≡ false
      → to_raw o ≡ r
      → index_of topic partition t.elems ≡ i
      → set_partition_offset_of native t topic partition o ≡ some (outcome t r i)
  unfolding set_partition_offset_of to_error_code
  set_partition_offset_outcome none i c r h = ground arith
  set_partition_offset_outcome (some raw) none c r h =
      ground (arith, native.set_missing t topic partition raw)
  set_partition_offset_outcome (some raw) (some i) c r h =
      ground (arith, native.set_found t topic partition raw i)

  -- `set_partition_offset` panics on a topic with a zero byte. Otherwise it fails and changes
  -- nothing if the offset has no integer form or the list has no such topic partition, with the
  -- code for each; else it writes the first entry for it, and no other.
  pub set_partition_offset_lem : set_partition_offset_of native t topic partition o ≡ (
      if codes_contain 0 topic
      then none
      else some (outcome t (to_raw o) (index_of topic partition t.elems)))
  unfolding set_partition_offset_of
  set_partition_offset_lem =
      ground (arith, set_partition_offset_outcome (to_raw o) (index_of topic partition t.elems))

  -- A topic without a zero byte that the list has: after `set_partition_offset` with an offset that
  -- has an integer form, `find_partition` finds the entry that it found before, with that offset.
  pub find_partition-set_partition_offset :
      (i : ℕ) (raw : ℤ)
      → codes_contain 0 topic ≡ false
      → index_of topic partition t.elems ≡ some i
      → to_raw o ≡ some raw
      → (t' : Tpl) × (e : Elem) × (set_partition_offset_of native t topic partition o
          ≡ some (t', ok tt))
        × (find_partition native t topic partition ≡ some (some e))
        × (find_partition native t' topic partition ≡ some (some (record e { raw_offset = raw })))
  unfolding find_partition
  find_partition-set_partition_offset i raw c h r =
      let found = get_elem?-write_offset topic partition t.elems i raw h in
      let t' : Tpl = record t { elems = write_offset t.elems i raw } in
      (
        t',
        found.0,
        set_partition_offset_outcome (some raw) (some i) c r h,
        ground (arith, found.1, native.find_first t topic partition),
        ground (arith, found.3, found.4, native.find_first t' topic partition),
      )

module _ (native : Native) (t : Tpl) (topic : String) (partition : ℤ) (o : Offset) where
  abbrev added : Tpl
  added = native.list_add t topic partition

  -- A new topic partition is added at the end with its offset, if that has an integer form and the
  -- topic holds no zero byte.
  pub add_partition_offset_new :
      (raw : ℤ)
      → codes_contain 0 topic ≡ false
      → to_raw o ≡ some raw
      → index_of topic partition t.elems ≡ none
      → (t' : Tpl) × (add_partition_offset native t topic partition o ≡ some (t', ok tt))
        × (t'.elems ≡ t.elems ++ record (fresh topic partition) { raw_offset = raw } ∷ [])
  unfolding add_partition_offset
  add_partition_offset_new raw c r h =
      let at =
        index_of-snoc topic partition t.elems (fresh topic partition) h
          (key_refl topic partition) in
      let appended = native.add_appends t topic partition in
      let done =
        set_partition_offset_outcome native added topic partition o (some raw)
          (some (length t.elems)) c r (rw appended at) in
      (
        record added { elems = write_offset added.elems (length t.elems) raw },
        ground (arith, done),
        ground (arith, appended, write_offset-snoc t.elems (fresh topic partition) raw),
      )

  -- Of a topic partition that the list already has, `add_partition_offset` writes the offset to the
  -- old entry and succeeds, and the entry that it adds has the offset INVALID.
  pub add_partition_offset_again :
      (raw : ℤ) (i : ℕ)
      → codes_contain 0 topic ≡ false
      → to_raw o ≡ some raw
      → index_of topic partition t.elems ≡ some i
      → (t' : Tpl) × (add_partition_offset native t topic partition o ≡ some (t', ok tt))
        × (t'.elems ≡ write_offset t.elems i raw ++ fresh topic partition ∷ [])
  unfolding add_partition_offset
  add_partition_offset_again raw i c r h =
      let new = fresh topic partition in
      let appended = native.add_appends t topic partition in
      let at = index_of-snoc_found topic partition t.elems new i h in
      let done =
        set_partition_offset_outcome native added topic partition o (some raw) (some i) c r
          (rw appended at) in
      (
        record added { elems = write_offset added.elems i raw },
        ground (arith, done),
        ground (arith, appended, write_offset-snoc_found topic partition t.elems new i raw h),
      )

set_offsets-some :
    (o : Offset) (raw : ℤ) (es : List Elem)
    → to_raw o ≡ some raw
    → set_offsets o es ≡ (map (λ (e : Elem). record e { raw_offset = raw }) es, ok tt)
unfolding set_offset
set_offsets-some o raw [] h = refl
set_offsets-some o raw (e ∷ es) h = ground (arith, set_offsets-some o raw es h)

set_all_offsets_outcome :
    (o : Offset) (size : ℕ) (es : List Elem) (r : Option ℤ)
    → to_raw o ≡ r
    → let t : Tpl = record { elems = es; size = size } in set_all_offsets t o ≡ outcome_all t r
unfolding set_all_offsets set_offset
set_all_offsets_outcome o size es (some raw) h = ground (arith, set_offsets-some o raw es h)
set_all_offsets_outcome o size [] none h = refl
set_all_offsets_outcome o size (e ∷ es) none h = ground arith

-- `set_all_offsets` with an offset that has an integer form sets every entry; with one that has
-- none it fails and changes nothing, unless the list is empty.
pub set_all_offsets_lem : (t : Tpl) (o : Offset) → set_all_offsets t o ≡ outcome_all t (to_raw o)
set_all_offsets_lem t o = set_all_offsets_outcome o t.size t.elems (to_raw o) refl
