-- ===== src/TopicPartitionList/RoundTrip.antt =====
-- A map of offsets is the same map after `from_topic_map` and `to_topic_map`.
use rust_rdkafka.Prelude.{
  as_i32, ℤ, String, Bool, true, false, ◌&&◌, ◌≡◌, refl, sym, ◌∙◌, Option, none, some, List, [],
  ◌∷◌, ◌++◌, map, codes_contain, arith, length, if◌then◌else◌, All, Bool-cases, inl, inr, str_eq,
  eqb_ℤ,
}
use mathlib.Core.List.{append_assoc, append-nil}
use rust_rdkafka.Error.Defs.{ok}
use rust_rdkafka.TopicPartitionList.Offset.{Offset, to_raw, offset_invalid}
use rust_rdkafka.TopicPartitionList.OffsetLaws.{Fits, from_raw-to_raw}
use rust_rdkafka.TopicPartitionList.Elem.{Elem, offset_of}
use rust_rdkafka.TopicPartitionList.Native.{Tpl, Native, index_of, fresh}
use rust_rdkafka.TopicPartitionList.Tpl.{
  Entry, same_key, map_get, map_insert, collect, to_topic_map, add_entries, from_topic_map,
}
use rust_rdkafka.TopicPartitionList.Keys.{key_sym, key_eq, index_of-snoc_other}
use rust_rdkafka.TopicPartitionList.Update.{add_partition_offset_new}

-- An entry that can be handed over: no zero byte in the topic, and an offset with an integer form
-- that does not overflow.
pub record IsPlain (e : Entry) : Type 0 where
  pub c_string : codes_contain 0 e.topic ≡ false
  pub fits : Fits e.offset
  pub raw : ℤ
  pub to_raw_eq : to_raw e.offset ≡ some raw

-- The keys of a map are distinct.
abbrev pub IsKeyed : List Entry → Type 0
IsKeyed [] = Unit
IsKeyed (e ∷ es) = (map_get es e.topic e.partition ≡ none) × IsKeyed es

abbrev raw_or : Option ℤ → ℤ
raw_or none = offset_invalid
raw_or (some raw) = raw

abbrev elem_of : Entry → Elem
elem_of e = record (fresh e.topic e.partition) { raw_offset = raw_or (to_raw e.offset) }

abbrev IsNew : List Elem → Entry → Type 0
IsNew es e = index_of e.topic e.partition es ≡ none

IsNew-snoc :
    (es : List Elem) (e : Entry) (m : List Entry)
    → map_get m e.topic e.partition ≡ none
    → All (IsNew es) m
    → All (IsNew (es ++ elem_of e ∷ [])) m
unfolding map_get
IsNew-snoc es e [] h k = tt
IsNew-snoc es e (d ∷ m) h k = (
  index_of-snoc_other d.topic d.partition es (elem_of e) k.0
      (ground (arith, key_sym e.topic d.topic e.partition d.partition)),
  IsNew-snoc es e m (ground arith) k.1,
)

IsNew-empty : (m : List Entry) → All (IsNew []) m
IsNew-empty [] = tt
IsNew-empty (e ∷ m) = (refl, IsNew-empty m)

module _ (native : Native) where
  add_entries_lem :
      (t : Tpl) (m : List Entry)
      → All IsPlain m
      → IsKeyed m
      → All (IsNew t.elems) m
      → (t' : Tpl) × (add_entries native t m ≡ some (ok t')) × (t'.elems ≡ t.elems ++ map elem_of m)
  add_entries_lem t [] p k n = (t, refl, sym (append-nil t.elems))
  add_entries_lem t (e ∷ m) p k n =
      let added =
        add_partition_offset_new native t e.topic e.partition e.offset p.0.raw p.0.c_string
          p.0.to_raw_eq n.0 in
      let elems : added.0.elems ≡ t.elems ++ elem_of e ∷ [] =
        ground (arith, added.2, p.0.to_raw_eq) in
      let rest = add_entries_lem added.0 m p.1 k.1 (rw elems (IsNew-snoc t.elems e m k.0 n.1)) in
      (rest.0, ground (arith, added.1, rest.1), rest.2 ∙ (rw elems (simp append_assoc)))

  -- A map with distinct keys, whose topics hold no zero byte and whose offsets fit the integer
  -- form, becomes a list with one entry for each, in the order of the iteration.
  pub from_topic_map_lem :
      (m : List Entry)
      → All IsPlain m
      → IsKeyed m
      → (t : Tpl) × (from_topic_map native m ≡ some (ok t)) × (t.elems ≡ map elem_of m)
  unfolding from_topic_map
  from_topic_map_lem m p k =
      let empty = native.new_empty (as_i32 (length m)) in
      let done =
        add_entries_lem (native.list_new (as_i32 (length m))) m p k (rw empty (IsNew-empty m)) in
      (done.0, done.1, done.2 ∙ rw empty)

keep_first :
    (b : Bool) (x y z : Option Offset)
    → (if b then x else z) ≡ (if b then x else if b then y else z)
keep_first true x y z = refl
keep_first false x y z = refl

swap_tests :
    (b c : Bool) (x y z : Option Offset)
    → (b ≡ true → c ≡ true → ⊥)
    → (if b then x else if c then y else z) ≡ (if c then y else if b then x else z)
swap_tests true true x y z h = absurd (h refl refl)
swap_tests true false x y z h = refl
swap_tests false c x y z h = refl

same_key_of_same :
    (d e : Entry) (topic : String) (partition : ℤ)
    → same_key d e.topic e.partition ≡ true
    → same_key d topic partition ≡ same_key e topic partition
same_key_of_same d e topic partition h =
    let (s, q) = key_eq d.topic e.topic d.partition e.partition h in
    λ i. str_eq (s i) topic && eqb_ℤ (q i) partition

same_key_trans :
    (d e : Entry) (topic : String) (partition : ℤ)
    → same_key d topic partition ≡ true
    → same_key e topic partition ≡ true
    → same_key d e.topic e.partition ≡ true
same_key_trans d e topic partition h k =
    let (s, q) = key_eq e.topic topic e.partition partition k in
    (λ i. str_eq d.topic (s i) && eqb_ℤ d.partition (q i)) ∙ h

map_get-insert :
    (new : Entry) (m : List Entry) (topic : String) (partition : ℤ)
    → map_get (map_insert new m) topic partition
      ≡ (if same_key new topic partition then some new.offset else map_get m topic partition)
unfolding map_get map_insert
map_get-insert new [] topic partition = refl
map_get-insert new (e ∷ m) topic partition =
    elim (Bool-cases (same_key e new.topic new.partition)) [
      | inl old ↦
          rw (old, same_key_of_same e new topic partition old)
            (keep_first (same_key new topic partition) (some new.offset) (some e.offset)
              (map_get m topic partition))
      | inr other ↦
          rw (other, map_get-insert new m topic partition)
            (swap_tests (same_key e topic partition) (same_key new topic partition) (some e.offset)
              (some new.offset) (map_get m topic partition)
              (λ h k. cc (other, same_key_trans e new topic partition h k)))
    ]

abbrev or_else : Option Offset → Option Offset → Option Offset
or_else (some o) p = some o
or_else none p = p

or_else-none : (o : Option Offset) → or_else o none ≡ o
or_else-none none = refl
or_else-none (some o) = refl

absent :
    (e : Entry) (l : List Entry) (topic : String) (partition : ℤ)
    → map_get l e.topic e.partition ≡ none
    → same_key e topic partition ≡ true
    → map_get l topic partition ≡ none
absent e l topic partition h k =
    let (s, q) = key_eq e.topic topic e.partition partition k in
    (λ i. map_get l (sym s i) (sym q i)) ∙ h

offset_of-elem_of : (e : Entry) → IsPlain e → offset_of (elem_of e) ≡ e.offset
unfolding offset_of
offset_of-elem_of e p = rw p.to_raw_eq (from_raw-to_raw e.offset p.raw p.fits p.to_raw_eq)

map_get-collect :
    (l m : List Entry) (topic : String) (partition : ℤ)
    → All IsPlain l
    → IsKeyed l
    → map_get (collect (map elem_of l) m) topic partition
      ≡ or_else (map_get l topic partition) (map_get m topic partition)
unfolding map_get
map_get-collect [] m topic partition p k = refl
map_get-collect (e ∷ l) m topic partition p k =
    let new : Entry = record e { offset = offset_of (elem_of e) } in
    map_get-collect l (map_insert new m) topic partition p.1 k.1
    ∙ rw (map_get-insert new m topic partition, offset_of-elem_of e p.0)
        (elim (Bool-cases (same_key e topic partition)) [
          | inl here ↦ rw (here, absent e l topic partition k.0 here)
          | inr other ↦ rw other
        ])

-- A map with distinct keys, whose topics hold no zero byte and whose offsets fit the integer
-- form: `from_topic_map` succeeds, and `to_topic_map` of the list has every offset of the map and
-- no other.
pub to_topic_map-from_topic_map :
    (native : Native) (m : List Entry)
    → All IsPlain m
    → IsKeyed m
    → (t : Tpl) × (from_topic_map native m ≡ some (ok t))
      × ((topic : String) (partition : ℤ)
          → map_get (to_topic_map t) topic partition ≡ map_get m topic partition)
unfolding to_topic_map map_get
to_topic_map-from_topic_map native m p k =
    let (t, made, elems) = from_topic_map_lem native m p k in
    (
      t,
      made,
      λ topic partition.
          rw (elems, map_get-collect m [] topic partition p k)
            (or_else-none (map_get m topic partition)),
    )
