-- ===== src/TopicPartitionList/MapView.antt =====
-- What a list of topic partitions stands for: a finite map from topics and partitions to offsets and
-- metadata, in which neither the order of the entries nor their encoding is left.
use rust_rdkafka.Prelude.{
  ℤ, String, true, false, ◌≡◌, refl, sym, ap, ◌∙◌, ◌≢◌, ◌↔◌, Option, none, some, map_option, List,
  [], ◌∷◌, All, length, arith, Option-cases, Bool-cases, ◌⊎◌, inl, inr,
}
use rust_rdkafka.TopicPartitionList.Elem.{Elem, elem_eq}
use rust_rdkafka.TopicPartitionList.Native.{Tpl, Native, is_at}
use rust_rdkafka.TopicPartitionList.Tpl.{tpl_eq, all_found, find_partition, count}
use rust_rdkafka.TopicPartitionList.Keys.{key_refl, key_eq}
use rust_rdkafka.TopicPartitionList.Equality.{AreDistinct, IsCString, IsReadable, others}
use rust_rdkafka.TopicPartitionList.Entries.{
  Item, item, entry, without, item-elem_eq, elem_eq-item, entry-index_of, IsOther, entry-without,
  length-without, HasSame, HasKey, HasSame-without, length-le,
}

-- The map.
abbrev pub to_map : Tpl → String → ℤ → Option Item
to_map t topic partition = map_option item (entry topic partition t.elems)

none-some : (o : Option Elem) (e : Elem) → o ≡ some e → o ≢ none
none-some o e h q = cc

-- One key that is that of `e`, or not.
IsOther-cases :
    (topic : String) (partition : ℤ) (e : Elem)
    → IsOther topic partition e ⊎ (e.topic ≡ topic) × (e.partition ≡ partition)
IsOther-cases topic partition e = elim (Bool-cases (is_at topic partition e)) [
  | inl same ↦ inr (key_eq e.topic topic e.partition partition same)
  | inr differ ↦ inl differ
]

same-entry :
    (es other : List Elem) (topic : String) (partition : ℤ)
    → AreDistinct es
    → length es ≡ length other
    → All (HasSame other) es
    → map_option item (entry topic partition es) ≡ map_option item (entry topic partition other)
same-entry [] [] topic partition d l h = refl
same-entry [] (o ∷ other) topic partition d l h = absurd (omega (arith, l))
same-entry (e ∷ es) other topic partition d l h =
    let found : entry e.topic e.partition other ≢ none = none-some _ _ h.0.1 in
    let rest =
      same-entry es (without e.topic e.partition other) topic partition d.1
        (omega (arith, l, length-without e.topic e.partition other found))
        (HasSame-without e other es (others e es d.0) h.1) in
    elim (IsOther-cases topic partition e) [
      | inl differ ↦ rw (differ, rest, entry-without topic partition e other differ) refl
      | inr (s, p) ↦ rw (sym s, sym p, key_refl e.topic e.partition, h.0.1, h.0.2) refl
    ]

-- The entries of a list with distinct keys are what it has for their keys.
own-cons :
    (e : Elem) (full es : List Elem)
    → All (λ d. IsOther d.topic d.partition e) es
    → All (λ d. entry d.topic d.partition full ≡ some d) es
    → All (λ d. entry d.topic d.partition (e ∷ full) ≡ some d) es
own-cons e full [] o h = tt
own-cons e full (d ∷ es) o h = (rw o.0 h.0, own-cons e full es o.1 h.1)

own : (es : List Elem) → AreDistinct es → All (λ d. entry d.topic d.partition es ≡ some d) es
own [] d = tt
own (e ∷ es) d =
    (rw (key_refl e.topic e.partition) refl, own-cons e es es (others e es d.0) (own es d.1))

item-HasSame :
    (other : List Elem) (e : Elem)
    → map_option item (entry e.topic e.partition other) ≡ some (item e)
    → HasSame other e
item-HasSame other e h = elim (Option-cases (entry e.topic e.partition other)) [
  | inl q ↦ ground (arith, h, q)
  | inr (o, q) ↦ (o, q, ground (arith, h, q))
]

-- Lists with one map have the items of each other's entries.
maps-HasSame :
    (full other es : List Elem)
    → ((topic : String) (partition : ℤ)
        → map_option item (entry topic partition full)
          ≡ map_option item (entry topic partition other))
    → All (λ d. entry d.topic d.partition full ≡ some d) es
    → All (HasSame other) es
maps-HasSame full other [] m h = tt
maps-HasSame full other (e ∷ es) m h = (
  item-HasSame other e (sym (m e.topic e.partition) ∙ ap (map_option item) h.0),
  maps-HasSame full other es m h.1,
)

HasSame-HasKey : (other es : List Elem) → All (HasSame other) es → All (HasKey other) es
HasSame-HasKey other [] h = tt
HasSame-HasKey other (e ∷ es) h = (none-some _ _ h.0.1, HasSame-HasKey other es h.1)

module _ (native : Native) where
  find_partition-entry :
      (t : Tpl) (e : Elem)
      → IsCString e
      → find_partition native t e.topic e.partition ≡ some (entry e.topic e.partition t.elems)
  unfolding find_partition
  find_partition-entry t e c =
      rw (c, native.find_first t e.topic e.partition)
        (ap some (entry-index_of e.topic e.partition t.elems))

  all_found-HasSame :
      (es : List Elem) (u : Tpl)
      → All IsCString es
      → all_found native es u ≡ some true
      → All (HasSame u.elems) es
  all_found-HasSame [] u c h = tt
  all_found-HasSame (e ∷ es) u c h =
      let found = find_partition-entry u e c.0 in
      elim (Option-cases (entry e.topic e.partition u.elems)) [
        | inl q ↦ ground (arith, found, h, q)
        | inr (o, q) ↦ elim (Option-cases (elem_eq e o)) [
          | inl panics ↦ ground (arith, found, h, q, panics)
          | inr (true, same) ↦ (
            (o, q, elem_eq-item e o same),
            all_found-HasSame es u c.1 (ground (arith, found, h, q, same)),
          )
          | inr (false, differ) ↦ ground (arith, found, h, q, differ)
        ]
      ]

  HasSame-all_found :
      (es : List Elem) (u : Tpl)
      → All IsCString es
      → All IsReadable es
      → All (HasSame u.elems) es
      → all_found native es u ≡ some true
  HasSame-all_found [] u c r h = refl
  HasSame-all_found (e ∷ es) u c r h = ground (
    arith,
    find_partition-entry u e c.0,
    h.0.1,
    item-elem_eq e h.0.0 r.0 h.0.2,
    HasSame-all_found es u c.1 r.1 h.1,
  )

  -- Two lists whose topics hold no zero byte, the metadata of the first texts, each with one entry for a key, are equal by `==` exactly
  -- when they stand for one map: whatever the topic and the partition, both have no entry for them, or
  -- entries with one offset and metadata. The order of the entries, the null pointer for no metadata
  -- and the errors of the entries do not count.
  pub tpl_eq_map :
      (t u : Tpl)
      → All IsCString t.elems
      → All IsReadable t.elems
      → AreDistinct t.elems
      → AreDistinct u.elems
      → (tpl_eq native t u ≡ some true)
        ↔ ((topic : String) (partition : ℤ) → to_map t topic partition ≡ to_map u topic partition)
  unfolding tpl_eq count
  tpl_eq_map t u c r d d' = (
    (λ h topic partition.
        let facts : (length t.elems ≡ length u.elems) × (all_found native t.elems u ≡ some true) =
          ground (arith, h) in
        same-entry t.elems u.elems topic partition d facts.0
          (all_found-HasSame t.elems u c facts.1)),
    (λ m.
        let there = maps-HasSame t.elems u.elems t.elems m (own t.elems d) in
        let back =
          maps-HasSame u.elems t.elems u.elems (λ topic partition. sym (m topic partition))
            (own u.elems d') in
        ground (
          arith,
          HasSame-all_found t.elems u c r there,
          length-le t.elems u.elems d (HasSame-HasKey u.elems t.elems there),
          length-le u.elems t.elems d' (HasSame-HasKey t.elems u.elems back),
        )),
  )
