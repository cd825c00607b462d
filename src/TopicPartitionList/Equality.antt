-- ===== src/TopicPartitionList/Equality.antt =====
-- `==` on lists of topic partitions looks up the first entry for each entry's key.
use text.Mathlib.TextPositions.{eq_refl}
use rust_rdkafka.Prelude.{
  true, false, ◌≡◌, refl, ◌∙◌, none, some, List, [], ◌∷◌, ◌++◌, codes_contain, get_elem?, arith,
  length, All, ◌≢◌, Option, String, ap,
}
use mathlib.Core.List.{append_assoc}
use rust_rdkafka.TopicPartitionList.Offset.{
  Offset, beginning, end, stored, invalid, offset, offset_tail,
}
use rust_rdkafka.TopicPartitionList.Elem.{
  Elem, elem_eq, offset_eq, offset_of, metadata, metadata_eq,
}
use rust_rdkafka.TopicPartitionList.Native.{Tpl, Native, index_of, is_at}
use rust_rdkafka.TopicPartitionList.Tpl.{tpl_eq, all_found, find_partition}
use rust_rdkafka.TopicPartitionList.Keys.{key_refl, key_sym, eqb_ℤ_refl}

-- No two entries have one key.
abbrev pub AreDistinct : List Elem → Type 0
AreDistinct [] = Unit
AreDistinct (e ∷ es) = (index_of e.topic e.partition es ≡ none) × AreDistinct es

pub offset_eq_refl : (o : Offset) → offset_eq o o ≡ true
unfolding offset_eq
offset_eq_refl beginning = refl
offset_eq_refl end = refl
offset_eq_refl stored = refl
offset_eq_refl invalid = refl
offset_eq_refl (offset a) = eqb_ℤ_refl a
offset_eq_refl (offset_tail a) = eqb_ℤ_refl a

metadata_eq_refl : (a : Option String) → a ≢ none → metadata_eq a a ≡ some true
unfolding metadata_eq
metadata_eq_refl none h = absurd (h refl)
metadata_eq_refl (some a) h = ap some (eq_refl a)

-- The metadata can be read.
abbrev pub IsReadable : Elem → Type 0
IsReadable e = metadata e ≢ none

pub elem_eq_refl : (e : Elem) → IsReadable e → elem_eq e e ≡ some true
unfolding elem_eq
elem_eq_refl e r =
    rw (eq_refl e.topic, eqb_ℤ_refl e.partition, offset_eq_refl (offset_of e))
      (metadata_eq_refl (metadata e) r)

index_of-here :
    (pre : List Elem) (e : Elem) (es : List Elem)
    → All (λ d. is_at e.topic e.partition d ≡ false) pre
    → index_of e.topic e.partition (pre ++ e ∷ es) ≡ some (length pre)
index_of-here [] e es h = rw (key_refl e.topic e.partition)
index_of-here (d ∷ pre) e es h = ground (arith, h.0, index_of-here pre e es h.1)

get_elem?-here :
    (pre : List Elem) (e : Elem) (es : List Elem) → get_elem? (pre ++ e ∷ es) (length pre) ≡ some e
get_elem?-here [] e es = refl
get_elem?-here (d ∷ pre) e es = get_elem?-here pre e es

pub others :
    (d : Elem) (es : List Elem)
    → index_of d.topic d.partition es ≡ none
    → All (λ e. is_at e.topic e.partition d ≡ false) es
others d [] h = tt
others d (e ∷ es) h =
    (ground (arith, key_sym d.topic e.topic d.partition e.partition), others d es (ground arith))

-- No entry of `es` has the key of an entry of `pre`.
abbrev Apart : List Elem → List Elem → Type 0
Apart pre es = All (λ e. All (λ d. is_at e.topic e.partition d ≡ false) pre) es

All-snoc :
    (pre : List Elem) (d e : Elem)
    → All (λ x. is_at e.topic e.partition x ≡ false) pre
    → is_at e.topic e.partition d ≡ false
    → All (λ x. is_at e.topic e.partition x ≡ false) (pre ++ d ∷ [])
All-snoc [] d e a o = (o, tt)
All-snoc (x ∷ pre) d e a o = (a.0, All-snoc pre d e a.1 o)

Apart-snoc :
    (pre es : List Elem) (d : Elem)
    → Apart pre es
    → All (λ e. is_at e.topic e.partition d ≡ false) es
    → Apart (pre ++ d ∷ []) es
Apart-snoc pre [] d a o = tt
Apart-snoc pre (e ∷ es) d a o = (All-snoc pre d e a.0 o.0, Apart-snoc pre es d a.1 o.1)

abbrev pub IsCString : Elem → Type 0
IsCString e = codes_contain 0 e.topic ≡ false

Apart-nil : (es : List Elem) → Apart [] es
Apart-nil [] = tt
Apart-nil (e ∷ es) = (tt, Apart-nil es)

module _ (native : Native) where
  all_found_self :
      (t : Tpl) (pre es : List Elem)
      → t.elems ≡ pre ++ es
      → All IsCString es
      → All IsReadable es
      → AreDistinct es
      → Apart pre es
      → all_found native es t ≡ some true
  unfolding find_partition
  all_found_self t pre [] q c r d a = refl
  all_found_self t pre (e ∷ es) q c r d a =
      let rest =
        all_found_self t (pre ++ e ∷ []) es (q ∙ simp append_assoc) c.1 r.1 d.1
          (Apart-snoc pre es e a.1 (others e es d.0)) in
      ground (
        arith,
        c.0,
        rest,
        q,
        elem_eq_refl e r.0,
        native.find_first t e.topic e.partition,
        index_of-here pre e es a.0,
        get_elem?-here pre e es,
      )

  -- A list whose topics hold no zero byte and whose metadata are texts, with one entry for each key,
  -- equals itself.
  pub tpl_eq_refl :
      (t : Tpl)
      → All IsCString t.elems
      → All IsReadable t.elems
      → AreDistinct t.elems
      → tpl_eq native t t ≡ some true
  unfolding tpl_eq
  tpl_eq_refl t c r d = ground (arith, all_found_self t [] t.elems refl c r d (Apart-nil t.elems))

  found_first :
      (t : Tpl) (e : Elem) (es : List Elem)
      → t.elems ≡ e ∷ es
      → codes_contain 0 e.topic ≡ false
      → find_partition native t e.topic e.partition ≡ some (some e)
  unfolding find_partition
  found_first t e es q c =
      ground (arith, native.find_first t e.topic e.partition, q, key_refl e.topic e.partition)

  found_key :
      (t : Tpl) (e d : Elem)
      → d.topic ≡ e.topic
      → d.partition ≡ e.partition
      → find_partition native t d.topic d.partition ≡ find_partition native t e.topic e.partition
  found_key t e d s p = λ i. find_partition native t (s i) (p i)

  -- A list that begins with two entries for one key that differ does not equal itself.
  pub tpl_eq_again :
      (t : Tpl) (e d : Elem) (es : List Elem)
      → t.elems ≡ e ∷ d ∷ es
      → codes_contain 0 e.topic ≡ false
      → d.topic ≡ e.topic
      → d.partition ≡ e.partition
      → IsReadable e
      → elem_eq d e ≡ some false
      → tpl_eq native t t ≡ some false
  unfolding tpl_eq
  tpl_eq_again t e d es q c s p r differ =
      ground (arith, q, elem_eq_refl e r, found_first t e (d ∷ es) q c, found_key t e d s p)
