-- ===== src/TopicPartitionList/Entries.antt =====
-- Entries of a list of topic partitions by their keys: what an entry stands for, the entry for a key,
-- and a list without it.
use rust_rdkafka.Prelude.{
  suc, ℤ, String, Bool, true, false, ◌&&◌, ◌≡◌, refl, sym, ap, ◌∙◌, ◌≢◌, ◌≤◌, Option, none, some,
  List, [], ◌∷◌, All, length, get_elem?, eqb_ℤ, str_eq, eq_iff, arith, if◌then◌else◌,
}
use rust_rdkafka.TopicPartitionList.Offset.{Offset, offset, offset_tail}
use rust_rdkafka.TopicPartitionList.Elem.{
  Elem, elem_eq, offset_eq, offset_of, metadata, metadata_eq,
}
use rust_rdkafka.TopicPartitionList.Native.{index_of, is_at}
use rust_rdkafka.TopicPartitionList.Keys.{key_eq, eqb_ℤ_eq}
use rust_rdkafka.TopicPartitionList.Equality.{AreDistinct, IsReadable, elem_eq_refl, others}

pub record Item : Type 0 where
  pub topic : String
  pub partition : ℤ
  pub offset : Offset
  pub metadata : Option String

abbrev pub item : Elem → Item
item e = record {
  topic = e.topic;
  partition = e.partition;
  offset = offset_of e;
  metadata = metadata e;
}

-- The entry for a key, and the list without it.
abbrev pub entry : String → ℤ → List Elem → Option Elem
entry topic partition [] = none
entry topic partition (e ∷ es) =
    if is_at topic partition e then some e else entry topic partition es

abbrev pub without : String → ℤ → List Elem → List Elem
without topic partition [] = []
without topic partition (e ∷ es) =
    let rest = without topic partition es in if is_at topic partition e then es else e ∷ rest

offset_eq_eq : (a b : Offset) → offset_eq a b ≡ true → a ≡ b
unfolding offset_eq
offset_eq_eq (offset a) (offset b) h = ap offset (eqb_ℤ_eq a b h)
offset_eq_eq (offset_tail a) (offset_tail b) h = ap offset_tail (eqb_ℤ_eq a b h)
offset_eq_eq a b h = ground arith

metadata_eq_eq : (a b : Option String) → metadata_eq a b ≡ some true → a ≡ b
unfolding metadata_eq
metadata_eq_eq (some a) (some b) h = ground (arith, eq_iff a b)
metadata_eq_eq a b h = ground arith

pub elem_eq-item : (a b : Elem) → elem_eq a b ≡ some true → item a ≡ item b
unfolding elem_eq
elem_eq-item a b h = ground (
  arith,
  eq_iff a.topic b.topic,
  eqb_ℤ_eq a.partition b.partition,
  offset_eq_eq (offset_of a) (offset_of b),
  metadata_eq_eq (metadata a) (metadata b),
)

abbrev item_eq : Item → Item → Option Bool
item_eq a b =
    if str_eq a.topic b.topic && (eqb_ℤ a.partition b.partition && offset_eq a.offset b.offset)
    then metadata_eq a.metadata b.metadata
    else some false

-- Entries that stand for the same, and whose metadata is a text, are equal.
pub item-elem_eq : (a b : Elem) → IsReadable a → item a ≡ item b → elem_eq a b ≡ some true
unfolding elem_eq
item-elem_eq a b r h = ap (λ i. item_eq (item a) i) (sym h) ∙ elem_eq_refl a r

pub entry-index_of :
    (topic : String) (partition : ℤ) (es : List Elem)
    → elim (index_of topic partition es) [ none ↦ none | some i ↦ get_elem? es i ]
      ≡ entry topic partition es
entry-index_of topic partition [] = refl
entry-index_of topic partition (e ∷ es) = ground (arith, entry-index_of topic partition es)

pub index_of-none :
    (topic : String) (partition : ℤ) (es : List Elem)
    → index_of topic partition es ≡ none
    → entry topic partition es ≡ none
index_of-none topic partition [] h = refl
index_of-none topic partition (e ∷ es) h = ground (arith, index_of-none topic partition es)

pub entry-none :
    (topic : String) (partition : ℤ) (es : List Elem)
    → entry topic partition es ≡ none
    → index_of topic partition es ≡ none
entry-none topic partition [] h = refl
entry-none topic partition (e ∷ es) h = ground (arith, entry-none topic partition es)

-- A key that is not that of `e`.
abbrev pub IsOther : String → ℤ → Elem → Type 0
IsOther topic partition e = is_at topic partition e ≡ false

IsOther-same :
    (topic : String) (partition : ℤ) (e d : Elem)
    → IsOther topic partition e
    → is_at e.topic e.partition d ≡ true
    → IsOther topic partition d
IsOther-same topic partition e d h k =
    let same = key_eq d.topic e.topic d.partition e.partition k in rw (same.0, same.1) h

pub entry-without :
    (topic : String) (partition : ℤ) (e : Elem) (es : List Elem)
    → IsOther topic partition e
    → entry topic partition (without e.topic e.partition es) ≡ entry topic partition es
entry-without topic partition e [] h = refl
entry-without topic partition e (d ∷ es) h =
    ground (arith, IsOther-same topic partition e d h, entry-without topic partition e es h)

pub length-without :
    (topic : String) (partition : ℤ) (es : List Elem)
    → entry topic partition es ≢ none
    → length es ≡ suc (length (without topic partition es))
length-without topic partition [] h = absurd (h refl)
length-without topic partition (e ∷ es) h = ground (arith, length-without topic partition es)

without-none :
    (topic : String) (partition : ℤ) (e : Elem) (es : List Elem)
    → index_of topic partition es ≡ none
    → index_of topic partition (without e.topic e.partition es) ≡ none
without-none topic partition e [] h = refl
without-none topic partition e (d ∷ es) h = ground (arith, without-none topic partition e es)

pub without-AreDistinct :
    (e : Elem) (es : List Elem) → AreDistinct es → AreDistinct (without e.topic e.partition es)
without-AreDistinct e [] h = tt
without-AreDistinct e (d ∷ es) h =
    ground (arith, without-none d.topic d.partition e es h.0, without-AreDistinct e es h.1)

-- An entry with the same item, or any, stands in the list for the key of an entry.
abbrev pub HasSame : List Elem → Elem → Type 0
HasSame es e = (o : Elem) × (entry e.topic e.partition es ≡ some o) × (item e ≡ item o)

abbrev pub HasKey : List Elem → Elem → Type 0
HasKey es e = entry e.topic e.partition es ≢ none

pub HasSame-without :
    (e : Elem) (other es : List Elem)
    → All (λ d. IsOther d.topic d.partition e) es
    → All (HasSame other) es
    → All (HasSame (without e.topic e.partition other)) es
HasSame-without e other [] o h = tt
HasSame-without e other (d ∷ es) o h = (
  (h.0.0, entry-without d.topic d.partition e other o.0 ∙ h.0.1, h.0.2),
  HasSame-without e other es o.1 h.1,
)

pub HasKey-without :
    (e : Elem) (other es : List Elem)
    → All (λ d. IsOther d.topic d.partition e) es
    → All (HasKey other) es
    → All (HasKey (without e.topic e.partition other)) es
HasKey-without e other [] o h = tt
HasKey-without e other (d ∷ es) o h = (
  (λ q. h.0 (sym (entry-without d.topic d.partition e other o.0) ∙ q)),
  HasKey-without e other es o.1 h.1,
)

-- Entries for different keys that all have theirs in another list are no more than its entries.
pub length-le :
    (es other : List Elem) → AreDistinct es → All (HasKey other) es → length es ≤ length other
length-le [] other d h = omega arith
length-le (e ∷ es) other d h =
    let rest =
      length-le es (without e.topic e.partition other) d.1
        (HasKey-without e other es (others e es d.0) h.1) in
    omega (arith, rest, length-without e.topic e.partition other h.0)
