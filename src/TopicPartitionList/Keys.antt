-- ===== src/TopicPartitionList/Keys.antt =====
-- Topic and partition as a key, and where an entry for a key stands in a list.
use text.Mathlib.TextPositions.{eq_refl}
use rust_rdkafka.Prelude.{
  ℕ, zero, suc, ℤ, pos, negsuc, String, true, false, ◌&&◌, ◌≡◌, refl, none, some, List, [], ◌∷◌,
  ◌++◌, length, get_elem?, eqb_ℤ, str_eq, eq_iff, arith,
}
use rust_rdkafka.TopicPartitionList.Elem.{Elem}
use rust_rdkafka.TopicPartitionList.Native.{is_at, index_of, write_offset}

pub eqb_ℤ_refl : (a : ℤ) → eqb_ℤ a a ≡ true
eqb_ℤ_refl (pos a) = ground arith
eqb_ℤ_refl (negsuc a) = ground arith

pub eqb_ℤ_sym : (a b : ℤ) → eqb_ℤ a b ≡ eqb_ℤ b a
eqb_ℤ_sym a b = ground arith

pub eqb_ℤ_eq : (a b : ℤ) → eqb_ℤ a b ≡ true → a ≡ b
eqb_ℤ_eq a b h = ground arith

pub key_sym : (s t : String) (a b : ℤ) → (str_eq s t && eqb_ℤ a b) ≡ (str_eq t s && eqb_ℤ b a)
key_sym s t a b = ground (arith, eq_iff s t, eq_iff t s)

pub key_refl : (s : String) (a : ℤ) → (str_eq s s && eqb_ℤ a a) ≡ true
key_refl s a = simp (eq_refl, eqb_ℤ_refl)

pub key_eq : (s t : String) (a b : ℤ) → (str_eq s t && eqb_ℤ a b) ≡ true → (s ≡ t) × (a ≡ b)
key_eq s t a b h = ground (arith, eq_iff s t, eqb_ℤ_eq a b)

module _ (topic : String) (partition : ℤ) where
  -- A key that the list has not is found where it is appended.
  pub index_of-snoc :
      (es : List Elem) (e : Elem)
      → index_of topic partition es ≡ none
      → is_at topic partition e ≡ true
      → index_of topic partition (es ++ e ∷ []) ≡ some (length es)
  index_of-snoc [] e h k = rw k
  index_of-snoc (d ∷ es) e h k = ground (arith, index_of-snoc es e)

  pub index_of-snoc_other :
      (es : List Elem) (e : Elem)
      → index_of topic partition es ≡ none
      → is_at topic partition e ≡ false
      → index_of topic partition (es ++ e ∷ []) ≡ none
  index_of-snoc_other [] e h k = rw k
  index_of-snoc_other (d ∷ es) e h k = ground (arith, index_of-snoc_other es e)

  pub index_of-snoc_found :
      (es : List Elem) (e : Elem) (i : ℕ)
      → index_of topic partition es ≡ some i
      → index_of topic partition (es ++ e ∷ []) ≡ some i
  index_of-snoc_found [] e i h = cc
  index_of-snoc_found (d ∷ es) e zero h = ground (arith, index_of-snoc_found es e zero)
  index_of-snoc_found (d ∷ es) e (suc i) h = ground (arith, index_of-snoc_found es e i)

  pub get_elem?-write_offset :
      (es : List Elem) (i : ℕ) (raw : ℤ)
      → index_of topic partition es ≡ some i
      → (e : Elem) × (get_elem? es i ≡ some e)
        × (is_at topic partition e ≡ true)
        × (get_elem? (write_offset es i raw) i ≡ some (record e { raw_offset = raw }))
        × (index_of topic partition (write_offset es i raw) ≡ some i)
  get_elem?-write_offset [] i raw h = cc
  get_elem?-write_offset (d ∷ es) zero raw h = (d, refl, ground arith, refl, ground arith)
  get_elem?-write_offset (d ∷ es) (suc i) raw h =
      let rest = get_elem?-write_offset es i raw (ground arith) in
      (rest.0, rest.1, rest.2, rest.3, ground (arith, rest.4))

pub write_offset-snoc :
    (es : List Elem) (e : Elem) (raw : ℤ)
    → write_offset (es ++ e ∷ []) (length es) raw ≡ es ++ record e { raw_offset = raw } ∷ []
write_offset-snoc [] e raw = refl
write_offset-snoc (d ∷ es) e raw = rw (write_offset-snoc es e raw)

pub write_offset-snoc_found :
    (topic : String) (partition : ℤ) (es : List Elem) (e : Elem) (i : ℕ) (raw : ℤ)
    → index_of topic partition es ≡ some i
    → write_offset (es ++ e ∷ []) i raw ≡ write_offset es i raw ++ e ∷ []
write_offset-snoc_found topic partition [] e i raw h = cc
write_offset-snoc_found topic partition (d ∷ es) e zero raw h = refl
write_offset-snoc_found topic partition (d ∷ es) e (suc i) raw h =
    rw (write_offset-snoc_found topic partition es e i raw (ground arith))
