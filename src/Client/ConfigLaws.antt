-- ===== src/Client/ConfigLaws.antt =====
-- The configuration as a map, and what its printed forms hide.
use rust_rdkafka.Prelude.{
  String, true, ◌≡◌, refl, Option, none, some, [], ◌∷◌, arith, str_eq, eq_iff, if◌then◌else◌,
  Bool-cases, inl, inr,
}
use rust_rdkafka.Client.Config.{
  ClientConfig, ConfMap, lookup, insert, without, get, set, remove, config_map, debug_map,
  is_sensitive, sanitized_value_placeholder, LogLevel, from_int, to_int,
}

module _ (key asked : String) where
  lookup-insert :
      (entries : ConfMap) (value : String)
      → lookup asked (insert key value entries)
        ≡ (if str_eq key asked then some value else lookup asked entries)
  unfolding lookup insert
  lookup-insert [] value = refl
  lookup-insert (entry ∷ entries) value =
      let ih = lookup-insert entries value in
      ground (arith, ih, eq_iff key asked, eq_iff entry.0 asked, eq_iff entry.0 key)

  lookup-without :
      (entries : ConfMap)
      → lookup asked (without key entries)
        ≡ (if str_eq key asked then none else lookup asked entries)
  unfolding lookup without
  lookup-without [] = ground arith
  lookup-without (entry ∷ entries) =
      let ih = lookup-without entries in
      ground (arith, ih, eq_iff key asked, eq_iff entry.0 asked, eq_iff entry.0 key)

-- After `set` of one key, `get` of it gives the value that was set; after `remove`, nothing; every
-- other key keeps its value.
pub get-set-remove :
    (c : ClientConfig) (k j v : String)
    → (get (set c k v) j ≡ (if str_eq k j then some v else get c j))
      × (get (remove c k) j ≡ (if str_eq k j then none else get c j))
unfolding get set remove
get-set-remove c k j v = (lookup-insert k j c.conf_map v, lookup-without k j c.conf_map)

abbrev pub sanitized : String → Option String → Option String
sanitized k none = none
sanitized k (some v) = some (if is_sensitive k then sanitized_value_placeholder else v)

same_sensitive : (j k : String) → str_eq j k ≡ true → is_sensitive j ≡ is_sensitive k
same_sensitive j k h = λ i. is_sensitive ((eq_iff j k).0 h i)

lookup-config_map : (k : String) (m : ConfMap) → lookup k (config_map m) ≡ sanitized k (lookup k m)
unfolding lookup config_map
lookup-config_map k [] = refl
lookup-config_map k ((j, v) ∷ m) = elim (Bool-cases (str_eq j k)) [
  | inl here ↦ rw (here, same_sensitive j k here)
  | inr other ↦ rw (other, lookup-config_map k m)
]

lookup-debug_map :
    (k : String) (m : ConfMap)
    → lookup k (debug_map m) ≡ (if is_sensitive k then none else lookup k m)
unfolding lookup debug_map
lookup-debug_map k [] = ground arith
lookup-debug_map k ((j, v) ∷ m) = elim (Bool-cases (str_eq j k)) [
  | inl here ↦ rw (same_sensitive j k here) (ground (arith, here, lookup-debug_map k m))
  | inr other ↦ ground (arith, other, lookup-debug_map k m)
]

-- The value of a sensitive key appears in neither printed form of a configuration: `config_map`
-- has the placeholder for it, and `Debug` leaves the key out. All other keys stand in both with
-- their values.
pub printed-get :
    (c : ClientConfig) (k : String)
    → (lookup k (config_map c.conf_map) ≡ sanitized k (get c k))
      × (lookup k (debug_map c.conf_map) ≡ (if is_sensitive k then none else get c k))
unfolding get
printed-get c k = (lookup-config_map k c.conf_map, lookup-debug_map k c.conf_map)

-- The number of every log level is read back as that level.
pub from_int-to_int : (l : LogLevel) → from_int (to_int l) ≡ l
unfolding from_int to_int
from_int-to_int LogLevel.emerg = refl
from_int-to_int _ = refl
