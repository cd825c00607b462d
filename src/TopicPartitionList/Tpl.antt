-- ===== src/TopicPartitionList/Tpl.antt =====
-- The methods of `TopicPartitionList`. One that passes a topic to librdkafka panics if the topic
-- holds a zero byte (`CString::new(topic).expect(..)`): `none` is the panic.
use rust_rdkafka.Prelude.{
  as_i32, ℕ, ℤ, negsuc, String, Bool, true, false, ◌&&◌, Option, none, some, List, [], ◌∷◌, length,
  ◌==◌, eqb_ℤ, str_eq, get_elem?, codes_contain, if◌then◌else◌,
}
use rust_rdkafka.Codes.RespErr.{RespErr}
use rust_rdkafka.Codes.Convert.{to_error_code}
use rust_rdkafka.Error.Defs.{KafkaResult, ok, err, is_error, set_partition_offset}
use rust_rdkafka.TopicPartitionList.Offset.{Offset, to_raw}
use rust_rdkafka.TopicPartitionList.Elem.{Elem, set_offset, offset_of, elem_eq}
use rust_rdkafka.TopicPartitionList.Native.{Tpl, Native}

infixl 5 ◌>>=◌
abbrev ◌>>=◌ {ℓ κ} : {A : Type ℓ} {B : Type κ} → Option A → (A → Option B) → Option B
some a >>= f = f a
none >>= f = none

-- `CString::new(topic).expect("Topic name is not UTF-8")`.
unfoldable pub expect_c_string : String → Option String
expect_c_string topic = if codes_contain 0 topic then none else some topic

-- A `HashMap<(String, i32), Offset>` in the order in which it is iterated.
pub record Entry : Type 0 where
  pub topic : String
  pub partition : ℤ
  pub offset : Offset

abbrev pub same_key : Entry → String → ℤ → Bool
same_key e topic partition = str_eq e.topic topic && eqb_ℤ e.partition partition

unfoldable pub map_get : List Entry → String → ℤ → Option Offset
map_get [] topic partition = none
map_get (e ∷ es) topic partition =
    if same_key e topic partition then some e.offset else map_get es topic partition

unfoldable pub map_insert : Entry → List Entry → List Entry
map_insert new [] = new ∷ []
map_insert new (e ∷ es) =
    if same_key e new.topic new.partition then new ∷ es else e ∷ map_insert new es

unfoldable pub count : Tpl → ℕ
count t = length t.elems

unfoldable pub capacity : Tpl → ℕ
capacity t = t.size

unfoldable pub elements : Tpl → List Elem
elements t = t.elems

abbrev for_topic : String → List Elem → List Elem
for_topic topic [] = []
for_topic topic (e ∷ es) =
    let rest = for_topic topic es in if str_eq e.topic topic then e ∷ rest else rest

unfoldable pub elements_for_topic : Tpl → String → List Elem
elements_for_topic t topic = for_topic topic t.elems

abbrev pub collect : List Elem → List Entry → List Entry
collect [] m = m
collect (e ∷ es) m =
    collect es
      (map_insert (record { topic = e.topic; partition = e.partition; offset = offset_of e }) m)

unfoldable pub to_topic_map : Tpl → List Entry
to_topic_map t = collect t.elems []

-- The loop of `set_all_offsets` over the entries, which `?` ends at the first error.
abbrev pub set_offsets : Offset → List Elem → List Elem × KafkaResult (Unit {0})
set_offsets o [] = ([], ok tt)
set_offsets o (e ∷ es) =
    let rest = set_offsets o es in
    let done = set_offset e o in
    elim done.1 [ ok u ↦ (done.0 ∷ rest.0, rest.1) | err x ↦ (done.0 ∷ es, err x) ]

unfoldable pub set_all_offsets : Tpl → Offset → Tpl × KafkaResult (Unit {0})
set_all_offsets t o = let (es, r) = set_offsets o t.elems in (record t { elems = es }, r)

module _ (native : Native) where
  unfoldable pub with_capacity : ℕ → Tpl
  with_capacity n = native.list_new (as_i32 n)

  unfoldable pub new : Tpl
  unfolding with_capacity
  new = with_capacity 5

  -- The list, and the position of the entry that was added.
  unfoldable pub add_partition : Tpl → String → ℤ → Option Tpl
  unfolding expect_c_string
  add_partition t topic partition = do
    topic_c ← expect_c_string topic
    some (native.list_add t topic_c partition)

  unfoldable pub add_topic_unassigned : Tpl → String → Option Tpl
  unfolding add_partition
  add_topic_unassigned t topic = add_partition t topic (negsuc 0)

  unfoldable pub add_partition_range : Tpl → String → ℤ → ℤ → Option Tpl
  unfolding expect_c_string
  add_partition_range t topic start stop = do
    topic_c ← expect_c_string topic
    some (native.list_add_range t topic_c start stop)

  abbrev pub call_set_offset : Tpl → String → ℤ → Option ℤ → Tpl × RespErr
  call_set_offset t topic partition none = (t, RespErr.invalid_arg)
  call_set_offset t topic partition (some raw) = native.list_set_offset t topic partition raw

  unfoldable pub set_partition_offset_of :
      Tpl → String → ℤ → Offset → Option (Tpl × KafkaResult (Unit {0}))
  unfolding expect_c_string is_error
  set_partition_offset_of t topic partition o = do
    topic_c ← expect_c_string topic
    let (t', kafka_err) = call_set_offset t topic_c partition (to_raw o)
    some (
      t',
      elim (is_error kafka_err) [
        | true ↦ err (set_partition_offset (to_error_code kafka_err))
        | false ↦ ok tt
      ],
    )

  unfoldable pub add_partition_offset :
      Tpl → String → ℤ → Offset → Option (Tpl × KafkaResult (Unit {0}))
  unfolding add_partition set_partition_offset_of
  add_partition_offset t topic partition o = do
    t' ← add_partition t topic partition
    set_partition_offset_of t' topic partition o

  unfoldable pub find_partition : Tpl → String → ℤ → Option (Option Elem)
  unfolding expect_c_string
  find_partition t topic partition = do
    topic_c ← expect_c_string topic
    some
        (elim (native.list_find t topic_c partition) [ none ↦ none | some i ↦ get_elem? t.elems i ])

  -- The loop of `from_topic_map`.
  abbrev pub add_entries : Tpl → List Entry → Option (KafkaResult Tpl)
  add_entries t [] = some (ok t)
  add_entries t (e ∷ es) = elim (add_partition_offset t e.topic e.partition e.offset) [
    | none ↦ none
    | some (t', ok u) ↦ add_entries t' es
    | some (t', err x) ↦ some (err x)
  ]

  unfoldable pub from_topic_map : List Entry → Option (KafkaResult Tpl)
  unfolding with_capacity
  from_topic_map m = add_entries (with_capacity (length m)) m

  -- `elements().iter().all(..)`.
  abbrev pub all_found : List Elem → Tpl → Option Bool
  all_found [] other = some true
  all_found (e ∷ es) other =
      let rest = all_found es other in
      elim (find_partition other e.topic e.partition) [
        | none ↦ none
        | some none ↦ some false
        | some (some o) ↦ elim (elem_eq e o) [
          | none ↦ none
          | some true ↦ rest
          | some false ↦ some false
        ]
      ]

  -- `PartialEq for TopicPartitionList`.
  unfoldable pub tpl_eq : Tpl → Tpl → Option Bool
  tpl_eq t other =
      let all = all_found t.elems other in if count t == count other then all else some false
