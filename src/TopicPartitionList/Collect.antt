-- ===== src/TopicPartitionList/Collect.antt =====
-- `FromIterator for TopicPartitionList`: a list that is collected from topics, partitions and offsets.
use rust_rdkafka.Prelude.{
  as_i32, ℕ, ◌≡◌, refl, sym, ap, ◌∙◌, Option, none, some, List, [], ◌∷◌, ◌++◌, map, length,
  get_elem?, set, arith, All,
}
use mathlib.Core.List.{append_assoc, append-nil}
use rust_rdkafka.Error.Defs.{ok, err}
use rust_rdkafka.TopicPartitionList.OffsetLaws.{from_raw-to_raw}
use rust_rdkafka.TopicPartitionList.Elem.{Elem, offset_of, set_offset}
use rust_rdkafka.TopicPartitionList.Native.{Tpl, Native, fresh}
use rust_rdkafka.TopicPartitionList.Tpl.{
  Entry, elements, expect_c_string, with_capacity, add_partition,
}
use rust_rdkafka.TopicPartitionList.RoundTrip.{IsPlain}

-- `set_offset` on the entry at a position of the list; `none` is the panic on its error.
unfoldable pub set_offset_at : Tpl → ℕ → Entry → Option Tpl
unfolding set_offset
set_offset_at t i e = elim (get_elem? t.elems i) [
  | none ↦ none
  | some elem ↦
      let (elem', done) = set_offset elem e.offset in
      elim done [ ok u ↦ some (record t { elems = set t.elems i elem' }) | err x ↦ none ]
]

module _ (native : Native) where
  -- The loop over the items. The entry that `add_partition` returns is the last of the list.
  unfoldable pub add_items : Tpl → List Entry → Option Tpl
  unfolding add_partition set_offset_at
  add_items t [] = some t
  add_items t (e ∷ es) = elim (add_partition native t e.topic e.partition) [
    | none ↦ none
    | some t' ↦ elim (set_offset_at t' (length t.elems) e) [
      | none ↦ none
      | some t'' ↦ add_items t'' es
    ]
  ]

  -- `lower_bound` is that of the iterator's size hint.
  unfoldable pub from_iter : ℕ → List Entry → Option Tpl
  unfolding with_capacity add_items
  from_iter lower_bound items = add_items (with_capacity native lower_bound) items

-- An entry of a list as the item that it came from.
abbrev pub entry_of : Elem → Entry
entry_of e = record { topic = e.topic; partition = e.partition; offset = offset_of e }

module _ {A : Type 0} where
  get-last : (xs : List A) (x : A) → get_elem? (xs ++ x ∷ []) (length xs) ≡ some x
  get-last [] x = refl
  get-last (y ∷ xs) x = get-last xs x

  set-last : (xs : List A) (x y : A) → set (xs ++ x ∷ []) (length xs) y ≡ xs ++ y ∷ []
  set-last [] x y = refl
  set-last (z ∷ xs) x y = ap (λ l. z ∷ l) (set-last xs x y)

map-snoc :
    (f : Elem → Entry) (xs : List Elem) (x : Elem) → map f (xs ++ x ∷ []) ≡ map f xs ++ f x ∷ []
map-snoc f [] x = refl
map-snoc f (y ∷ xs) x = ap (λ l. f y ∷ l) (map-snoc f xs x)

set_at_end :
    (t : Tpl) (es : List Elem) (x : Elem) (e : Entry) (p : IsPlain e)
    → t.elems ≡ es ++ x ∷ []
    → set_offset_at t (length es) e
      ≡ some (record t { elems = es ++ record x { raw_offset = p.raw } ∷ [] })
unfolding set_offset_at set_offset
set_at_end t es x e p eq =
    let found : get_elem? t.elems (length es) ≡ some x =
      ap (λ l. get_elem? l (length es)) eq ∙ get-last es x in
    let stored =
      ap (λ l. set l (length es) (record x { raw_offset = p.raw })) eq
      ∙ set-last es x (record x { raw_offset = p.raw }) in
    ground (arith, found, p.to_raw_eq, stored)

module _ (native : Native) where
  add_item :
      (t : Tpl) (e : Entry)
      → IsPlain e
      → (t' : Tpl) × (t'' : Tpl) × (add_partition native t e.topic e.partition ≡ some t')
        × (set_offset_at t' (length t.elems) e ≡ some t'')
        × (map entry_of t''.elems ≡ map entry_of t.elems ++ e ∷ [])
  unfolding add_partition expect_c_string set_offset_at set_offset offset_of
  add_item t e p =
      let t' = native.list_add t e.topic e.partition in
      let new = record (fresh e.topic e.partition) { raw_offset = p.raw } in
      let appended = native.add_appends t e.topic e.partition in
      (
        t',
        record t' { elems = t.elems ++ new ∷ [] },
        ground (arith, p.c_string),
        set_at_end t' t.elems (fresh e.topic e.partition) e p appended,
        map-snoc entry_of t.elems new
            ∙ ap (λ o. map entry_of t.elems ++ record e { offset = o } ∷ [])
                (from_raw-to_raw e.offset p.raw p.fits p.to_raw_eq),
      )

  add_items_lem :
      (t : Tpl) (items : List Entry)
      → All IsPlain items
      → (t' : Tpl) × (add_items native t items ≡ some t')
        × (map entry_of t'.elems ≡ map entry_of t.elems ++ items)
  unfolding add_items
  add_items_lem t [] p = (t, refl, sym (append-nil (map entry_of t.elems)))
  add_items_lem t (e ∷ es) p =
      let (t1, t2, added, written, same) = add_item t e p.0 in
      let (t3, rest, all) = add_items_lem t2 es p.1 in
      (
        t3,
        ground (arith, added, written, rest),
        all ∙ ap (λ l. l ++ es) same ∙ append_assoc (map entry_of t.elems) (e ∷ []) es,
      )

  -- A list that is collected from items whose topics hold no zero byte and whose offsets have an integer
  -- form that does not overflow is made without a panic, and its elements are the items, in order and with
  -- those of one key each, whatever the size hint is.
  pub map-from_iter :
      (lower_bound : ℕ) (items : List Entry)
      → All IsPlain items
      → (t : Tpl) × (from_iter native lower_bound items ≡ some t)
        × (map entry_of (elements t) ≡ items)
  unfolding from_iter with_capacity elements
  map-from_iter lower_bound items p =
      let (t, made, same) = add_items_lem (native.list_new (as_i32 lower_bound)) items p in
      (t, made, same ∙ ap (λ es. map entry_of es ++ items) (native.new_empty (as_i32 lower_bound)))
