-- ===== src/Message/HeadersLaws.antt =====
-- What comes back from the iterator of the headers that were inserted.
use rust_rdkafka.Prelude.{
  false, map, ap, All, codes_contain, up_to_zero_lem, ℕ, zero, suc, ◌+◌, ◌<◌, ◌≤◌, ◌≡◌, refl, ◌∙◌,
  sym, ◌⊎◌, inl, inr, none, some, List, [], ◌∷◌, ◌++◌, length, get_elem?, arith,
}
use mathlib.Core.List.{append_assoc, append-nil}
use rust_rdkafka.Message.Headers.{
  Header, Bytes, NativeHeaders, read_header, next, iterate, insert, insert_all, new, detach,
}

abbrev drop : ℕ → List (Header Bytes) → List (Header Bytes)
drop zero xs = xs
drop (suc n) [] = []
drop (suc n) (x ∷ xs) = drop n xs

drop-get :
    (i : ℕ) (xs : List (Header Bytes))
    → i < length xs
    → (x : Header Bytes) × (get_elem? xs i ≡ some x) × (drop i xs ≡ x ∷ drop (suc i) xs)
drop-get i [] h = absurd (omega arith)
drop-get zero (x ∷ xs) h = (x, refl, refl)
drop-get (suc i) (x ∷ xs) h = drop-get i xs (omega arith)

drop-all : (i : ℕ) (xs : List (Header Bytes)) → length xs ≤ i → drop i xs ≡ []
drop-all zero [] h = refl
drop-all zero (x ∷ xs) h = absurd (omega arith)
drop-all (suc i) [] h = refl
drop-all (suc i) (x ∷ xs) h = drop-all i xs (omega arith)

lt-or-le : (a b : ℕ) → (a < b) ⊎ (b ≤ a)
lt-or-le a b = grind arith

map-read_header :
    (hs : List (Header Bytes))
    → All (λ header. codes_contain 0 header.key ≡ false) hs
    → map read_header hs ≡ hs
unfolding read_header
map-read_header [] h = refl
map-read_header (x ∷ xs) h =
    λ i. record { key = up_to_zero_lem x.key h.0 i; value = x.value } ∷ map-read_header xs h.1 i

module _ (native : NativeHeaders) where
  open native use {Hdrs, view, cnt_view, get_view, view_add, add_accepted, view_new, view_copy}

  next-drop :
      (h : Hdrs) (i : ℕ) (x : Header Bytes)
      → i < length (view h)
      → get_elem? (view h) i ≡ some x
      → next native h i ≡ some (suc i, some (read_header x))
  unfolding next
  next-drop h i x lt g = ground (arith, cnt_view h, get_view h i)

  next-end : (h : Hdrs) (i : ℕ) → length (view h) ≤ i → next native h i ≡ some (i, none)
  unfolding next
  next-end h i le = ground (arith, cnt_view h)

  iterate-drop :
      (fuel : ℕ) (h : Hdrs) (i : ℕ)
      → length (view h) < fuel + i
      → i ≤ length (view h)
      → iterate native fuel h i ≡ some (map read_header (drop i (view h)))
  unfolding iterate
  iterate-drop zero h i enough le = absurd (omega arith)
  iterate-drop (suc fuel) h i enough le = elim (lt-or-le i (length (view h))) [
    | inl lt ↦
        let (x, at, cut) = drop-get i (view h) lt in
        ground (
          arith,
          next-drop h i x lt at,
          cut,
          iterate-drop fuel h (suc i) (omega arith) (omega arith),
        )
    | inr end ↦ ground (arith, next-end h i end, drop-all i (view h) end)
  ]

  iterate_lem :
      (h : Hdrs) (hs : List (Header Bytes)) (extra : ℕ)
      → view h ≡ hs
      → iterate native (suc (length hs) + extra) h 0 ≡ some (map read_header hs)
  iterate_lem h hs extra e =
      iterate-drop (suc (length hs) + extra) h 0 (rw e (omega arith)) (omega arith) ∙ rw e

  insert_all-view :
      (h : Hdrs) (hs : List (Header Bytes))
      → (h' : Hdrs) × (insert_all native h hs ≡ some h') × (view h' ≡ view h ++ hs)
  unfolding insert
  insert_all-view h [] = (h, refl, sym (append-nil (view h)))
  insert_all-view h (x ∷ hs) =
      let added = native.header_add h x.key x.value in
      let (h', all, shown) = insert_all-view added.0 hs in
      (
        h',
        ground (arith, add_accepted h x.key x.value, all),
        shown ∙ rw (view_add h x.key x.value) (simp append_assoc),
      )

  -- The same of a list of headers with any keys: each key comes back to its first zero byte.
  pub iterate-insert_all_read :
      (hs : List (Header Bytes)) (extra : ℕ)
      → (h : Hdrs) × (insert_all native (new native) hs ≡ some h)
        × (iterate native (suc (length hs) + extra) h 0 ≡ some (map read_header hs))
        × (iterate native (suc (length hs) + extra) (detach native h) 0 ≡ some (map read_header hs))
  unfolding new detach
  iterate-insert_all_read hs extra =
      let (h, all, shown) = insert_all-view (new native) hs in
      let whole : view h ≡ hs = shown ∙ rw (view_new 5) in
      (
        h,
        all,
        iterate_lem h hs extra whole,
        iterate_lem (native.headers_copy h) hs extra (view_copy h ∙ whole),
      )

  -- The iterator over headers into which the list `hs` was inserted one by one yields `hs` in
  -- order, if no key holds a zero byte, then ends: with a step more than there are headers it has ended,
  -- and no index that it asks for is out of bounds. So does the iterator over a detached copy. Inserting
  -- never fails.
  pub iterate-insert_all :
      (hs : List (Header Bytes)) (extra : ℕ)
      → All (λ header. codes_contain 0 header.key ≡ false) hs
      → (h : Hdrs) × (insert_all native (new native) hs ≡ some h)
        × (iterate native (suc (length hs) + extra) h 0 ≡ some hs)
        × (iterate native (suc (length hs) + extra) (detach native h) 0 ≡ some hs)
  iterate-insert_all hs extra clean =
      let (h, all, whole, copied) = iterate-insert_all_read hs extra in
      let same = ap some (map-read_header hs clean) in (h, all, whole ∙ same, copied ∙ same)
