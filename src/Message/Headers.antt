-- ===== src/Message/Headers.antt =====
-- The headers of a message: the trait `Headers`, `OwnedHeaders`, `BorrowedHeaders` and
-- `HeadersIter`. librdkafka's list of headers is a parameter.
use rust_rdkafka.Prelude.{
  map_option, up_to_zero, ℕ, zero, suc, ◌+◌, ◌≡◌, String, true, false, Option, none, some, List, [],
  ◌∷◌, ◌++◌, length, ltb, get_elem?, if◌then◌else◌,
}
use rust_rdkafka.Codes.RespErr.{RespErr}
use rust_rdkafka.Error.Defs.{Result, ok, err, is_error}

abbrev pub Bytes : Type 0
Bytes = List ℕ

pub record Header {ℓ} (V : Type ℓ) : Type ℓ where
  pub key : String
  pub value : Option V

-- `Header::parse` with `V::from_bytes`.
unfoldable pub parse {ℓ κ} :
    {V : Type ℓ} {E : Type κ} → (Bytes → Result E V) → Header Bytes → Result E (Header V)
parse {V} {E} from_bytes h = elim h.value [
  | none ↦ ok (record { key = h.key; value = none })
  | some bytes ↦ elim (from_bytes bytes) [
    | ok v ↦ ok (record { key = h.key; value = some v })
    | err e ↦ err e
  ]
]

abbrev pub answer : Option (Header Bytes) → RespErr × Option (Header Bytes)
answer none = (RespErr.noent, none)
answer (some h) = (RespErr.no_error, some h)

-- `rd_kafka_headers_t` and its functions; `view` is the list of the headers with their whole keys, as
-- rdkafka.h documents it. The result of `header_get_all` is its code and what it wrote to its out parameters.
pub record NativeHeaders : Type 1 where
  pub Hdrs : Type 0
  pub headers_new : ℕ → Hdrs
  pub headers_copy : Hdrs → Hdrs
  pub header_add : Hdrs → String → Option Bytes → Hdrs × RespErr
  pub header_cnt : Hdrs → ℕ
  pub header_get_all : Hdrs → ℕ → RespErr × Option (Header Bytes)
  pub view : Hdrs → List (Header Bytes)
  pub view_new : (n : ℕ) → view (headers_new n) ≡ []
  pub view_copy : (h : Hdrs) → view (headers_copy h) ≡ view h
  pub view_add :
      (h : Hdrs) (k : String) (v : Option Bytes)
      → view (header_add h k v).0 ≡ view h ++ record { key = k; value = v } ∷ []
  pub add_accepted :
      (h : Hdrs) (k : String) (v : Option Bytes) → (header_add h k v).1 ≡ RespErr.no_error
  pub cnt_view : (h : Hdrs) → header_cnt h ≡ length (view h)
  pub get_view : (h : Hdrs) (i : ℕ) → header_get_all h i ≡ answer (get_elem? (view h) i)

-- What Rust reads of a header that librdkafka gives.
unfoldable pub read_header : Header Bytes → Header Bytes
unfolding up_to_zero
read_header header = record { key = up_to_zero header.key; value = header.value }

module _ (native : NativeHeaders) where
  open native use {Hdrs, headers_new, headers_copy, header_add, header_cnt, header_get_all}

  unfoldable pub count : Hdrs → ℕ
  count h = header_cnt h

  -- The key is read by `CStr::from_ptr`, to its first zero byte.
  unfoldable pub try_get : Hdrs → ℕ → Option (Header Bytes)
  unfolding is_error read_header
  try_get h idx =
      let (e, header) = header_get_all h idx in
      elim (is_error e) [ true ↦ none | false ↦ map_option read_header header ]

  -- `none` is the panic "headers index out of bounds".
  unfoldable pub get : Hdrs → ℕ → Option (Header Bytes)
  unfolding try_get
  get h idx = try_get h idx

  unfoldable pub try_get_as {κ μ} :
      {V : Type κ} {E : Type μ} → (Bytes → Result E V) → Hdrs → ℕ → Option (Result E (Header V))
  unfolding try_get parse
  try_get_as from_bytes h idx = elim (try_get h idx) [
    | none ↦ none
    | some header ↦ some (parse from_bytes header)
  ]

  -- `HeadersIter::next`: the new index and the item; `none` is the panic of `get`.
  unfoldable pub next : Hdrs → ℕ → Option (ℕ × Option (Header Bytes))
  unfolding count get
  next h index =
      if ltb index (count h)
      then elim (get h index) [ none ↦ none | some item ↦ some (index + 1, some item) ]
      else some (index, none)

  -- `for header in headers.iter()`, on fuel.
  unfoldable pub iterate : ℕ → Hdrs → ℕ → Option (List (Header Bytes))
  unfolding next
  iterate zero h index = none
  iterate (suc fuel) h index = elim (next h index) [
    | none ↦ none
    | some (index', none) ↦ some []
    | some (index', some item) ↦ elim (iterate fuel h index') [
      | none ↦ none
      | some items ↦ some (item ∷ items)
    ]
  ]

  -- `OwnedHeaders::insert`; `none` is the failed assertion.
  unfoldable pub insert : Hdrs → Header Bytes → Option Hdrs
  unfolding is_error
  insert h header =
      let (h', e) = header_add h header.key header.value in
      elim (is_error e) [ true ↦ none | false ↦ some h' ]

  abbrev pub insert_all : Hdrs → List (Header Bytes) → Option Hdrs
  insert_all h [] = some h
  insert_all h (header ∷ headers) = elim (insert h header) [
    | none ↦ none
    | some h' ↦ insert_all h' headers
  ]

  -- `OwnedHeaders::new`, and `BorrowedHeaders::detach` and `Clone`.
  unfoldable pub new : Hdrs
  new = headers_new 5

  unfoldable pub detach : Hdrs → Hdrs
  detach h = headers_copy h
