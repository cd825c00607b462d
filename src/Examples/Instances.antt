-- ===== src/Examples/Instances.antt =====
-- The parameters of the model, by lists: librdkafka's headers, the slab, and an opaque number.
use rust_rdkafka.Prelude.{
  ℕ, suc, zero, ◌≡◌, ◌≢◌, refl, ap, true, Option, none, some, map_option, List, [], ◌∷◌, ◌++◌, map,
  length, get_elem?, set, arith,
}
use rust_rdkafka.Codes.RespErr.{RespErr}
use rust_rdkafka.Message.Headers.{NativeHeaders, Header, Bytes, answer}
use rust_rdkafka.Producer.Send.{Opaque}
use rust_rdkafka.Consumer.Stream.Wakers.{Slab, tasks, has}

abbrev pub hdrs : NativeHeaders
hdrs = record {
  Hdrs = List (Header Bytes);
  headers_new = λ n. [];
  headers_copy = λ h. h;
  header_add = λ h k v. (h ++ record { key = k; value = v } ∷ [], RespErr.no_error);
  header_cnt = length;
  header_get_all = λ h i. answer (get_elem? h i);
  view = λ h. h;
  view_new = λ n. refl;
  view_copy = λ h. refl;
  view_add = λ h k v. refl;
  add_accepted = λ h k v. refl;
  cnt_view = λ h. refl;
  get_view = λ h i. refl;
}

abbrev pub number : Opaque ℕ
number = record { into_ptr = λ d. d; from_ptr = λ p. p; from_into = λ d. refl }

module _ {A : Type 0} where
  pub get-snoc : (xs : List A) (v : A) → get_elem? (xs ++ v ∷ []) (length xs) ≡ some v
  get-snoc [] v = refl
  get-snoc (x ∷ xs) v = get-snoc xs v

  pub get-snoc_keeps :
      (xs : List A) (v w : A) (k : ℕ)
      → get_elem? xs k ≡ some w
      → get_elem? (xs ++ v ∷ []) k ≡ some w
  get-snoc_keeps [] v w k h = ground arith
  get-snoc_keeps (x ∷ xs) v w zero h = h
  get-snoc_keeps (x ∷ xs) v w (suc k) h = get-snoc_keeps xs v w k h

  pub get-set :
      (xs : List A) (k : ℕ) (v w : A) → get_elem? xs k ≡ some w → get_elem? (set xs k v) k ≡ some v
  get-set [] k v w h = ground arith
  get-set (x ∷ xs) zero v w h = refl
  get-set (x ∷ xs) (suc k) v w h = get-set xs k v w h

  pub get-set_keeps :
      (xs : List A) (j k : ℕ) (v : A) → j ≢ k → get_elem? (set xs j v) k ≡ get_elem? xs k
  get-set_keeps [] j k v h = refl
  get-set_keeps (x ∷ xs) zero zero v h = absurd (h refl)
  get-set_keeps (x ∷ xs) zero (suc k) v h = refl
  get-set_keeps (x ∷ xs) (suc j) zero v h = refl
  get-set_keeps (x ∷ xs) (suc j) (suc k) v h = get-set_keeps xs j k v (λ e. h (ap suc e))

  pub get-map :
      (f : A → A) (xs : List A) (k : ℕ) → get_elem? (map f xs) k ≡ map_option f (get_elem? xs k)
  get-map f [] k = refl
  get-map f (x ∷ xs) zero = refl
  get-map f (x ∷ xs) (suc k) = get-map f xs k

pub has-tasks :
    (xs : List (Option ℕ)) (k w : ℕ) → get_elem? xs k ≡ some (some w) → has w (tasks xs) ≡ true
has-tasks [] k w h = ground arith
has-tasks (none ∷ xs) zero w h = ground arith
has-tasks (some v ∷ xs) zero w h = ground arith
has-tasks (none ∷ xs) (suc k) w h = has-tasks xs k w h
has-tasks (some v ∷ xs) (suc k) w h = ground (arith, has-tasks xs k w h)

-- Slots are not used again: a removed one keeps its value.
abbrev pub slots : Slab
slots = record {
  Carrier = List (Option ℕ);
  empty = [];
  get = get_elem?;
  insert = λ s v. (s ++ v ∷ [], length s);
  remove = λ s k. s;
  assign = set;
  values = λ s. s;
  map_values = map;
  insert_get = get-snoc;
  insert_keeps = get-snoc_keeps;
  remove_keeps = λ s j k h. refl;
  assign_get = get-set;
  assign_keeps = get-set_keeps;
  values_get = has-tasks;
  map_get = λ s f k. get-map f s k;
}
