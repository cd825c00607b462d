-- ===== src/Consumer/Stream/Wakers.antt =====
-- `WakerSlab` of consumer/stream_consumer.rs. A waker is the number of the task it wakes.
use rust_rdkafka.Prelude.{
  ℕ, ◌≡◌, ◌≢◌, Option, none, some, map_option, List, [], ◌∷◌, Bool, true, false, ◌==◌, ◌||◌,
}

-- The wakers among the values of the slots, and whether one of them is `w`.
abbrev pub tasks : List (Option ℕ) → List ℕ
tasks [] = []
tasks (none ∷ vs) = tasks vs
tasks (some w ∷ vs) = w ∷ tasks vs

abbrev pub has : ℕ → List ℕ → Bool
has w [] = false
has w (v ∷ vs) = v == w || has w vs

-- `slab::Slab<Option<Waker>>`, with what its documentation says of it: a key that it gives out
-- stays with its value until it is removed, and the iterator comes by every value.
pub record Slab : Type 1 where
  pub Carrier : Type 0
  pub empty : Carrier
  pub get : Carrier → ℕ → Option (Option ℕ)
  pub insert : Carrier → Option ℕ → Carrier × ℕ
  pub remove : Carrier → ℕ → Carrier
  pub assign : Carrier → ℕ → Option ℕ → Carrier
  pub values : Carrier → List (Option ℕ)
  pub map_values : (Option ℕ → Option ℕ) → Carrier → Carrier
  pub insert_get : (s : Carrier) (v : Option ℕ) → get (insert s v).0 (insert s v).1 ≡ some v
  pub insert_keeps :
      (s : Carrier) (v w : Option ℕ) (k : ℕ) → get s k ≡ some w → get (insert s v).0 k ≡ some w
  pub remove_keeps : (s : Carrier) (j k : ℕ) → j ≢ k → get (remove s j) k ≡ get s k
  pub assign_get :
      (s : Carrier) (k : ℕ) (v w : Option ℕ) → get s k ≡ some w → get (assign s k v) k ≡ some v
  pub assign_keeps : (s : Carrier) (j k : ℕ) (v : Option ℕ) → j ≢ k → get (assign s j v) k ≡ get s k
  pub values_get :
      (s : Carrier) (k w : ℕ) → get s k ≡ some (some w) → has w (tasks (values s)) ≡ true
  pub map_get :
      (s : Carrier) (f : Option ℕ → Option ℕ) (k : ℕ)
      → get (map_values f s) k ≡ map_option f (get s k)

module _ (slab : Slab) where
  unfoldable pub new : slab.Carrier
  new = slab.empty

  -- Every slot's waker is taken; the tasks that are woken come out.
  unfoldable pub wake_all : slab.Carrier → slab.Carrier × List ℕ
  wake_all wakers = (slab.map_values (λ _. none) wakers, tasks (slab.values wakers))

  unfoldable pub register : slab.Carrier → slab.Carrier × ℕ
  register wakers = slab.insert wakers none

  unfoldable pub unregister : slab.Carrier → ℕ → slab.Carrier
  unregister wakers slot = slab.remove wakers slot

  unfoldable pub set_waker : slab.Carrier → ℕ → ℕ → slab.Carrier
  set_waker wakers slot waker = slab.assign wakers slot (some waker)
