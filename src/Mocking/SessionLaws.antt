-- ===== src/Mocking/SessionLaws.antt =====
-- What a mock cluster of mocking.rs does to librdkafka's objects from its creation to its drop.
use mathlib.Core.List.{append_assoc}
use mathlib.Core.Path.{subst}
use rust_rdkafka.Prelude.{
  sym, ◌&&◌, Bool-cases, inl, inr, false, ap, ◌∙◌, ℕ, Bool, true, false, Option, none, some, List,
  [], ◌∷◌, ◌++◌, map, ◌≡◌, refl, ◌==◌, if◌then◌else◌, arith,
}
use rust_rdkafka.Codes.RespErr.{RespErr}
use rust_rdkafka.Error.Defs.{KafkaResult, ok, err, is_error}
use rust_rdkafka.ErrBuf.{ErrBuf}
use rust_rdkafka.Client.Config.{ClientConfig}
use rust_rdkafka.Client.Calls.{new_context_arc}
use rust_rdkafka.Mocking.Defs.{MockCall}
use rust_rdkafka.Mocking.Session.{
  owned, ClientAnswers, client_new_calls, cluster_of, Method, perform, NativeCall, client_new,
  client_destroy, cluster_new, on_cluster, cluster_destroy, new, from_client, drop, performed, used,
  new_session, borrowed_session,
}

-- The objects that are there: the client, and a cluster by its pointer.
pub record Live : Type 0 where
  pub client : Bool
  pub cluster : Option ℕ

abbrev is_cluster : ℕ → Option ℕ → Bool
is_cluster p none = false
is_cluster p (some q) = p == q

-- What a call does to them; `none` is a call on what is not there, a second object in place of one that
-- is not destroyed, or a client that is destroyed before its cluster.
abbrev pub effect : Live → NativeCall → Option Live
effect s client_new = if s.client then none else some (record s { client = true })
effect s (cluster_new made) = elim s.cluster [
  | some q ↦ none
  | none ↦ if s.client then some (record s { cluster = made }) else none
]
effect s (on_cluster p call) = if is_cluster p s.cluster then some s else none
effect s (cluster_destroy p) =
    if is_cluster p s.cluster then some (record s { cluster = none }) else none
effect s client_destroy = elim s.cluster [
  | some q ↦ none
  | none ↦ if s.client then some (record s { client = false }) else none
]

abbrev pub effects : Live → List NativeCall → Option Live
effects s [] = some s
effects s (c ∷ cs) = elim (effect s c) [ none ↦ none | some s' ↦ effects s' cs ]

effects-map :
    (b : Bool) (p : ℕ) (calls : List MockCall) (cs : List NativeCall)
    → effects (record { client = b; cluster = some p }) (map (on_cluster p) calls ++ cs)
      ≡ effects (record { client = b; cluster = some p }) cs
effects-map b p [] cs = refl
effects-map b p (c ∷ calls) cs = ground (arith, effects-map b p calls cs)

effects-performed :
    (b : Bool) (p : ℕ) (ms : List ((MockCall → RespErr) × Method)) (cs : List NativeCall)
    → effects (record { client = b; cluster = some p }) (performed p ms ++ cs)
      ≡ effects (record { client = b; cluster = some p }) cs
unfolding performed
effects-performed b p [] cs = refl
effects-performed b p ((answer, m) ∷ ms) cs =
    ap (effects (record { client = b; cluster = some p }))
      (append_assoc (map (on_cluster p) (perform answer m).0) (performed p ms) cs)
    ∙ effects-map b p (perform answer m).0 (performed p ms ++ cs)
    ∙ effects-performed b p ms cs

-- Whether librdkafka's client is made and then given up because its log queue cannot be set.
abbrev pub is_given_up : KafkaResult (Unit {0}) → ClientAnswers → Bool
is_given_up native_config answers = elim native_config [
  | err e ↦ false
  | ok u ↦ elim answers.set [ err e ↦ false | ok v ↦ answers.made.0 && is_error answers.queued ]
]

-- What is left then: the client.
abbrev pub left_by : Bool → Live
left_by given_up = record { client = given_up; cluster = none }

effects-used :
    (p : ℕ) (ms : List ((MockCall → RespErr) × Method))
    → effects
        (record { client = true; cluster = some p })
        (used ms (record { mock_cluster = p; client = owned }))
      ≡ some (left_by false)
unfolding drop
effects-used p ms =
    effects-performed true p ms (cluster_destroy p ∷ client_destroy ∷ []) ∙ ground arith

effects-answered :
    (config : ClientConfig) (is_made : Bool) (buf : ErrBuf) (queued : RespErr) (made : Option ℕ)
    (ms : List ((MockCall → RespErr) × Method))
    → effects (left_by false) (
        new_session config
          (ok tt)
          (record { set = ok tt; made = (is_made, buf); queued = queued })
          made
          ms)
      ≡ some (left_by (is_made && is_error queued))
unfolding new_session new new_context_arc client_new_calls cluster_of
effects-answered config false buf queued made ms = refl
effects-answered config true buf queued none ms = elim (Bool-cases (is_error queued)) [
  | inl refused ↦ ground arith
  | inr accepted ↦ ground arith
]
effects-answered config true buf queued (some p) ms = elim (Bool-cases (is_error queued)) [
  | inl refused ↦ ground arith
  | inr accepted ↦ ground (arith, effects-used p ms)
]

effects-set :
    (config : ClientConfig) (answers : ClientAnswers) (set : KafkaResult (Unit {0}))
    (made : Option ℕ) (ms : List ((MockCall → RespErr) × Method))
    → answers.set ≡ set
    → effects (left_by false) (new_session config (ok tt) answers made ms)
      ≡ some (left_by (is_given_up (ok tt) answers))
unfolding new_session new new_context_arc client_new_calls
effects-set config answers (err e) made ms h =
    subst
      (λ (s : KafkaResult (Unit {0})).
        let a = record answers { set = s } in
        effects (left_by false) (new_session config (ok tt) a made ms)
        ≡ some (left_by (is_given_up (ok tt) a)))
      (sym h) refl
effects-set config answers (ok u) made ms h =
    subst
      (λ (s : KafkaResult (Unit {0})).
        let a = record answers { set = s } in
        effects (left_by false) (new_session config (ok tt) a made ms)
        ≡ some (left_by (is_given_up (ok tt) a)))
      (sym h) (effects-answered config answers.made.0 answers.made.1 answers.queued made ms)

effects-new_session :
    (config : ClientConfig) (native_config : KafkaResult (Unit {0})) (answers : ClientAnswers)
    (made : Option ℕ) (ms : List ((MockCall → RespErr) × Method))
    → effects (left_by false) (new_session config native_config answers made ms)
      ≡ some (left_by (is_given_up native_config answers))
unfolding new_session new new_context_arc client_new_calls
effects-new_session config (err e) answers made ms = refl
effects-new_session config (ok u) answers made ms =
    effects-set config answers answers.set made ms refl

effects-borrowed_session :
    (handle : Option ℕ) (ms : List ((MockCall → RespErr) × Method))
    → effects (record { client = true; cluster = handle }) (borrowed_session handle ms)
      ≡ some (record { client = true; cluster = handle })
unfolding borrowed_session from_client drop
effects-borrowed_session none ms = refl
effects-borrowed_session (some p) ms = effects-performed true p ms []

-- What is there after a session with a mock cluster is what was there before, but for one case: when
-- librdkafka makes a client and then refuses its log queue, that client is left. One of `new` uses its
-- cluster while it is there, whatever the methods are, and destroys it once, before its client; it leaves
-- nothing when the configuration, the client or the cluster cannot be made. One of `from_client` uses the
-- cluster of the client, if that has one, and destroys neither.
pub effects-sessions :
    (config : ClientConfig) (native_config : KafkaResult (Unit {0})) (answers : ClientAnswers)
    (made handle : Option ℕ) (ms : List ((MockCall → RespErr) × Method))
    → (effects (left_by false) (new_session config native_config answers made ms)
        ≡ some (left_by (is_given_up native_config answers)))
      × (effects (record { client = true; cluster = handle }) (borrowed_session handle ms)
          ≡ some (record { client = true; cluster = handle }))
effects-sessions config native_config answers made handle ms =
    (effects-new_session config native_config answers made ms, effects-borrowed_session handle ms)
