-- ===== src/Client/CallsLaws.antt =====
-- A refresh of an OAuth token is always answered.
use mathlib.Core.Path.{subst}
use rust_rdkafka.Prelude.{
  ℤ, String, true, false, Option, List, [], ◌∷◌, ◌≡◌, refl, sym, ◌⊎◌, inl, inr, arith, Bool-cases,
  codes_contain, All,
}
use rust_rdkafka.Codes.RespErr.{RespErr}
use rust_rdkafka.Error.Defs.{KafkaError, Result, ok, err, is_error, cstring_new, nul}
use rust_rdkafka.ErrBuf.{ErrBuf}
use rust_rdkafka.Client.Calls.{
  OAuthToken, TokenCall, set_token, set_token_failure, set_token_failure_text, refreshed,
  token_calls, handle_oauth_refresh_event, null_character_text,
}

-- No text of a call holds a zero byte.
abbrev pub IsSendable : TokenCall → Type 0
IsSendable (set_token token lifetime_ms principal_name) =
    (codes_contain 0 token ≡ false) × (codes_contain 0 principal_name ≡ false)
IsSendable (set_token_failure message) = codes_contain 0 message ≡ false
IsSendable (set_token_failure_text buf) = Unit

-- The calls of a refresh: the token that the context gave, and that alone when librdkafka takes it;
-- or that one and then the text in the error buffer when librdkafka refuses it; or a failure alone,
-- when the context gave no token or one with a zero byte.
abbrev pub IsAnswered :
    (TokenCall → RespErr × ErrBuf) → Result String OAuthToken → List TokenCall → Type 0
IsAnswered answer generated (set_token token lifetime_ms principal_name ∷ []) =
    (generated
      ≡ ok (record { token = token; principal_name = principal_name; lifetime_ms = lifetime_ms }))
    × (is_error (answer (set_token token lifetime_ms principal_name)).0 ≡ false)
IsAnswered answer generated
      (set_token token lifetime_ms principal_name ∷ set_token_failure_text buf ∷ []) =
    (generated
      ≡ ok (record { token = token; principal_name = principal_name; lifetime_ms = lifetime_ms }))
    × (is_error (answer (set_token token lifetime_ms principal_name)).0 ≡ true)
    × (buf ≡ (answer (set_token token lifetime_ms principal_name)).1)
IsAnswered answer generated (set_token_failure message ∷ []) =
    ((e : String) × (generated ≡ err e))
    ⊎ ((t : OAuthToken) × (generated ≡ ok t)
        × ((codes_contain 0 t.token ≡ true) ⊎ (codes_contain 0 t.principal_name ≡ true)))
IsAnswered answer generated calls = ⊥

-- How the result of the closure stands to what the context gave.
abbrev Failed : Result String OAuthToken → Type 0
Failed generated =
    ((e : String) × (generated ≡ err e))
    ⊎ ((t : OAuthToken) × (generated ≡ ok t)
        × ((codes_contain 0 t.token ≡ true) ⊎ (codes_contain 0 t.principal_name ≡ true)))

abbrev Matches : Result String OAuthToken → Result String (String × String × ℤ) → Type 0
Matches generated (ok (token, principal_name, lifetime_ms)) =
    (generated
      ≡ ok (record { token = token; principal_name = principal_name; lifetime_ms = lifetime_ms }))
    × (codes_contain 0 token ≡ false)
    × (codes_contain 0 principal_name ≡ false)
Matches generated (err e) = Failed generated

refreshed-Matches :
    (show : KafkaError → String) (generated : Result String OAuthToken)
    → Matches generated (refreshed show generated)
unfolding refreshed cstring_new
refreshed-Matches show (err e) = inl (e, refl)
refreshed-Matches show (ok t) = elim (Bool-cases (codes_contain 0 t.token)) [
  | inl a ↦
      let q : refreshed show (ok t) ≡ err (show (nul (record { bytes = t.token }))) =
        ground (arith, a) in
      subst (Matches (ok t)) (sym q) (inr (t, refl, inl a))
  | inr a ↦ elim (Bool-cases (codes_contain 0 t.principal_name)) [
    | inl b ↦
        let q : refreshed show (ok t) ≡ err (show (nul (record { bytes = t.principal_name }))) =
          ground (arith, a, b) in
        subst (Matches (ok t)) (sym q) (inr (t, refl, inr b))
    | inr b ↦
        let q : refreshed show (ok t) ≡ ok (t.token, t.principal_name, t.lifetime_ms) =
          ground (arith, a, b) in
        subst (Matches (ok t)) (sym q) (refl, a, b)
  ]
]

null_character_sendable : codes_contain 0 null_character_text ≡ false
unfolding codes_contain
null_character_sendable = refl

module _ (answer : TokenCall → RespErr × ErrBuf) where
  taken :
      (generated : Result String OAuthToken) (token principal_name : String) (lifetime_ms : ℤ)
      → Matches generated (ok (token, principal_name, lifetime_ms))
      → IsAnswered answer generated (token_calls answer (ok (token, principal_name, lifetime_ms)))
        × All IsSendable (token_calls answer (ok (token, principal_name, lifetime_ms)))
  unfolding token_calls
  taken generated token principal_name lifetime_ms m = ground (arith, m)

  token_calls-IsAnswered :
      (generated : Result String OAuthToken) (r : Result String (String × String × ℤ))
      → Matches generated r
      → IsAnswered answer generated (token_calls answer r) × All IsSendable (token_calls answer r)
  unfolding token_calls cstring_new
  token_calls-IsAnswered generated (ok r) m = taken generated r.0 r.1 r.2 m
  token_calls-IsAnswered generated (err e) m = elim (Bool-cases (codes_contain 0 e)) [
    | inl a ↦
        let q : token_calls answer (err e) ≡ set_token_failure null_character_text ∷ [] =
          ground (arith, a) in
        subst (λ cs. IsAnswered answer generated cs × All IsSendable cs) (sym q)
          (m, (null_character_sendable, tt))
    | inr a ↦
        let q : token_calls answer (err e) ≡ set_token_failure e ∷ [] = ground (arith, a) in
        subst (λ cs. IsAnswered answer generated cs × All IsSendable cs) (sym q) (m, (a, tt))
  ]

-- Whatever the context and librdkafka do, a refresh of the token calls librdkafka: with the token that
-- was generated, followed by a failure exactly when librdkafka refuses it, or with a failure alone,
-- exactly when no token was generated or it holds a zero byte; and no text of these calls holds a zero
-- byte.
pub handle_oauth_refresh_event-IsAnswered :
    (show : KafkaError → String) (generate : Option String → Result String OAuthToken)
    (answer : TokenCall → RespErr × ErrBuf) (config : Option String)
    → IsAnswered answer (generate config) (handle_oauth_refresh_event show generate answer config)
      × All IsSendable (handle_oauth_refresh_event show generate answer config)
unfolding handle_oauth_refresh_event
handle_oauth_refresh_event-IsAnswered show generate answer config =
    token_calls-IsAnswered answer (generate config) (refreshed show (generate config))
      (refreshed-Matches show (generate config))
