-- ===== src/Client/NativeConfig.antt =====
-- `NativeClientConfig::get` of config.rs: the size of the value first, then the value.
use rust_rdkafka.Prelude.{
  ℕ, zero, suc, ◌≡◌, ◌≢◌, refl, ap, String, true, false, List, [], ◌∷◌, ◌++◌, ◌==◌, if◌then◌else◌,
  length, All, arith, codes_contain,
}
use rust_rdkafka.Error.Defs.{
  KafkaResult, ok, err, ConfRes, conf_unknown, conf_invalid, conf_ok, is_error_conf, client_config,
  cstring_new,
}

unfoldable pub make_err {ℓ} : {A : Type ℓ} → String → ConfRes → KafkaResult A
make_err key conf_unknown = err (client_config conf_unknown "Unknown configuration name" key "")
make_err key conf_invalid = err (client_config conf_invalid "Invalid configuration value" key "")
make_err key conf_ok = err (client_config conf_ok "OK" key "")

-- `trim_matches(char::from(0))` of the bytes.
unfoldable pub trim_start : List ℕ → List ℕ
trim_start [] = []
trim_start (c ∷ cs) = let rest = trim_start cs in if c == 0 then rest else c ∷ cs

unfoldable pub trim_end : List ℕ → List ℕ
trim_end [] = []
trim_end (c ∷ cs) =
    let rest = trim_end cs in elim rest [ [] ↦ if c == 0 then [] else c ∷ [] | d ∷ ds ↦ c ∷ d ∷ ds ]

unfoldable pub trim_zeros : List ℕ → List ℕ
unfolding trim_start trim_end
trim_zeros bytes = trim_end (trim_start bytes)

-- The vector `buf`, of the size that librdkafka asked for, after the call that fills it: what it wrote,
-- cut at the size, and the zeros that are left.
unfoldable pub fill : ℕ → List ℕ → List ℕ
fill zero written = []
fill (suc n) [] = 0 ∷ fill n []
fill (suc n) (c ∷ cs) = c ∷ fill n cs

-- `rd_kafka_conf_get`: its result and the size it sets, and its result and what it writes.
pub record ConfGet : Type 0 where
  pub size_of : String → ConfRes × ℕ
  pub write : String → ℕ → ConfRes × List ℕ

-- The bytes of the text that is returned.
unfoldable pub get : ConfGet → String → KafkaResult (List ℕ)
unfolding cstring_new is_error_conf make_err fill trim_zeros
get native key = elim (cstring_new key) [
  | err e ↦ err e
  | ok key_c ↦
      let sized = native.size_of key_c in
      let written = native.write key_c sized.1 in
      elim (is_error_conf sized.0) [
        | true ↦ make_err key sized.0
        | false ↦ elim (is_error_conf written.0) [
          | true ↦ make_err key written.0
          | false ↦ ok (trim_zeros (fill sized.1 written.1))
        ]
      ]
]

trim_end-zeros : (value : List ℕ) → All (λ c. c ≢ 0) value → trim_end (value ++ 0 ∷ []) ≡ value
unfolding trim_end
trim_end-zeros [] h = refl
trim_end-zeros (c ∷ []) h = ground (arith, h.0)
trim_end-zeros (c ∷ d ∷ cs) h = ground (arith, trim_end-zeros (d ∷ cs) h.1)

trim_start-same :
    (value : List ℕ) → All (λ c. c ≢ 0) value → trim_end (trim_start (value ++ 0 ∷ [])) ≡ value
unfolding trim_start trim_end
trim_start-same [] h = refl
trim_start-same (c ∷ cs) h = ground (arith, h.0, trim_end-zeros (c ∷ cs) h)

fill-exact : (bytes : List ℕ) → fill (length bytes) bytes ≡ bytes
unfolding fill
fill-exact [] = refl
fill-exact (c ∷ cs) = ap (◌∷◌ c) (fill-exact cs)

-- A value with no zero byte that librdkafka writes with its terminating zero, after it asked for just
-- that size, is what is returned.
pub get-written :
    (native : ConfGet) (key : String) (value : List ℕ)
    → codes_contain 0 key ≡ false
    → All (λ c. c ≢ 0) value
    → native.size_of key ≡ (conf_ok, length (value ++ 0 ∷ []))
    → native.write key (length (value ++ 0 ∷ [])) ≡ (conf_ok, value ++ 0 ∷ [])
    → get native key ≡ ok value
unfolding get cstring_new trim_zeros is_error_conf
get-written native key value k v s w =
    ground (arith, k, s, w, fill-exact (value ++ 0 ∷ []), trim_start-same value v)
