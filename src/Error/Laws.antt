-- ===== src/Error/Laws.antt =====
-- Which errors give the librdkafka code that they carry.
use rust_rdkafka.Prelude.{◌≡◌, refl, ◌≢◌, ◌↔◌, false, Option, none, some, List, [], ◌∷◌}
use rust_rdkafka.Codes.ErrorCode.{ErrorCode}
use rust_rdkafka.Codes.RespErr.{RespErr}
use rust_rdkafka.Codes.Convert.{to_error_code}
use rust_rdkafka.Error.Defs
use rust_rdkafka.Error.Defs.{
  KafkaError, admin_op, admin_op_creation, transaction, RdKafkaError, Source, code_source,
  native_source, rdkafka_error_code, source, is_error,
}
use rust_rdkafka.Error.Text.{Piece, display, debug}

-- The codes that a printed text shows.
abbrev pub shown : List Piece → List ErrorCode
shown [] = []
shown (Piece.code c ∷ ps) = c ∷ shown ps
shown (Piece.native e ∷ ps) = Defs.code e ∷ shown ps
shown (Piece.lit s ∷ ps) = shown ps
shown (Piece.text s ∷ ps) = shown ps
shown (Piece.number n ∷ ps) = shown ps

abbrev pub to_list : Option ErrorCode → List ErrorCode
to_list none = []
to_list (some c) = c ∷ []

-- The code of the error that `source` returns.
abbrev pub source_code : Option Source → Option ErrorCode
source_code none = none
source_code (some (code_source c)) = some c
source_code (some (native_source e)) = some (Defs.code e)

-- For every error but `AdminOp`, the texts of `Display` and `Debug` show exactly the code that
-- `rdkafka_error_code` returns, and `source` returns an error with that code, or none if it is none.
pub rdkafka_error_code-shown :
    (e : KafkaError)
    → ((c : ErrorCode) → e ≢ admin_op c)
    → (shown (display e) ≡ to_list (rdkafka_error_code e))
      × (shown (debug e) ≡ to_list (rdkafka_error_code e))
      × (source_code (source e) ≡ rdkafka_error_code e)
unfolding display debug rdkafka_error_code source
rdkafka_error_code-shown (admin_op c) h = absurd (h c refl)
rdkafka_error_code-shown _ h = (refl, refl, refl)

-- An `AdminOp` error shows its code and does not give it: `rdkafka_error_code` and `source` return
-- none for every code.
pub admin_op_hides_code :
    (c : ErrorCode)
    → (shown (display (admin_op c)) ≡ c ∷ [])
      × (rdkafka_error_code (admin_op c) ≡ none)
      × (source (admin_op c) ≡ none)
unfolding display rdkafka_error_code source
admin_op_hides_code c = (refl, refl, refl)

-- A response code is no error exactly if its `RDKafkaErrorCode` is `NoError`.
pub is_error-to_error_code :
    (e : RespErr) → (is_error e ≡ false) ↔ (to_error_code e ≡ ErrorCode.no_error)
unfolding is_error to_error_code
is_error-to_error_code RespErr.no_error = (λ h. refl, λ h. refl)
is_error-to_error_code _ = (λ h. cc, λ h. cc)
