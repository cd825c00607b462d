-- ===== src/ErrBuf.antt =====
-- `ErrBuf` of util.rs: the 512 bytes that librdkafka writes an error text into, up to a zero byte.
-- `none` is the panic of an `unwrap`.
pub mod Laws
use rust_rdkafka.Prelude.{
  ℕ, zero, suc, ◌+◌, Option, none, some, List, [], ◌∷◌, length, ◌==◌, if◌then◌else◌,
}

pub record ErrBuf : Type 0 where
  pub buf : List ℕ

abbrev pub max_err_len : ℕ
max_err_len = 512

abbrev pub replicate : ℕ → ℕ → List ℕ
replicate zero x = []
replicate (suc n) x = x ∷ replicate n x

unfoldable pub new : ErrBuf
new = record { buf = replicate max_err_len 0 }

-- `&buf[..i + 1]` where `i` is the position of the first zero byte.
abbrev upto_zero : List ℕ → Option (List ℕ)
upto_zero [] = none
upto_zero (c ∷ cs) =
    let rest = upto_zero cs in
    if c == 0 then some (c ∷ []) else elim rest [ none ↦ none | some r ↦ some (c ∷ r) ]

unfoldable pub filled : ErrBuf → Option (List ℕ)
filled e = upto_zero e.buf

unfoldable pub len : ErrBuf → Option ℕ
unfolding filled
len e = elim (filled e) [ none ↦ none | some bytes ↦ some (length bytes) ]

unfoldable pub capacity : ErrBuf → ℕ
capacity e = length e.buf

-- `CStr::from_bytes_with_nul`: the bytes before the last, which is the only zero.
abbrev drop_last : List ℕ → List ℕ
drop_last [] = []
drop_last (c ∷ []) = []
drop_last (c ∷ d ∷ cs) = c ∷ drop_last (d ∷ cs)

-- `Display`: the bytes of the text.
unfoldable pub to_string : ErrBuf → Option (List ℕ)
unfolding filled
to_string e = elim (filled e) [ none ↦ none | some bytes ↦ some (drop_last bytes) ]
