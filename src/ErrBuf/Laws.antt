-- ===== src/ErrBuf/Laws.antt =====
-- A buffer that holds a zero byte never panics, and its length counts that byte.
use rust_rdkafka.Prelude.{
  ℕ, ◌+◌, ◌≡◌, refl, ◌≢◌, some, List, [], ◌∷◌, ◌++◌, length, All, arith, length-append,
}
use rust_rdkafka.ErrBuf.{ErrBuf, upto_zero, drop_last, len, to_string}

-- librdkafka wrote the text `text` without a zero byte, then a zero byte.
pub record Holds (e : ErrBuf) (text : List ℕ) : Type 0 where
  pub nonzero : All (λ c. c ≢ 0) text
  pub rest : List ℕ
  pub written : e.buf ≡ text ++ 0 ∷ rest

upto_zero-text :
    (text rest : List ℕ)
    → All (λ c. c ≢ 0) text
    → upto_zero (text ++ 0 ∷ rest) ≡ some (text ++ 0 ∷ [])
upto_zero-text [] rest h = refl
upto_zero-text (c ∷ cs) rest h = ground (arith, upto_zero-text cs rest h.1)

drop_last-snoc : (text : List ℕ) → drop_last (text ++ 0 ∷ []) ≡ text
drop_last-snoc [] = refl
drop_last-snoc (c ∷ []) = refl
drop_last-snoc (c ∷ d ∷ cs) = rw (drop_last-snoc (d ∷ cs))

-- A text that librdkafka wrote is read back whole, and `len` is one more than its length: it
-- counts the zero byte, and is never 0.
pub to_string-Holds :
    (e : ErrBuf) (text : List ℕ)
    → Holds e text
    → (to_string e ≡ some text) × (len e ≡ some (length text + 1))
unfolding to_string len
to_string-Holds e text h =
    let found = upto_zero-text text h.rest h.nonzero in
    (
      ground (arith, found, h.written, drop_last-snoc text),
      ground (arith, found, h.written, length-append text (0 ∷ [])),
    )
