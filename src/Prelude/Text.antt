-- ===== src/Prelude/Text.antt =====
-- Texts as librdkafka takes them: C strings.
use Prim.Native.Char.{code}
use Prim.Native.String.{String}
use mathlib.Core.Path.{◌≡◌, refl}
use mathlib.Core.Bool.{Bool, false, ◌||◌}
use native.Mathlib.Omega.{arith}
use Prim.Native.Nat.{ℕ}
use rust_rdkafka.Prelude.Tests.{◌==◌, if◌then◌else◌}

-- Whether the text has the code point `n`.
unfoldable pub codes_contain : ℕ → String → Bool
codes_contain n String.[] = false
codes_contain n (String.◌∷◌ c s) = code c == n || codes_contain n s

-- The text before the first zero: what `CStr::from_ptr` reads of it.
unfoldable pub up_to_zero : String → String
up_to_zero String.[] = String.[]
up_to_zero (String.◌∷◌ c s) =
    let rest = up_to_zero s in if code c == 0 then String.[] else String.◌∷◌ c rest

pub up_to_zero_lem : (s : String) → codes_contain 0 s ≡ false → up_to_zero s ≡ s
unfolding up_to_zero codes_contain
up_to_zero_lem String.[] h = refl
up_to_zero_lem (String.◌∷◌ c s) h = ground (arith, up_to_zero_lem s)
