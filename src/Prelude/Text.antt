-- ===== src/Prelude/Text.antt =====
-- Texts: their code points, concatenation, and numbers in decimal.
use Prim.Native.Char.{code}
use Prim.Native.String.{◌++◌ as append}
use peerswap.Prelude.{ℕ, zero, suc, ◌/◌, ◌%◌, ◌≡◌, refl, List, [], ◌∷◌, ltb, if◌then◌else◌}
use peerswap.Prelude.Int.{ℤ, pos, negsuc}
pub use Prim.Native.String.{String}

-- The code points of a text: its bytes, if it is ASCII.
abbrev pub codes : String → List ℕ
codes String.[] = []
codes (String.◌∷◌ c s) = code c ∷ codes s

pub concat : List String → String
concat [] = ""
concat (s ∷ rest) = append s (concat rest)

digit : ℕ → String
digit zero = "0"
digit (suc zero) = "1"
digit (suc (suc zero)) = "2"
digit (suc (suc (suc zero))) = "3"
digit (suc (suc (suc (suc zero)))) = "4"
digit (suc (suc (suc (suc (suc zero))))) = "5"
digit (suc (suc (suc (suc (suc (suc zero)))))) = "6"
digit (suc (suc (suc (suc (suc (suc (suc zero))))))) = "7"
digit (suc (suc (suc (suc (suc (suc (suc (suc zero)))))))) = "8"
digit _ = "9"

decimal_fuel : ℕ → ℕ → String → String
unfolding digit
decimal_fuel zero n acc = acc
decimal_fuel (suc f) n acc =
    let here = append (digit (n % 10)) acc in
    let more = decimal_fuel f (n / 10) here in if ltb n 10 then here else more

-- `%d` of an unsigned number: 20 digits hold every 64-bit value.
pub decimal : ℕ → String
unfolding decimal_fuel
decimal n = decimal_fuel 20 n ""

-- `%d` of a signed number.
pub signed_decimal : ℤ → String
unfolding decimal concat
signed_decimal (pos n) = decimal n
signed_decimal (negsuc n) = append "-" (decimal (suc n))

decimal_runs : decimal 18446744073709551615 ≡ "18446744073709551615"
unfolding decimal
decimal_runs = refl

text_at : ℕ → List String → String
text_at n [] = ""
text_at zero (s ∷ rest) = s
text_at (suc n) (s ∷ rest) = text_at n rest

-- A hexadecimal digit.
pub hex_text : ℕ → String
unfolding text_at
hex_text v = text_at v (
    "0" ∷ "1" ∷ "2" ∷ "3" ∷ "4" ∷ "5" ∷ "6" ∷ "7" ∷ "8" ∷ "9" ∷ "a" ∷ "b" ∷ "c" ∷ "d" ∷ "e" ∷ "f"
    ∷ [])
