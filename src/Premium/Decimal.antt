-- ===== src/Premium/Decimal.antt =====
-- How a rate is written and read (premium/store.go): `Appendf` and `Sscanf` with `%d`, on the bytes of a
-- text.
pub mod RoundTrip
use peerswap.Prelude.{
  ℕ, zero, suc, ◌+◌, ◌-◌, ◌*◌, ◌/◌, ◌%◌, ◌^◌, Bool, true, false, List, [], ◌∷◌, ltb, leb, ◌&&◌,
  ◌||◌, if◌then◌else◌,
}
use peerswap.Prelude.Equality.{◌==◌, nat_eq}
use peerswap.Prelude.Int.{ℤ, pos, negsuc}
use peerswap.Swap.Error.{Error, Result, ok, err}

-- The digits of a number before other bytes: as many as the fuel, of which 20 are enough for 64 bits.
unfoldable pub decimal_digits : ℕ → ℕ → List ℕ → List ℕ
decimal_digits zero n rest = rest
decimal_digits (suc f) n rest =
    let here = (b'0' + n % 10) ∷ rest in
    let more = decimal_digits f (n / 10) here in if ltb n 10 then here else more

-- `%d` of a signed number of 64 bits.
unfoldable pub write_number : ℤ → List ℕ
unfolding decimal_digits
write_number (pos n) = decimal_digits 20 n []
write_number (negsuc n) = b'-' ∷ decimal_digits 20 (suc n) []

abbrev pub is_digit : ℕ → Bool
is_digit c = leb b'0' c && leb c b'9'

-- The digits that a text begins with.
unfoldable pub leading : List ℕ → List ℕ
leading [] = []
leading (c ∷ cs) = let rest = leading cs in if is_digit c then c ∷ rest else []

abbrev pub number : ℕ → List ℕ → ℕ
number n [] = n
number n (c ∷ cs) = number (n * 10 + (c - b'0')) cs

abbrev out_of_range : Error
out_of_range = Error.message "value out of range"

-- A number with or without a minus sign, if it fits into 64 bits.
abbrev pub bounded : Bool → ℕ → Result ℤ
bounded false n = if ltb n (2 ^ 63) then ok (pos n) else err out_of_range
bounded true zero = ok (pos 0)
bounded true (suc n) = if ltb n (2 ^ 63) then ok (negsuc n) else err out_of_range

abbrev pub some_digits : Bool → List ℕ → Result ℤ
some_digits minus [] = err (Error.message "expected integer")
some_digits minus (c ∷ cs) = bounded minus (number 0 (c ∷ cs))

-- White space of ASCII; a line end is not skipped.
abbrev pub is_blank : ℕ → Bool
is_blank c = c == 9 || c == 11 || c == 12 || c == 13 || c == 32

unfoldable pub skip_blanks : List ℕ → List ℕ
skip_blanks [] = []
skip_blanks (c ∷ cs) = let rest = skip_blanks cs in if is_blank c then rest else c ∷ cs

unfoldable pub signed_number : List ℕ → Result ℤ
unfolding leading
signed_number [] = err (Error.message "unexpected EOF")
signed_number (c ∷ cs) =
    if c == b'-'
    then some_digits true (leading cs)
    else if c == b'+'
    then some_digits false (leading cs)
    else some_digits false (leading (c ∷ cs))

-- `Sscanf` with `%d`: what stands behind the digits is left.
unfoldable pub read_number : List ℕ → Result ℤ
unfolding skip_blanks signed_number
read_number text = signed_number (skip_blanks text)
