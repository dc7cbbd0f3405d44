-- ===== src/Swap/Hex.antt =====
-- Hexadecimal texts (`encoding/hex`) as the swap package uses them, and the swap id of
-- swap/swap.go. A text is the list of its bytes.
pub mod RoundTrip
use peerswap.Prelude.{
  ℕ, ◌+◌, ◌-◌, ◌*◌, ◌/◌, ◌%◌, ◌&&◌, List, [], ◌∷◌, Option, none, some, length, ltb, leb,
  if◌then◌else◌,
}
use peerswap.Prelude.Equality.{◌==◌, nat_eq}
use peerswap.Prelude.Text.{String, codes}
use peerswap.Swap.Error.{Error, Result, ok, err, ◌>>=◌}

-- The value of a hexadecimal digit, in either case.
unfoldable pub hex_value : ℕ → Option ℕ
hex_value c =
    if leb b'0' c && leb c b'9'
    then some (c - b'0')
    else if leb b'a' c && leb c b'f'
    then some (c - b'a' + 10)
    else if leb b'A' c && leb c b'F'
    then some (c - b'A' + 10)
    else none

abbrev digit_of : ℕ → Result ℕ
digit_of c = elim (hex_value c) [ none ↦ err (Error.invalid_byte c) | some v ↦ ok v ]

-- `hex.DecodeString`: an odd length is reported after the bytes are looked at.
unfoldable pub hex_decode : List ℕ → Result (List ℕ)
hex_decode [] = ok []
hex_decode (c ∷ []) = do hi ← digit_of c; err Error.odd_length
hex_decode (c ∷ d ∷ rest) =
    let tail = hex_decode rest in
    do hi ← digit_of c; lo ← digit_of d; bytes ← tail; ok ((hi * 16 + lo) ∷ bytes)

unfoldable pub hex_digit : ℕ → ℕ
hex_digit v = if ltb v 10 then b'0' + v else b'a' + (v - 10)

-- `hex.EncodeToString`.
unfoldable pub hex_encode : List ℕ → List ℕ
hex_encode [] = []
hex_encode (b ∷ rest) = hex_digit (b / 16) ∷ hex_digit (b % 16) ∷ hex_encode rest

-- `SwapId.String`, and `ParseSwapIdFromString` (which `FromString` repeats).
pub swap_id_to_string : List ℕ → List ℕ
swap_id_to_string id = hex_encode id

pub parse_swap_id : List ℕ → Result (List ℕ)
parse_swap_id str = do
  bytes ← hex_decode str
  if length bytes == 32
      then ok bytes
      else err (Error.message "can not decode string: invalid length")
