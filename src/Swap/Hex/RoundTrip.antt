-- ===== src/Swap/Hex/RoundTrip.antt =====
-- Swap ids survive printing and parsing.
use peerswap.Prelude.{ℕ, ◌/◌, ◌%◌, ◌<◌, ◌≡◌, refl, List, [], ◌∷◌, some, arith, length, All}
use peerswap.Swap.Error.{ok}
use peerswap.Swap.Hex.{
  hex_value, hex_digit, hex_decode, hex_encode, swap_id_to_string, parse_swap_id,
}

pub hex_value-hex_digit : (v : ℕ) → v < 16 → hex_value (hex_digit v) ≡ some v
unfolding hex_value hex_digit
hex_value-hex_digit v h = ground arith

abbrev pub IsBytes : List ℕ → Type 0
IsBytes = All (λ b. b < 256)

hex_decode-hex_encode : (bytes : List ℕ) → IsBytes bytes → hex_decode (hex_encode bytes) ≡ ok bytes
unfolding hex_decode hex_encode
hex_decode-hex_encode [] h = refl
hex_decode-hex_encode (b ∷ rest) h = ground (
  arith,
  hex_value-hex_digit (b / 16),
  hex_value-hex_digit (b % 16),
  hex_decode-hex_encode rest h.1,
)

-- The text of a swap id of 32 bytes parses back to those bytes.
pub parse_swap_id-swap_id_to_string :
    (id : List ℕ) → IsBytes id → length id ≡ 32 → parse_swap_id (swap_id_to_string id) ≡ ok id
unfolding parse_swap_id swap_id_to_string
parse_swap_id-swap_id_to_string id h n = ground (arith, hex_decode-hex_encode id h)
