-- ===== src/Tests/Texts.antt =====
-- The theorems on ids and texts, on concrete ones.
use peerswap.Prelude.{◌≡◌, refl, inl, List, [], ◌∷◌, arith, ℕ}
use peerswap.Prelude.Int.{pos}
use peerswap.Messages.Hex.{
  malformed, parse_int, message_type_to_hex_string, peerswap_custom_message_type,
}
use peerswap.Messages.Hex.RoundTrip.{Matches, peerswap_custom_message_type-Matches}
use peerswap.Swap.Error.{ok}
use peerswap.Swap.Hex.{hex_value, hex_digit, swap_id_to_string, parse_swap_id}
use peerswap.Swap.Hex.RoundTrip.{parse_swap_id-swap_id_to_string}
use peerswap.Swap.Scid.{validate_scid, atoi, contains}
use peerswap.Swap.Scid.Parts.{join_three, verdict, validate_scid_third_only}

abbrev eight : List ℕ → List ℕ
eight rest = 0 ∷ 17 ∷ 34 ∷ 127 ∷ 128 ∷ 200 ∷ 254 ∷ 255 ∷ rest

abbrev id : List ℕ
id = eight (eight (eight (eight [])))

parse_swap_id-swap_id_to_string_example : parse_swap_id (swap_id_to_string id) ≡ ok id
parse_swap_id-swap_id_to_string_example = parse_swap_id-swap_id_to_string id (ground arith) refl

-- `axbx1` and `a:b:1`.
validate_scid_third_only_example :
    (validate_scid (join_three b'x' (b'a' ∷ []) (b'b' ∷ []) (b'1' ∷ []))
      ≡ verdict (atoi (b'1' ∷ [])))
    × (validate_scid (join_three b':' (b'a' ∷ []) (b'b' ∷ []) (b'1' ∷ []))
        ≡ verdict (atoi (b'1' ∷ [])))
unfolding contains
validate_scid_third_only_example =
    validate_scid_third_only (b'a' ∷ []) (b'b' ∷ []) (b'1' ∷ []) (refl, refl) (refl, refl)
      (refl, refl)

-- The text of 42069.
a455 : message_type_to_hex_string (pos 42069) ≡ b'a' ∷ b'4' ∷ b'5' ∷ b'5' ∷ []
unfolding message_type_to_hex_string hex_digit
a455 = refl

-- 2 ^ 63 is out of range.
too_large :
    parse_int (b'8' ∷ 48 ∷ 48 ∷ 48 ∷ 48 ∷ 48 ∷ 48 ∷ 48 ∷ 48 ∷ 48 ∷ 48 ∷ 48 ∷ 48 ∷ 48 ∷ 48 ∷ 48 ∷ [])
    ≡ inl malformed
unfolding parse_int hex_value
too_large = refl

peerswap_custom_message_type-Matches_example :
    Matches 42071 (peerswap_custom_message_type (message_type_to_hex_string (pos 42071)))
peerswap_custom_message_type-Matches_example =
    peerswap_custom_message_type-Matches 42071 (omega arith)
