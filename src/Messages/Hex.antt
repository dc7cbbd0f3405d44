-- ===== src/Messages/Hex.antt =====
-- Message types as hexadecimal texts (messages/types.go), with what the code uses of `strconv` to
-- base 16. A text is the list of its bytes.
pub mod RoundTrip
use peerswap.Prelude.{
  ℕ, zero, suc, ◌+◌, ◌*◌, ◌/◌, ◌%◌, ◌^◌, Bool, true, false, ◌&&◌, ◌||◌, List, [], ◌∷◌, Option, none,
  some, ◌⊎◌, inl, inr, ltb, leb, if◌then◌else◌,
}
use peerswap.Prelude.Equality.{◌==◌, nat_eq}
use peerswap.Prelude.Int.{ℤ, pos, negsuc}
use peerswap.Swap.Hex.{hex_value, hex_digit}
use peerswap.Messages.{
  messagetype_swapinrequest, messagetype_swapoutrequest, messagetype_swapinagreement,
  messagetype_swapoutagreement, messagetype_openingtxbroadcasted, messagetype_canceled,
  messagetype_coopclose, messagetype_poll, messagetype_request_poll,
}

-- What is wrong with a text: it is no number, or not the number of a message. The texts of the
-- errors are not kept.
pub data TypeError : Type 0 where
  malformed not_peerswap_custom_message : TypeError

-- The digits after a number that was read already, in an unsigned word of 64 bits.
unfoldable pub parse_digits : ℕ → List ℕ → TypeError ⊎ ℕ
parse_digits n [] = inr n
parse_digits n (c ∷ cs) = elim (hex_value c) [
  | none ↦ inl malformed
  | some v ↦
      let rest = parse_digits (n * 16 + v) cs in if leb (2 ^ 60) n then inl malformed else rest
]

-- `strconv.ParseUint` to base 16.
abbrev pub parse_uint : List ℕ → TypeError ⊎ ℕ
parse_uint [] = inl malformed
parse_uint (c ∷ cs) = parse_digits 0 (c ∷ cs)

abbrev pub negative : ℕ → ℤ
negative zero = pos 0
negative (suc n) = negsuc n

-- `strconv.ParseInt` to base 16, for 64 bits.
unfoldable pub parse_int : List ℕ → TypeError ⊎ ℤ
unfolding parse_digits
parse_int [] = inl malformed
parse_int (c ∷ cs) =
    let unsigned = parse_uint (if c == b'+' || c == b'-' then cs else c ∷ cs) in
    elim unsigned [
      | inl e ↦ inl e
      | inr n ↦
          if c == b'-'
          then if ltb (2 ^ 63) n then inl malformed else inr (negative n)
          else if leb (2 ^ 63) n
          then inl malformed
          else inr (pos n)
    ]

-- The digits of a number before others.
unfoldable pub format_digits : ℕ → ℕ → List ℕ → List ℕ
format_digits zero n acc = acc
format_digits (suc f) n acc =
    let here = hex_digit (n % 16) ∷ acc in
    let more = format_digits f (n / 16) here in if ltb n 16 then here else more

-- `MessageTypeToHexString`: 16 digits hold every 64-bit number.
unfoldable pub message_type_to_hex_string : ℤ → List ℕ
unfolding format_digits
message_type_to_hex_string (pos n) = format_digits 16 n []
message_type_to_hex_string (negsuc n) = b'-' ∷ format_digits 16 (suc n) []

-- The switch of `PeerswapCustomMessageType`.
unfoldable pub match_type : ℕ → TypeError ⊎ ℤ
match_type n =
    if n == messagetype_swapinrequest
    then inr (pos messagetype_swapinrequest)
    else if n == messagetype_swapoutrequest
    then inr (pos messagetype_swapoutrequest)
    else if n == messagetype_swapinagreement
    then inr (pos messagetype_swapinagreement)
    else if n == messagetype_swapoutagreement
    then inr (pos messagetype_swapoutagreement)
    else if n == messagetype_openingtxbroadcasted
    then inr (pos messagetype_openingtxbroadcasted)
    else if n == messagetype_canceled
    then inr (pos messagetype_canceled)
    else if n == messagetype_coopclose
    then inr (pos messagetype_coopclose)
    else if n == messagetype_poll
    then inr (pos messagetype_poll)
    else if n == messagetype_request_poll
    then inr (pos messagetype_request_poll)
    else inl not_peerswap_custom_message

unfoldable pub peerswap_custom_message_type : List ℕ → TypeError ⊎ ℤ
unfolding parse_int match_type
peerswap_custom_message_type msg_type = elim (parse_int msg_type) [
  | inl e ↦ inl e
  | inr (pos n) ↦ match_type n
  | inr (negsuc n) ↦ inl not_peerswap_custom_message
]
