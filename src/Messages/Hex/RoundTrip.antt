-- ===== src/Messages/Hex/RoundTrip.antt =====
-- Which numbers come back as message types.
use peerswap.Prelude.{
  ℕ, zero, suc, ◌+◌, ◌*◌, ◌/◌, ◌%◌, ◌^◌, ◌<◌, ◌≤◌, ◌≡◌, refl, if_rule, ap, subst, sym, ◌∙◌, false,
  List, [], ◌∷◌, ◌⊎◌, inl, inr, ltb, leb, arith,
}
use peerswap.Prelude.Equality.{◌==◌, nat_eq}
use peerswap.Prelude.Int.{ℤ, pos}
use peerswap.Swap.Hex.{hex_digit}
use peerswap.Swap.Hex.RoundTrip.{hex_value-hex_digit}
use peerswap.Messages.Hex.{
  TypeError, not_peerswap_custom_message, parse_digits, parse_int, format_digits,
  message_type_to_hex_string, match_type, peerswap_custom_message_type,
}

abbrev power : ℕ → ℕ
power zero = 1
power (suc f) = 16 * power f

digit_read :
    (n v : ℕ) (acc : List ℕ)
    → v < 16
    → leb (2 ^ 60) n ≡ false
    → parse_digits n (hex_digit v ∷ acc) ≡ parse_digits (n * 16 + v) acc
unfolding parse_digits
digit_read n v acc h w = ground (arith, hex_value-hex_digit v h)

last_digit :
    (n : ℕ) (acc : List ℕ) → n < 16 → parse_digits 0 (hex_digit (n % 16) ∷ acc) ≡ parse_digits n acc
last_digit n acc h =
    digit_read 0 (n % 16) acc (omega arith) refl ∙ ap (λ v. parse_digits v acc) (omega arith)

inner_digit :
    (n : ℕ) (acc : List ℕ)
    → n < 2 ^ 64
    → parse_digits (n / 16) (hex_digit (n % 16) ∷ acc) ≡ parse_digits n acc
inner_digit n acc h =
    digit_read (n / 16) (n % 16) acc (omega arith) (ground arith)
    ∙ ap (λ v. parse_digits v acc) (omega arith)

parse_digits-format_digits :
    (f n : ℕ) (acc : List ℕ)
    → n < 16 * power f
    → n < 2 ^ 64
    → parse_digits 0 (format_digits (suc f) n acc) ≡ parse_digits n acc
unfolding format_digits
parse_digits-format_digits zero n acc h w =
    if_rule (λ xs. parse_digits 0 xs ≡ parse_digits n acc) (ltb n 16) _ _ (λ t. last_digit n acc h)
      (λ t. last_digit n acc h)
parse_digits-format_digits (suc f) n acc h w =
    if_rule (λ xs. parse_digits 0 xs ≡ parse_digits n acc) (ltb n 16) _ _
      (λ t. last_digit n acc (ground arith))
      (λ t.
        parse_digits-format_digits f (n / 16) (hex_digit (n % 16) ∷ acc) (omega arith) (omega arith)
        ∙ inner_digit n acc w)

-- A printed number starts with a digit.
abbrev StartsWithDigit : List ℕ → Type 0
StartsWithDigit xs = (v : ℕ) × (rest : List ℕ) × (v < 16) × (xs ≡ hex_digit v ∷ rest)

format_digits-StartsWithDigit :
    (f n : ℕ) (acc : List ℕ) → StartsWithDigit (format_digits (suc f) n acc)
unfolding format_digits
format_digits-StartsWithDigit zero n acc =
    if_rule StartsWithDigit (ltb n 16) _ _ (λ t. (n % 16, acc, omega arith, refl))
      (λ t. (n % 16, acc, omega arith, refl))
format_digits-StartsWithDigit (suc f) n acc =
    if_rule StartsWithDigit (ltb n 16) _ _ (λ t. (n % 16, acc, omega arith, refl))
      (λ t. format_digits-StartsWithDigit f (n / 16) (hex_digit (n % 16) ∷ acc))

no_sign : (v : ℕ) → v < 16 → ((hex_digit v == b'+') ≡ false) × ((hex_digit v == b'-') ≡ false)
unfolding hex_digit
no_sign v h = (ground arith, ground arith)

unsigned :
    (c : ℕ) (cs : List ℕ) (n : ℕ)
    → (c == b'+') ≡ false
    → (c == b'-') ≡ false
    → parse_digits 0 (c ∷ cs) ≡ inr n
    → n < 2 ^ 63
    → parse_int (c ∷ cs) ≡ inr (pos n)
unfolding parse_int
unsigned c cs n plus minus p w = ground arith

parse_int-message_type_to_hex_string :
    (n : ℕ) → n < 2 ^ 63 → parse_int (message_type_to_hex_string (pos n)) ≡ inr (pos n)
unfolding message_type_to_hex_string parse_digits
parse_int-message_type_to_hex_string n h =
    let (v, rest, small, is) = format_digits-StartsWithDigit 15 n [] in
    let (plus, minus) = no_sign v small in
    let parsed = parse_digits-format_digits 15 n [] (omega arith) (omega arith) in
    subst (λ xs. parse_int xs ≡ inr (pos n)) (sym is)
      (unsigned (hex_digit v) rest n plus minus (subst (λ xs. parse_digits 0 xs ≡ inr n) is parsed)
        h)

-- The numbers of the messages: the odd ones in their range.
abbrev pub IsMessageType : ℕ → Type 0
IsMessageType n = (42069 ≤ n) × (n ≤ 42085) × (n % 2 ≡ 1)

-- A message type is found; another number is not.
abbrev pub Matches : ℕ → TypeError ⊎ ℤ → Type 0
Matches n r =
    (IsMessageType n × (r ≡ inr (pos n)))
    ⊎ ((¬ IsMessageType n) × (r ≡ inl not_peerswap_custom_message))

match_type-Matches : (n : ℕ) → Matches n (match_type n)
unfolding match_type
match_type-Matches n = ground arith

-- The text of a number of 63 bits is read as that number if it is one of the message types, the odd
-- numbers from 42069 to 42085, and is refused as no message of peerswap if it is not.
pub peerswap_custom_message_type-Matches :
    (n : ℕ)
    → n < 2 ^ 63
    → Matches n (peerswap_custom_message_type (message_type_to_hex_string (pos n)))
unfolding peerswap_custom_message_type
peerswap_custom_message_type-Matches n h =
    let read = parse_int-message_type_to_hex_string n h in
    subst (Matches n) (sym (ground arith)) (match_type-Matches n)
