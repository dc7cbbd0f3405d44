-- ===== src/Premium/Decimal/RoundTrip.antt =====
-- A number that is written is read again.
use peerswap.Prelude.{
  ℕ, zero, suc, ◌+◌, ◌-◌, ◌*◌, ◌/◌, ◌%◌, ◌^◌, ◌<◌, ◌≡◌, refl, sym, ap, ◌∙◌, true, false, List, [],
  ◌∷◌, ltb, All, arith, if_rule, subst,
}
use peerswap.Prelude.Equality.{◌==◌, nat_eq}
use peerswap.Prelude.Int.{ℤ, pos, negsuc}
use peerswap.Swap.Error.{ok}
use peerswap.Premium.Decimal.{
  decimal_digits, write_number, is_digit, leading, number, bounded, is_blank, skip_blanks,
  signed_number, read_number,
}

-- A signed number of 64 bits.
abbrev pub IsInt64 : ℤ → Type 0
IsInt64 (pos n) = n < 2 ^ 63
IsInt64 (negsuc n) = n < 2 ^ 63

last_digit : (n : ℕ) (rest : List ℕ) → number (n / 10) ((b'0' + n % 10) ∷ rest) ≡ number n rest
last_digit n rest =
    let same : n / 10 * 10 + (b'0' + n % 10 - b'0') ≡ n = omega arith in
    ap (λ k. number k rest) same

ten_times : (f : ℕ) → 10 ^ suc (suc f) ≡ 10 ^ suc f * 10
ten_times f = grind arith

-- The digits of a number give it back.
number-decimal_digits :
    (f n : ℕ) (rest : List ℕ)
    → n < 10 ^ suc f
    → number 0 (decimal_digits (suc f) n rest) ≡ number n rest
unfolding decimal_digits
number-decimal_digits zero n rest h =
    let small : ltb n 10 ≡ true = ground arith in
    let none_before : n / 10 ≡ 0 = ground arith in
    let one : number 0 ((b'0' + n % 10) ∷ rest) ≡ number n rest =
      subst (λ k. number k ((b'0' + n % 10) ∷ rest) ≡ number n rest) none_before
        (last_digit n rest) in
    if_rule {A = List ℕ} (λ xs. number 0 xs ≡ number n rest) (ltb n 10) _ _ (λ _. one) (λ _. one)
number-decimal_digits (suc f) n rest h =
    let less : n / 10 < 10 ^ suc f = omega (arith, ten_times f) in
    if_rule {A = List ℕ} (λ xs. number 0 xs ≡ number n rest) (ltb n 10) _ _
      (λ small.
        let none_before : n / 10 ≡ 0 = ground arith in
        subst (λ k. number k ((b'0' + n % 10) ∷ rest) ≡ number n rest) none_before
          (last_digit n rest))
      (λ large. number-decimal_digits f (n / 10) ((b'0' + n % 10) ∷ rest) less ∙ last_digit n rest)

-- They are digits, and at least one.
record AreDigits (text : List ℕ) : Type 0 where
  first : ℕ
  others : List ℕ
  is : text ≡ first ∷ others
  all : All (λ c. is_digit c ≡ true) text

digit-is_digit : (n : ℕ) → is_digit (b'0' + n % 10) ≡ true
digit-is_digit n = ground arith

decimal_digits-AreDigits :
    (f n c : ℕ) (rest : List ℕ)
    → is_digit c ≡ true
    → All (λ c. is_digit c ≡ true) rest
    → AreDigits (decimal_digits f n (c ∷ rest))
unfolding decimal_digits
decimal_digits-AreDigits zero n c rest d h = record {
  first = c;
  others = rest;
  is = refl;
  all = (d, h);
}
decimal_digits-AreDigits (suc f) n c rest d h =
    let here = digit-is_digit n in
    if_rule AreDigits (ltb n 10) _ _
      (λ _. record { first = b'0' + n % 10; others = c ∷ rest; is = refl; all = (here, (d, h)) })
      (λ _. decimal_digits-AreDigits f (n / 10) (b'0' + n % 10) (c ∷ rest) here (d, h))

leading-all : (text : List ℕ) → All (λ c. is_digit c ≡ true) text → leading text ≡ text
unfolding leading
leading-all [] h = refl
leading-all (c ∷ cs) (d, h) = rw (d, leading-all cs h)

written-AreDigits : (n : ℕ) → AreDigits (decimal_digits 20 n [])
unfolding decimal_digits
written-AreDigits n =
    let here = digit-is_digit n in
    if_rule AreDigits (ltb n 10) _ _
      (λ _. record { first = b'0' + n % 10; others = []; is = refl; all = (here, tt) })
      (λ _. decimal_digits-AreDigits 19 (n / 10) (b'0' + n % 10) [] here tt)

-- What begins with a digit has neither a blank nor a sign there.
digit_plain :
    (c : ℕ)
    → is_digit c ≡ true
    → (is_blank c ≡ false) × ((c == b'-') ≡ false) × ((c == b'+') ≡ false)
digit_plain c h = (ground arith, ground arith, ground arith)

skip_blanks_digit : (c : ℕ) (cs : List ℕ) → is_digit c ≡ true → skip_blanks (c ∷ cs) ≡ c ∷ cs
unfolding skip_blanks
skip_blanks_digit c cs h = let (plain, dash, plus) = digit_plain c h in rw plain

signed_number_digits :
    (c : ℕ) (cs : List ℕ)
    → All (λ d. is_digit d ≡ true) (c ∷ cs)
    → signed_number (c ∷ cs) ≡ bounded false (number 0 (c ∷ cs))
unfolding signed_number
signed_number_digits c cs (d, h) =
    let (plain, dash, plus) = digit_plain c d in rw (dash, plus, leading-all (c ∷ cs) (d, h))

minus_digits :
    (c : ℕ) (cs : List ℕ)
    → All (λ d. is_digit d ≡ true) (c ∷ cs)
    → read_number (b'-' ∷ c ∷ cs) ≡ bounded true (number 0 (c ∷ cs))
unfolding read_number
minus_digits c cs h = rw (leading-all (c ∷ cs) h)

plain_digits :
    (text : List ℕ) (n : ℕ)
    → AreDigits text
    → number 0 text ≡ n
    → (read_number text ≡ bounded false n) × (read_number (b'-' ∷ text) ≡ bounded true n)
unfolding read_number
plain_digits text n a value =
    let whole = subst (All (λ c. is_digit c ≡ true)) a.is a.all in
    subst
      (λ t.
        (number 0 t ≡ n)
        → (read_number t ≡ bounded false n) × (read_number (b'-' ∷ t) ≡ bounded true n))
      (sym a.is)
      (λ v. (
        ap signed_number (skip_blanks_digit a.first a.others whole.0)
            ∙ signed_number_digits a.first a.others whole
            ∙ ap (bounded false) v,
        minus_digits a.first a.others whole ∙ ap (bounded true) v,
      ))
      value

-- A number of 64 bits that was written is read again.
pub read_number-write_number : (v : ℤ) → IsInt64 v → read_number (write_number v) ≡ ok v
unfolding write_number
read_number-write_number (pos n) h =
    let value : number 0 (decimal_digits 20 n []) ≡ n =
      number-decimal_digits 19 n [] (omega arith) in
    let less : ltb n (2 ^ 63) ≡ true = ground arith in
    (plain_digits (decimal_digits 20 n []) n (written-AreDigits n) value).0 ∙ rw less
read_number-write_number (negsuc n) h =
    let value : number 0 (decimal_digits 20 (suc n) []) ≡ suc n =
      number-decimal_digits 19 (suc n) [] (omega arith) in
    let less : ltb n (2 ^ 63) ≡ true = ground arith in
    (plain_digits (decimal_digits 20 (suc n) []) (suc n) (written-AreDigits (suc n)) value).1
    ∙ rw less
