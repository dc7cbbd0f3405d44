-- ===== src/Swap/Scid.antt =====
-- Short channel ids: `validateScid` of swap/messages.go, over the bytes of the text, with what it
-- uses of `strings` and `strconv`.
pub mod Parts
use peerswap.Prelude.{
  ℕ, zero, suc, ◌+◌, ◌-◌, ◌*◌, ◌^◌, ◌&&◌, ◌||◌, not, Bool, true, false, List, [], ◌∷◌, Option, none,
  some, length, ltb, leb, if◌then◌else◌,
}
use peerswap.Prelude.Equality.{◌==◌, nat_eq}
use peerswap.Prelude.Int.{ℤ, pos, negsuc}
use peerswap.Prelude.Words.{neg, i64_max}
use peerswap.Swap.Error.{Error, Result, ok, err}

-- `strings.Contains` for one byte.
unfoldable pub contains : ℕ → List ℕ → Bool
contains c [] = false
contains c (x ∷ xs) = x == c || contains c xs

abbrev pub cons_head : ℕ → List (List ℕ) → List (List ℕ)
cons_head x [] = (x ∷ []) ∷ []
cons_head x (p ∷ ps) = (x ∷ p) ∷ ps

-- `strings.Split` for one byte.
pub split : ℕ → List ℕ → List (List ℕ)
split c [] = [] ∷ []
split c (x ∷ xs) = let rest = split c xs in if x == c then [] ∷ rest else cons_head x rest

pub digits : ℕ → List ℕ → Option ℕ
digits acc [] = some acc
digits acc (c ∷ cs) =
    let rest = digits (acc * 10 + (c - b'0')) cs in if leb b'0' c && leb c b'9' then rest else none

abbrev unsigned : List ℕ → Option ℕ
unsigned [] = none
unsigned (c ∷ cs) = digits 0 (c ∷ cs)

abbrev in_range : ℕ → Option ℕ → Option ℕ
in_range limit none = none
in_range limit (some n) = if leb n limit then some n else none

-- `strconv.Atoi` on a 64-bit machine: an optional sign, digits, and the range of `int64`.
pub atoi : List ℕ → Option ℤ
unfolding digits
atoi [] = none
atoi (c ∷ cs) =
    if c == b'-'
    then elim (in_range (i64_max + 1) (unsigned cs)) [ none ↦ none | some n ↦ some (neg n) ]
    else elim (in_range i64_max (unsigned (if c == b'+' then cs else c ∷ cs))) [
      | none ↦ none
      | some n ↦ some (pos n)
    ]

-- Each `Atoi` overwrites the error of the one before: the third alone is tested.
check_parts : List (List ℕ) → Result (Unit {0})
check_parts (a ∷ b ∷ c ∷ []) = elim (atoi c) [ none ↦ err Error.invalid_scid | some n ↦ ok tt ]
check_parts _ = err Error.invalid_scid

pub validate_scid : List ℕ → Result (Unit {0})
unfolding check_parts
validate_scid scid =
    if contains b'x' scid
    then check_parts (split b'x' scid)
    else if contains b':' scid
    then check_parts (split b':' scid)
    else err Error.invalid_scid
