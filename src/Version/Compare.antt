-- ===== src/Version/Compare.antt =====
-- `CompareVersionStrings` of version/compare.go. A text is the list of its bytes.
use peerswap.Prelude.{
  ℕ, zero, suc, ◌+◌, ◌-◌, ◌*◌, ◌^◌, Bool, true, false, List, [], ◌∷◌, ◌++◌, length, ltb, leb, ◌&&◌,
  if◌then◌else◌,
}
use peerswap.Swap.Error.{Error, Result, ok, err, ◌>>=◌}

-- The digits that a text begins with, and the runs of digits after them.
abbrev pub Runs : Type 0
Runs = List ℕ × List (List ℕ)

abbrev pub with_run : List ℕ → List (List ℕ) → List (List ℕ)
with_run [] rs = rs
with_run (c ∷ zs) rs = (c ∷ zs) ∷ rs

unfoldable pub runs : List ℕ → Runs
runs [] = ([], [])
runs (c ∷ zs) =
    let r = runs zs in if leb b'0' c && leb c b'9' then (c ∷ r.0, r.1) else ([], with_run r.0 r.1)

-- `FindAllString` with the pattern `[0-9]+`.
unfoldable pub find_numbers : List ℕ → List (List ℕ)
unfolding runs
find_numbers text = let r = runs text in with_run r.0 r.1

-- `n` times the part "0" behind a list of parts.
unfoldable pub fill : ℕ → List (List ℕ) → List (List ℕ)
fill zero parts = parts
fill (suc n) parts = fill n (parts ++ (b'0' ∷ []) ∷ [])

abbrev value_from : ℕ → List ℕ → ℕ
value_from n [] = n
value_from n (c ∷ zs) = value_from (n * 10 + (c - b'0')) zs

unfoldable pub value : List ℕ → ℕ
value digits = value_from 0 digits

-- The text of the error that `strconv` adds is left out.
pub malformed : Error
malformed = Error.message "malformed version string v0.2"

-- `strconv.Atoi` of digits: a number beyond 63 bits is an error.
unfoldable pub atoi : List ℕ → Result ℕ
unfolding malformed value
atoi digits = if ltb (value digits) (2 ^ 63) then ok (value digits) else err malformed

-- The two conversions, in step. The lists have the same length.
unfoldable pub numerics : List (List ℕ) → List (List ℕ) → Result (List ℕ × List ℕ)
unfolding atoi
numerics [] ys = ok ([], [])
numerics (a ∷ xs) [] = ok ([], [])
numerics (a ∷ xs) (b ∷ ys) =
    let rest = numerics xs ys in do n ← atoi a; k ← atoi b; more ← rest; ok (n ∷ more.0, k ∷ more.1)

-- The comparison of the entries.
unfoldable pub entries_at_least : List ℕ → List ℕ → Bool
entries_at_least [] ys = true
entries_at_least (a ∷ xs) [] = true
entries_at_least (a ∷ xs) (b ∷ ys) =
    let rest = entries_at_least xs ys in if ltb a b then false else if ltb b a then true else rest

unfoldable pub compare_version_strings : List ℕ → List ℕ → Result Bool
unfolding find_numbers fill numerics entries_at_least
compare_version_strings a b =
    let parts_a = find_numbers a in
    let parts_b = find_numbers b in
    let filled_b = fill (length parts_a - length parts_b) parts_b in
    let filled_a = fill (length parts_b - length parts_a) parts_a in
    do both ← numerics filled_a filled_b; ok (entries_at_least both.0 both.1)
