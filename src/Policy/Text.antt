-- ===== src/Policy/Text.antt =====
-- The text of the policy file, as policy/policy.go reads and writes it: lines as `bufio.Scanner`
-- gives them, a line more at the end, and a line taken out. A text is the list of its bytes.
pub mod Lines
use peerswap.Prelude.{
  ℕ, Bool, true, false, List, [], ◌∷◌, ◌++◌, map, length, leb, ◌&&◌, if◌then◌else◌,
}
use peerswap.Prelude.Equality.{◌==◌, nat_eq, list_eq}

-- The lines that end, and what stands after the last line end.
abbrev pub Split : Type 0
Split = List (List ℕ) × List ℕ

-- A byte before a split text that is no line end.
abbrev pub before : ℕ → Split → Split
before c ([], rest) = ([], c ∷ rest)
before c (l ∷ ls, rest) = ((c ∷ l) ∷ ls, rest)

unfoldable pub split : List ℕ → Split
split [] = ([], [])
split (c ∷ cs) = let s = split cs in if c == b'\n' then ([] ∷ s.0, s.1) else before c s

-- A carriage return at the end of a line is dropped.
unfoldable pub drop_cr : List ℕ → List ℕ
drop_cr [] = []
drop_cr (c ∷ []) = if c == b'\r' then [] else c ∷ []
drop_cr (c ∷ d ∷ cs) = c ∷ drop_cr (d ∷ cs)

abbrev pub last_line : List ℕ → List (List ℕ)
last_line [] = []
last_line (c ∷ cs) = drop_cr (c ∷ cs) ∷ []

-- `bufio.ScanLines`: an unfinished line at the end counts if it is not empty.
unfoldable pub scan_lines : List ℕ → List (List ℕ)
unfolding split
scan_lines text = let s = split text in map drop_cr s.0 ++ last_line s.1

-- The lines that are not the given one.
unfoldable pub without : List ℕ → List (List ℕ) → List (List ℕ)
without line [] = []
without line (l ∷ ls) = let rest = without line ls in if l == line then rest else l ∷ rest

abbrev pub unlines : List (List ℕ) → List ℕ
unlines [] = []
unlines (l ∷ ls) = l ++ b'\n' ∷ unlines ls

-- What `removeLineFromFile` writes.
unfoldable pub remove_line : List ℕ → List ℕ → List ℕ
unfolding scan_lines without
remove_line line text = unlines (without line (scan_lines text))

-- What `addLineToFile` appends to.
unfoldable pub add_line : List ℕ → List ℕ → List ℕ
add_line line text = text ++ (line ++ b'\n' ∷ [])

-- The pattern `^[0-9a-f]{66}?\z`.
abbrev pub is_lower_hex : List ℕ → Bool
is_lower_hex [] = true
is_lower_hex (c ∷ cs) =
    let rest = is_lower_hex cs in
    (if leb b'0' c && leb c b'9' then true else leb b'a' c && leb c b'f') && rest

unfoldable pub matches_pubkey : List ℕ → Bool
matches_pubkey text = (length text == 66) && is_lower_hex text
