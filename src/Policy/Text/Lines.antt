-- ===== src/Policy/Text/Lines.antt =====
-- What adding and removing a line does to the lines of a text.
use peerswap.Prelude.{
  ℕ, ◌≡◌, ◌≢◌, refl, sym, ◌∙◌, false, List, [], ◌∷◌, ◌++◌, map, All, arith, if◌then◌else◌,
  Bool-cases, subst, if_rule, inl, inr,
}
use peerswap.Prelude.Equality.{◌==◌, nat_eq, list_eq}
use mathlib.Core.List.{map-append, append-nil}
use peerswap.Policy.Text.{
  Split, before, split, drop_cr, last_line, scan_lines, without, unlines, remove_line, add_line,
}

-- A byte that ends no line, and is not dropped at the end of one.
abbrev pub IsPlain : ℕ → Type 0
IsPlain c = (c ≢ b'\n') × (c ≢ b'\r')

-- A text without a carriage return.
abbrev pub HasNoCr : List ℕ → Type 0
HasNoCr text = All (λ c. c ≢ b'\r') text

-- Two texts one after the other, the first ending with a line end or empty.
abbrev joined : Split → Split → Split
joined s t = (s.0 ++ t.0, t.1)

before-joined :
    (c : ℕ) (s t : Split) → (before c s).1 ≡ [] → before c (joined s t) ≡ joined (before c s) t
before-joined c ([], r) t h = ground arith
before-joined c (l ∷ ls, r) t h = refl

before-rest : (c : ℕ) (s : Split) → (before c s).1 ≡ [] → s.1 ≡ []
before-rest c ([], r) h = ground arith
before-rest c (l ∷ ls, r) h = h

split-joined :
    (text more : List ℕ)
    → (split text).1 ≡ []
    → split (text ++ more) ≡ joined (split text) (split more)
unfolding split
split-joined [] more h = refl
split-joined (c ∷ cs) more h = elim (Bool-cases (c == b'\n')) [
  | inl is ↦
      let ends : (split cs).1 ≡ [] =
        subst (λ b. (if b then ([] ∷ (split cs).0, (split cs).1) else before c (split cs)).1 ≡ [])
          is h in
      rw (is, split-joined cs more ends)
  | inr not ↦
      let ends : (before c (split cs)).1 ≡ [] =
        subst (λ b. (if b then ([] ∷ (split cs).0, (split cs).1) else before c (split cs)).1 ≡ [])
          not h in
      rw (
        not,
        split-joined cs more (before-rest c (split cs) ends),
        before-joined c (split cs) (split more) ends,
      )
]

-- A line with its end.
split-line :
    (line more : List ℕ)
    → All IsPlain line
    → split (line ++ b'\n' ∷ more) ≡ (line ∷ (split more).0, (split more).1)
unfolding split
split-line [] more h = refl
split-line (c ∷ cs) more (plain, h) =
    let other : (c == b'\n') ≡ false = ground arith in rw (other, split-line cs more h)

split-unlines : (ls : List (List ℕ)) → All (All IsPlain) ls → split (unlines ls) ≡ (ls, [])
unfolding split
split-unlines [] h = refl
split-unlines (l ∷ ls) (a, h) = split-line l (unlines ls) a ∙ rw (split-unlines ls h)

drop_cr-plain : (l : List ℕ) → All IsPlain l → drop_cr l ≡ l
unfolding drop_cr
drop_cr-plain [] h = refl
drop_cr-plain (c ∷ []) (plain, h) = let other : (c == b'\r') ≡ false = ground arith in rw other
drop_cr-plain (c ∷ d ∷ cs) (plain, h) = rw (drop_cr-plain (d ∷ cs) h)

map-drop_cr : (ls : List (List ℕ)) → All (All IsPlain) ls → map drop_cr ls ≡ ls
map-drop_cr [] h = refl
map-drop_cr (l ∷ ls) (a, h) = rw (drop_cr-plain l a, map-drop_cr ls h)

before-IsPlain :
    (c : ℕ) (s : Split)
    → IsPlain c
    → All (All IsPlain) s.0 × All IsPlain s.1
    → All (All IsPlain) (before c s).0 × All IsPlain (before c s).1
before-IsPlain c ([], r) p (h, g) = (h, (p, g))
before-IsPlain c (l ∷ ls, r) p ((a, h), g) = (((p, a), h), g)

split-IsPlain :
    (text : List ℕ) → HasNoCr text → All (All IsPlain) (split text).0 × All IsPlain (split text).1
unfolding split
split-IsPlain [] h = (tt, tt)
split-IsPlain (c ∷ cs) (n, h) =
    let (g, r) = split-IsPlain cs h in
    if_rule {A = Split} (λ s. All (All IsPlain) s.0 × All IsPlain s.1) (c == b'\n') _ _
      (λ _. ((tt, g), r)) (λ other. before-IsPlain c (split cs) (ground arith, n) (g, r))

append-All :
    (ls ms : List (List ℕ))
    → All (All IsPlain) ls
    → All (All IsPlain) ms
    → All (All IsPlain) (ls ++ ms)
append-All [] ms h g = g
append-All (l ∷ ls) ms (a, h) g = (a, append-All ls ms h g)

last_line-IsPlain : (rest : List ℕ) → All IsPlain rest → All (All IsPlain) (last_line rest)
last_line-IsPlain [] h = tt
last_line-IsPlain (c ∷ cs) h = (subst (All IsPlain) (sym (drop_cr-plain (c ∷ cs) h)) h, tt)

scan_lines-IsPlain : (text : List ℕ) → HasNoCr text → All (All IsPlain) (scan_lines text)
unfolding scan_lines
scan_lines-IsPlain text h =
    let (g, r) = split-IsPlain text h in
    append-All _ (last_line (split text).1)
      (subst (All (All IsPlain)) (sym (map-drop_cr (split text).0 g)) g)
      (last_line-IsPlain (split text).1 r)

without-IsPlain :
    (line : List ℕ) (ls : List (List ℕ))
    → All (All IsPlain) ls
    → All (All IsPlain) (without line ls)
unfolding without
without-IsPlain line [] h = tt
without-IsPlain line (l ∷ ls) (p, h) =
    let rest = without-IsPlain line ls h in
    if_rule (All (All IsPlain)) (l == line) _ _ (λ _. rest) (λ _. (p, rest))

scan_lines-unlines : (ls : List (List ℕ)) → All (All IsPlain) ls → scan_lines (unlines ls) ≡ ls
unfolding scan_lines
scan_lines-unlines ls h = rw (split-unlines ls h, map-drop_cr ls h, append-nil ls)

-- The second list is the first one without every occurrence of the line, and with all else in its order.
pub data Omits (line : List ℕ) : List (List ℕ) → List (List ℕ) → Type 0 where
  nothing : Omits line [] []
  dropped :
      (l : List ℕ) (ls ms : List (List ℕ)) → l ≡ line → Omits line ls ms → Omits line (l ∷ ls) ms
  stays :
      (l : List ℕ) (ls ms : List (List ℕ))
      → l ≢ line
      → Omits line ls ms
      → Omits line (l ∷ ls) (l ∷ ms)

without-Omits : (line : List ℕ) (ls : List (List ℕ)) → Omits line ls (without line ls)
unfolding without
without-Omits line [] = Omits.nothing
without-Omits line (l ∷ ls) =
    let rest = without-Omits line ls in
    if_rule (Omits line (l ∷ ls)) (l == line) _ _
      (λ same. Omits.dropped l ls _ ((list_eq.agrees l line).0 same) rest)
      (λ other. Omits.stays l ls _ (λ same. cc (other, (list_eq.agrees l line).1 same)) rest)

-- When a line is taken out of a text without a carriage return, the lines of the new text are the old
-- ones in their order without every occurrence of that line, and with all others.
pub scan_lines-remove_line :
    (line text : List ℕ)
    → HasNoCr text
    → Omits line (scan_lines text) (scan_lines (remove_line line text))
unfolding remove_line
scan_lines-remove_line line text h =
    subst (Omits line (scan_lines text))
      (sym (
        scan_lines-unlines (without line (scan_lines text))
          (without-IsPlain line (scan_lines text) (scan_lines-IsPlain text h))))
      (without-Omits line (scan_lines text))

-- A line that is added to a text that is empty or ends with a line end is its last line.
pub scan_lines-add_line :
    (line text : List ℕ)
    → All IsPlain line
    → (split text).1 ≡ []
    → scan_lines (add_line line text) ≡ scan_lines text ++ line ∷ []
unfolding scan_lines add_line split
scan_lines-add_line line text h e = rw (
  split-joined text (line ++ b'\n' ∷ []) e,
  split-line line [] h,
  e,
  map-append drop_cr (split text).0 (line ∷ []),
  drop_cr-plain line h,
  append-nil (map drop_cr (split text).0),
  append-nil (map drop_cr (split text).0 ++ line ∷ []),
)
