-- ===== src/Version/Order.antt =====
-- The order of version texts.
use peerswap.Prelude.{
  ℕ, zero, suc, ◌+◌, ◌-◌, ◌<◌, ◌^◌, ◌≡◌, refl, sym, ap, ◌∙◌, Bool, true, false, List, [], ◌∷◌, ◌++◌,
  length, length-append, ltb, arith, All, map, if◌then◌else◌,
}
use mathlib.Core.List.{map-append}
use peerswap.Swap.Error.{ok, ◌>>=◌}
use peerswap.Version.Compare.{
  find_numbers, fill, value, atoi, numerics, entries_at_least, compare_version_strings,
}

-- The first list is at least the second, entry by entry from the left; a list that ends goes on with 0.
abbrev pub at_least : List ℕ → List ℕ → Bool
at_least [] [] = true
at_least [] (b ∷ ys) = let rest = at_least [] ys in if ltb 0 b then false else rest
at_least (a ∷ xs) [] = true
at_least (a ∷ xs) (b ∷ ys) =
    let rest = at_least xs ys in if ltb a b then false else if ltb b a then true else rest

-- The numbers of a version text.
pub numbers : List ℕ → List ℕ
numbers text = map value (find_numbers text)

-- The order is total and transitive.
at_least_total : (xs ys : List ℕ) → at_least xs ys ≡ false → at_least ys xs ≡ true
at_least_total [] [] h = ground arith
at_least_total [] (b ∷ ys) h = refl
at_least_total (a ∷ xs) [] h = ground arith
at_least_total (a ∷ xs) (b ∷ ys) h = let rest = at_least_total xs ys in ground arith

at_least_nil : (xs : List ℕ) → at_least xs [] ≡ true
at_least_nil [] = refl
at_least_nil (a ∷ xs) = refl

at_least_trans :
    (xs ys zs : List ℕ) → at_least xs ys ≡ true → at_least ys zs ≡ true → at_least xs zs ≡ true
at_least_trans [] [] [] h g = refl
at_least_trans [] [] (c ∷ zs) h g = g
at_least_trans [] (b ∷ ys) [] h g = refl
at_least_trans [] (b ∷ ys) (c ∷ zs) h g = let rest = at_least_trans [] ys zs in ground arith
at_least_trans (a ∷ xs) ys [] h g = refl
at_least_trans (a ∷ xs) [] (c ∷ zs) h g =
    let rest = at_least_trans xs [] zs (at_least_nil xs) in ground arith
at_least_trans (a ∷ xs) (b ∷ ys) (c ∷ zs) h g = let rest = at_least_trans xs ys zs in ground arith

-- A part "0" more changes nothing.
zero_left : (xs ys : List ℕ) → at_least (xs ++ 0 ∷ []) ys ≡ at_least xs ys
zero_left [] [] = refl
zero_left [] (y ∷ ys) = ground arith
zero_left (x ∷ xs) [] = refl
zero_left (x ∷ xs) (y ∷ ys) = rw (zero_left xs ys)

zero_right : (xs ys : List ℕ) → at_least xs (ys ++ 0 ∷ []) ≡ at_least xs ys
zero_right [] [] = refl
zero_right [] (y ∷ ys) = rw (zero_right [] ys)
zero_right (x ∷ xs) [] = let rest = at_least_nil xs in ground arith
zero_right (x ∷ xs) (y ∷ ys) = rw (zero_right xs ys)

one_more :
    (parts : List (List ℕ)) → map value (parts ++ (b'0' ∷ []) ∷ []) ≡ map value parts ++ 0 ∷ []
unfolding value
one_more parts = map-append value parts ((b'0' ∷ []) ∷ [])

fill_left :
    (n : ℕ) (parts : List (List ℕ)) (ys : List ℕ)
    → at_least (map value (fill n parts)) ys ≡ at_least (map value parts) ys
unfolding fill
fill_left zero parts ys = refl
fill_left (suc n) parts ys =
    fill_left n (parts ++ (b'0' ∷ []) ∷ []) ys
    ∙ ap (λ xs. at_least xs ys) (one_more parts)
    ∙ zero_left (map value parts) ys

fill_right :
    (n : ℕ) (parts : List (List ℕ)) (xs : List ℕ)
    → at_least xs (map value (fill n parts)) ≡ at_least xs (map value parts)
unfolding fill
fill_right zero parts xs = refl
fill_right (suc n) parts xs =
    fill_right n (parts ++ (b'0' ∷ []) ∷ []) xs
    ∙ ap (at_least xs) (one_more parts)
    ∙ zero_right xs (map value parts)

length-fill : (n : ℕ) (parts : List (List ℕ)) → length (fill n parts) ≡ length parts + n
unfolding fill
length-fill zero parts = omega arith
length-fill (suc n) parts =
    let more = length-append parts ((b'0' ∷ []) ∷ []) in
    let rest = length-fill n (parts ++ (b'0' ∷ []) ∷ []) in omega arith

-- A number that `strconv.Atoi` takes.
abbrev pub Fits : List ℕ → Type 0
Fits digits = value digits < 2 ^ 63

more_fit : (parts : List (List ℕ)) → All Fits parts → All Fits (parts ++ (b'0' ∷ []) ∷ [])
unfolding value
more_fit [] h = (omega arith, tt)
more_fit (p ∷ parts) (f, h) = (f, more_fit parts h)

fill-Fits : (n : ℕ) (parts : List (List ℕ)) → All Fits parts → All Fits (fill n parts)
unfolding fill
fill-Fits zero parts h = h
fill-Fits (suc n) parts h = fill-Fits n (parts ++ (b'0' ∷ []) ∷ []) (more_fit parts h)

numerics_fit :
    (xs ys : List (List ℕ))
    → All Fits xs
    → All Fits ys
    → length xs ≡ length ys
    → numerics xs ys ≡ ok (map value xs, map value ys)
unfolding numerics atoi
numerics_fit [] [] h g l = refl
numerics_fit [] (y ∷ ys) h g l = ground arith
numerics_fit (x ∷ xs) [] h g l = ground arith
numerics_fit (x ∷ xs) (y ∷ ys) (f, h) (f', g) l =
    let small : ltb (value x) (2 ^ 63) ≡ true = ground arith in
    let small' : ltb (value y) (2 ^ 63) ≡ true = ground arith in
    rw (small, small', numerics_fit xs ys h g (omega arith))

entries_same : (xs ys : List ℕ) → length xs ≡ length ys → entries_at_least xs ys ≡ at_least xs ys
unfolding entries_at_least
entries_same [] [] l = refl
entries_same [] (y ∷ ys) l = ground arith
entries_same (x ∷ xs) [] l = ground arith
entries_same (x ∷ xs) (y ∷ ys) l = rw (entries_same xs ys (omega arith))

length-value : (parts : List (List ℕ)) → length (map value parts) ≡ length parts
length-value [] = refl
length-value (p ∷ parts) = let rest = length-value parts in omega arith

-- When every number of two version texts fits into 63 bits, the comparison says whether the numbers of
-- the first are at least those of the second, in the lexicographic order in which a missing part is 0.
pub compare_version_strings-exact :
    (a b : List ℕ)
    → All Fits (find_numbers a)
    → All Fits (find_numbers b)
    → compare_version_strings a b ≡ ok (at_least (numbers a) (numbers b))
unfolding compare_version_strings numbers
compare_version_strings-exact a b h g =
    let na = length (find_numbers a) in
    let nb = length (find_numbers b) in
    let xs = fill (nb - na) (find_numbers a) in
    let ys = fill (na - nb) (find_numbers b) in
    let lx = length-fill (nb - na) (find_numbers a) in
    let ly = length-fill (na - nb) (find_numbers b) in
    let same : length xs ≡ length ys = omega arith in
    let fit = fill-Fits (nb - na) (find_numbers a) h in
    let fit' = fill-Fits (na - nb) (find_numbers b) g in
    ap (λ r. r >>= λ both. ok (entries_at_least both.0 both.1)) (numerics_fit xs ys fit fit' same)
    ∙ ap ok (
        entries_same (map value xs) (map value ys) (length-value xs ∙ same ∙ sym (length-value ys))
        ∙ fill_left (nb - na) (find_numbers a) (map value ys)
        ∙ fill_right (na - nb) (find_numbers b) (map value (find_numbers a)))

same_ok : {A : Type 0} (x y : A) → ok x ≡ ok y → x ≡ y
same_ok x y h = ground arith

-- What the comparison says of the numbers.
verdict :
    (a b : List ℕ) (r : Bool)
    → All Fits (find_numbers a)
    → All Fits (find_numbers b)
    → compare_version_strings a b ≡ ok r
    → at_least (numbers a) (numbers b) ≡ r
verdict a b r h g is = same_ok _ _ (sym (compare_version_strings-exact a b h g) ∙ is)

-- Of two version texts whose numbers fit one is at least the other, and the comparison is transitive.
pub compare_version_strings-IsOrder :
    (a b c : List ℕ)
    → All Fits (find_numbers a)
    → All Fits (find_numbers b)
    → All Fits (find_numbers c)
    → (compare_version_strings a b ≡ ok false → compare_version_strings b a ≡ ok true)
      × (compare_version_strings a b ≡ ok true
          → compare_version_strings b c ≡ ok true
          → compare_version_strings a c ≡ ok true)
compare_version_strings-IsOrder a b c ha hb hc = (
  λ less.
      compare_version_strings-exact b a hb ha
      ∙ ap ok (at_least_total (numbers a) (numbers b) (verdict a b false ha hb less)),
  λ ab bc.
      compare_version_strings-exact a c ha hc
      ∙ ap ok (
          at_least_trans (numbers a) (numbers b) (numbers c) (verdict a b true ha hb ab)
            (verdict b c true hb hc bc)),
)
