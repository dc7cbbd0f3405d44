-- ===== src/Swap/Scid/Parts.antt =====
-- Which short channel ids pass: what is tested of the three parts.
use peerswap.Prelude.{
  ℕ, ◌≡◌, refl, ◌≢◌, ◌||◌, true, false, List, [], ◌∷◌, ◌++◌, Option, none, some, arith,
}
use peerswap.Prelude.Int.{ℤ}
use peerswap.Swap.Error.{Error, Result, ok, err}
use peerswap.Swap.Scid.{contains, split, atoi, validate_scid}

contains-append :
    (c : ℕ) (xs ys : List ℕ) → contains c (xs ++ ys) ≡ (contains c xs || contains c ys)
unfolding contains
contains-append c [] ys = refl
contains-append c (x ∷ xs) ys = ground (arith, contains-append c xs ys)

contains_self : (c : ℕ) (xs : List ℕ) → contains c (c ∷ xs) ≡ true
unfolding contains
contains_self c xs = ground arith

-- A text without the separator is one part.
split_whole : (c : ℕ) (xs : List ℕ) → contains c xs ≡ false → split c xs ≡ xs ∷ []
unfolding split contains
split_whole c [] h = refl
split_whole c (x ∷ xs) h = ground (arith, split_whole c xs)

split-append :
    (c : ℕ) (xs ys : List ℕ) → contains c xs ≡ false → split c (xs ++ c ∷ ys) ≡ xs ∷ split c ys
unfolding split contains
split-append c [] ys h = ground arith
split-append c (x ∷ xs) ys h = ground (arith, split-append c xs ys)

split_three :
    (c : ℕ) (xs ys zs : List ℕ)
    → contains c xs ≡ false
    → contains c ys ≡ false
    → contains c zs ≡ false
    → split c (xs ++ c ∷ (ys ++ c ∷ zs)) ≡ xs ∷ ys ∷ zs ∷ []
split_three c xs ys zs hx hy hz =
    ground (arith, split-append c xs (ys ++ c ∷ zs), split-append c ys zs, split_whole c zs)

-- A short channel id of three parts, with a separator between them.
abbrev pub join_three : ℕ → List ℕ → List ℕ → List ℕ → List ℕ
join_three c xs ys zs = xs ++ c ∷ (ys ++ c ∷ zs)

-- The verdict that the third part alone gives.
abbrev pub verdict : Option ℤ → Result (Unit {0})
verdict none = err Error.invalid_scid
verdict (some n) = ok tt

contains-join_three : (c : ℕ) (xs ys zs : List ℕ) → contains c (join_three c xs ys zs) ≡ true
contains-join_three c xs ys zs =
    ground (arith, contains-append c xs (c ∷ (ys ++ c ∷ zs)), contains_self c (ys ++ c ∷ zs))

not-contains-join_three :
    (c d : ℕ) (xs ys zs : List ℕ)
    → d ≢ c
    → contains c xs ≡ false
    → contains c ys ≡ false
    → contains c zs ≡ false
    → contains c (join_three d xs ys zs) ≡ false
unfolding contains
not-contains-join_three c d xs ys zs ne hx hy hz =
    ground (arith, contains-append c xs (d ∷ (ys ++ d ∷ zs)), contains-append c ys (d ∷ zs))

abbrev pub IsPart : List ℕ → Type 0
IsPart xs = (contains b'x' xs ≡ false) × (contains b':' xs ≡ false)

-- Three parts joined by `x`, and the same three joined by `:`, get one verdict, and it depends on
-- the third part alone: the first two may be any text without the two separators.
pub validate_scid_third_only :
    (xs ys zs : List ℕ)
    → IsPart xs
    → IsPart ys
    → IsPart zs
    → (validate_scid (join_three b'x' xs ys zs) ≡ verdict (atoi zs))
      × (validate_scid (join_three b':' xs ys zs) ≡ verdict (atoi zs))
unfolding validate_scid
validate_scid_third_only xs ys zs hx hy hz = (
  ground (arith, contains-join_three b'x' xs ys zs, split_three b'x' xs ys zs),
  ground (
    arith,
    contains-join_three b':' xs ys zs,
    not-contains-join_three b'x' b':' xs ys zs,
    split_three b':' xs ys zs,
  ),
)
