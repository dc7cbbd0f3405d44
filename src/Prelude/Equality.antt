-- ===== src/Prelude/Equality.antt =====
-- Boolean equality as an interface, with its instances for numbers and texts.
use Prim.Native.String.{String}
use text.Mathlib.Text.{◌==◌ as str_eq}
use text.Mathlib.TextEquality.{eq_iff}
use peerswap.Prelude.{
  ℕ, ◌≡◌, ◌↔◌, refl, subst, Bool, true, false, not, ◌&&◌, List, [], ◌∷◌, arith, nat_beq,
  nat_beq_iff, both_left, both_right,
}

pub record Eq {ℓ} (A : Type ℓ) : Type ℓ where
  pub equal : A → A → Bool
  pub agrees : (a b : A) → (equal a b ≡ true) ↔ (a ≡ b)

infix 50 ◌==◌ ◌!=◌
abbrev pub ◌==◌ {ℓ} : {A : Type ℓ} ⦃e : Eq A⦄ → A → A → Bool
◌==◌ ⦃e⦄ = e.equal

abbrev pub ◌!=◌ {ℓ} : {A : Type ℓ} ⦃e : Eq A⦄ → A → A → Bool
a != b = not (a == b)

-- The fields compute in tests and under the tactics.
instance abbrev pub nat_eq : Eq ℕ
nat_eq = record { equal = nat_beq; agrees = nat_beq_iff }

instance abbrev pub string_eq : Eq String
string_eq = record { equal = str_eq; agrees = eq_iff }

abbrev list_beq : List ℕ → List ℕ → Bool
list_beq [] [] = true
list_beq [] (d ∷ ds) = false
list_beq (c ∷ cs) [] = false
list_beq (c ∷ cs) (d ∷ ds) = let tail = list_beq cs ds in nat_beq c d && tail

pub list_beq_self : (xs : List ℕ) → list_beq xs xs ≡ true
list_beq_self [] = refl
list_beq_self (x ∷ xs) = rw ((nat_beq_iff x x).1 refl, list_beq_self xs)

pub list_beq_equal : (xs ys : List ℕ) → list_beq xs ys ≡ true → xs ≡ ys
list_beq_equal [] [] h = refl
list_beq_equal [] (y ∷ ys) h = ground arith
list_beq_equal (x ∷ xs) [] h = ground arith
list_beq_equal (x ∷ xs) (y ∷ ys) h = cc (
  (nat_beq_iff x y).0 (both_left (nat_beq x y) (list_beq xs ys) h),
  list_beq_equal xs ys (both_right (nat_beq x y) (list_beq xs ys) h),
)

-- A text that is given by its bytes.
instance abbrev pub list_eq : Eq (List ℕ)
list_eq = record {
  equal = list_beq;
  agrees = λ xs ys.
      (list_beq_equal xs ys, λ h. subst (λ zs. list_beq xs zs ≡ true) h (list_beq_self xs));
}
