-- ===== src/Bolt.antt =====
-- What the stores use of a bucket of bbolt, which is a parameter: `Get`, `Put`, `Delete` and `ForEach`
-- inside a transaction, and when a transaction begins and commits.
use peerswap.Prelude.{ℕ, ◌≡◌, ◌≢◌, refl, List, Option, none, some, arith}
use peerswap.Swap.Error.{Error, Result, ok, err}

-- A bucket is a state `St`; a key that is not there has no value.
pub record Bolt : Type 1 where
  pub St : Type 0
  pub get : List ℕ → St → Option (List ℕ)
  pub put : List ℕ → List ℕ → St → Result St
  pub delete : List ℕ → St → Result St
  pub entries : St → List (List ℕ × List ℕ)

-- What the documentation promises of a bucket.
pub record IsBolt (b : Bolt) : Type 0 where
  pub get-put : (k v : List ℕ) (s t : b.St) → b.put k v s ≡ ok t → b.get k t ≡ some v
  pub get-put_other :
      (k v j : List ℕ) (s t : b.St) → b.put k v s ≡ ok t → j ≢ k → b.get j t ≡ b.get j s
  pub get-delete : (k : List ℕ) (s t : b.St) → b.delete k s ≡ ok t → b.get k t ≡ none
  pub get-delete_other :
      (k j : List ℕ) (s t : b.St) → b.delete k s ≡ ok t → j ≢ k → b.get j t ≡ b.get j s

-- Whether the transactions of a call, in their order, begin and find the bucket, and commit.
pub record Transactions : Type 0 where
  pub begin : ℕ → Option Error
  pub commit : ℕ → Option Error

-- The errors that the stores compare with or give, and any other.
pub data StoreError : Type 0 where
  does_not_exist already_exists data_not_available : StoreError
  active_swaps : List ℕ → StoreError
  store_error : Error → StoreError

pub data Answer (A : Type 0) : Type 0 where
  gives : A → Answer A
  fails : StoreError → Answer A

infixl 5 ◌>>=◌ ◌>>◌
abbrev pub ◌>>=◌ : {A B : Type 0} → Answer A → (A → Answer B) → Answer B
gives a >>= f = f a
fails e >>= f = fails e

abbrev pub ◌>>◌ : {B : Type 0} → Answer (Unit {0}) → Answer B → Answer B
first >> second = first >>= λ _. second

abbrev pub opened : Option Error → Answer (Unit {0})
opened none = gives tt
opened (some e) = fails (store_error e)

abbrev pub of_result : {A : Type 0} → Result A → Answer A
of_result (ok a) = gives a
of_result (err e) = fails (store_error e)

pub gave :
    {A B : Type 0} (o : Answer A) (f : A → Answer B) (t : B)
    → (o >>= f) ≡ gives t
    → (a : A) × (o ≡ gives a) × (f a ≡ gives t)
gave (gives a) f t h = (a, refl, h)
gave (fails e) f t h = ground arith

pub of_result-gives : {A : Type 0} (r : Result A) (a : A) → of_result r ≡ gives a → r ≡ ok a
of_result-gives (ok x) a h = ground arith
of_result-gives (err e) a h = ground arith

pub same_answer : {A : Type 0} (a c : A) → gives a ≡ gives c → a ≡ c
same_answer a c h = ground arith
