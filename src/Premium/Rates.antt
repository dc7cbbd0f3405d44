-- ===== src/Premium/Rates.antt =====
-- Which rate a peer gets.
use peerswap.Prelude.{
  ℕ, ◌≡◌, ◌≢◌, refl, sym, ap, ◌∙◌, List, [], ◌∷◌, ◌++◌, none, some, ◌⊎◌, inl, inr, arith, subst,
  length, length-append,
}
use peerswap.Prelude.Text.{String, codes}
use peerswap.Prelude.Int.{ℤ}
use peerswap.Swap.Error.{ok}
use peerswap.Bolt.{
  Bolt, IsBolt, Transactions, gives, ◌>>◌, opened, of_result, gave, of_result-gives, same_answer,
}
use peerswap.Premium.{AssetType, OperationType, PremiumRate, new_premium_rate}
use peerswap.Premium.Decimal.{write_number}
use peerswap.Premium.Decimal.RoundTrip.{IsInt64, read_number-write_number}
use peerswap.Premium.Store.{
  asset_number, operation_number, rate_key, set_rate, delete_rate, found_rate, stored_rate,
  get_default_rate, get_rate,
}

-- The parts of a rate that was made.
rate_is :
    (a : AssetType) (o : OperationType) (v : ℤ) (r : PremiumRate)
    → new_premium_rate a o v ≡ ok r
    → (r.asset ≡ a) × (r.operation ≡ o) × (r.premium_rate ≡ v)
unfolding new_premium_rate
rate_is AssetType.btc OperationType.swap_in v r h = ground arith
rate_is AssetType.btc OperationType.swap_out v r h = ground arith
rate_is AssetType.lbtc OperationType.swap_in v r h = ground arith
rate_is AssetType.lbtc OperationType.swap_out v r h = ground arith
rate_is AssetType.btc OperationType.operation_unspecified v r h = ground arith
rate_is AssetType.lbtc OperationType.operation_unspecified v r h = ground arith
rate_is AssetType.asset_unspecified o v r h = ground arith

-- Two keys that end in as many bytes.
same_ends :
    (xs ys : List ℕ) (c d c' d' : ℕ)
    → xs ++ b'.' ∷ c ∷ b'.' ∷ d ∷ [] ≡ ys ++ b'.' ∷ c' ∷ b'.' ∷ d' ∷ []
    → (xs ≡ ys) × (c ≡ c') × (d ≡ d')
same_ends [] [] c d c' d' h = (refl, ground (arith, h), ground (arith, h))
same_ends [] (y ∷ ys) c d c' d' h =
    let more = length-append ys (b'.' ∷ c' ∷ b'.' ∷ d' ∷ []) in
    let same = ap length h in ground (arith, same, more)
same_ends (x ∷ xs) [] c d c' d' h =
    let more = length-append xs (b'.' ∷ c ∷ b'.' ∷ d ∷ []) in
    let same = ap length h in ground (arith, same, more)
same_ends (x ∷ xs) (y ∷ ys) c d c' d' h =
    let front : x ≡ y = ground (arith, h) in
    let (texts, one, two) = same_ends xs ys c d c' d' (ground (arith, h)) in
    (cc (front, texts), one, two)

asset_of-number : (a b : AssetType) → asset_number a ≡ asset_number b → a ≡ b
asset_of-number a b h = ground (arith, h)

operation_of-number : (a b : OperationType) → operation_number a ≡ operation_number b → a ≡ b
operation_of-number a b h = ground (arith, h)

-- Rates of other peers, assets or operations have other keys.
abbrev pub IsOther :
    String → AssetType → OperationType → String → AssetType → OperationType → Type 0
IsOther peer a o peer' a' o' = (codes peer' ≢ codes peer) ⊎ (a' ≢ a) ⊎ (o' ≢ o)

other_key :
    (peer peer' : String) (a a' : AssetType) (o o' : OperationType)
    → IsOther peer a o peer' a' o'
    → rate_key peer' a' o' ≢ rate_key peer a o
unfolding rate_key
other_key peer peer' a a' o o' other h =
    let (texts, assets, operations) =
      same_ends (codes peer') (codes peer) (asset_number a') (operation_number o') (asset_number a)
        (operation_number o) h in
    elim other [
      | inl p ↦ p texts
      | inr (inl q) ↦ q (asset_of-number a' a assets)
      | inr (inr q) ↦ q (operation_of-number o' o operations)
    ]

module _ (b : Bolt) (laws : IsBolt b) where
  put_of :
      (tx : Transactions) (peer : String) (r : PremiumRate) (s t : b.St)
      → set_rate b tx peer r s ≡ gives t
      → b.put (rate_key peer r.asset r.operation) (write_number r.premium_rate) s ≡ ok t
  unfolding set_rate
  put_of tx peer r s t h =
      let (u, began, h1) = gave (opened (tx.begin 0)) _ t h in
      let (t', put_is, h2) = gave (of_result (b.put _ (write_number r.premium_rate) s)) _ t h1 in
      let (c, committed, h3) = gave (opened (tx.commit 0)) _ t h2 in
      of_result-gives _ _ put_is ∙ ap ok (same_answer t' t h3)

  delete_of :
      (tx : Transactions) (peer : String) (a : AssetType) (o : OperationType) (s t : b.St)
      → delete_rate b tx peer a o s ≡ gives t
      → b.delete (rate_key peer a o) s ≡ ok t
  unfolding delete_rate
  delete_of tx peer a o s t h =
      let (u, began, h1) = gave (opened (tx.begin 0)) _ t h in
      let (t', deleted, h2) = gave (of_result (b.delete (rate_key peer a o) s)) _ t h1 in
      let (c, committed, h3) = gave (opened (tx.commit 0)) _ t h2 in
      of_result-gives _ _ deleted ∙ ap ok (same_answer t' t h3)

  own_rate :
      (tx : Transactions) (peer : String) (a : AssetType) (o : OperationType) (v : ℤ)
      (r : PremiumRate) (t : b.St)
      → new_premium_rate a o v ≡ ok r
      → IsInt64 v
      → tx.begin 0 ≡ none
      → b.get (rate_key peer a o) t ≡ some (write_number v)
      → get_rate b tx peer a o t ≡ gives r
  unfolding get_rate stored_rate
  own_rate tx peer a o v r t made fits began there =
      rw (began, there, read_number-write_number v fits, made)

  no_rate :
      (tx : Transactions) (peer : String) (a : AssetType) (o : OperationType) (t : b.St)
      → tx.begin 0 ≡ none
      → b.get (rate_key peer a o) t ≡ none
      → get_rate b tx peer a o t ≡ get_default_rate b tx 1 a o t
  unfolding get_rate stored_rate
  no_rate tx peer a o t began missing = rw (began, missing)

-- What a peer and another one get after a rate was set for the first, and after it was deleted again.
pub record IsRateSet (b : Bolt) (tx : Transactions) (peer : String) (r : PremiumRate) (s t u : b.St)
    (peer' : String) (a' : AssetType) (o' : OperationType) : Type 0 where
  pub own : get_rate b tx peer r.asset r.operation t ≡ gives r
  pub other : (n : ℕ) → stored_rate b tx n peer' a' o' t ≡ stored_rate b tx n peer' a' o' s
  pub deleted :
      get_rate b tx peer r.asset r.operation u ≡ get_default_rate b tx 1 r.asset r.operation u
  pub other_stays : (n : ℕ) → stored_rate b tx n peer' a' o' u ≡ stored_rate b tx n peer' a' o' s

-- When a valid rate of 64 bits was set for a peer without an error, the peer gets it, and once it is
-- deleted without an error it gets the default rate; what is stored for another peer, asset or operation
-- is as before all along. The bucket keeps the promises of bbolt, and the reading transaction begins.
pub get_rate-set_rate :
    (b : Bolt) (tx reading : Transactions) (peer peer' : String) (a a' : AssetType)
    (o o' : OperationType) (v : ℤ) (r : PremiumRate) (s t u : b.St)
    → IsBolt b
    → new_premium_rate a o v ≡ ok r
    → IsInt64 v
    → IsOther peer r.asset r.operation peer' a' o'
    → reading.begin 0 ≡ none
    → set_rate b tx peer r s ≡ gives t
    → delete_rate b tx peer r.asset r.operation t ≡ gives u
    → IsRateSet b reading peer r s t u peer' a' o'
unfolding stored_rate
get_rate-set_rate b tx reading peer peer' a a' o o' v r s t u laws made fits other began set
      removed =
    let (asset_is, operation_is, value_is) = rate_is a o v r made in
    let made' : new_premium_rate r.asset r.operation r.premium_rate ≡ ok r =
      cc (asset_is, operation_is, value_is, made) in
    let fits' : IsInt64 r.premium_rate = subst IsInt64 (sym value_is) fits in
    let key = rate_key peer r.asset r.operation in
    let put_is = put_of b laws tx peer r s t set in
    let deleted_is = delete_of b laws tx peer r.asset r.operation t u removed in
    let apart = other_key peer peer' r.asset a' r.operation o' other in
    let kept =
      laws.get-put_other key (write_number r.premium_rate) (rate_key peer' a' o') s t put_is
        apart in
    let kept' = laws.get-delete_other key (rate_key peer' a' o') t u deleted_is apart in
    record {
      own =
          own_rate b laws reading peer r.asset r.operation r.premium_rate r t made' fits' began
            (laws.get-put key (write_number r.premium_rate) s t put_is);
      other = λ n. ap (λ x. opened (reading.begin n) >> found_rate b reading a' o' x) kept;
      deleted =
          no_rate b laws reading peer r.asset r.operation u began
            (laws.get-delete key t u deleted_is);
      other_stays =
          λ n. ap (λ x. opened (reading.begin n) >> found_rate b reading a' o' x) (kept' ∙ kept);
    }
