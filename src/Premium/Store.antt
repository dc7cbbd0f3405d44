-- ===== src/Premium/Store.antt =====
-- The rates of the peers (premium/store.go, and `Setting` of premium/premium.go), in a bucket of bbolt. A
-- transaction that does not begin stands for a bucket that is missing, too.
use peerswap.Prelude.{ℕ, List, [], ◌∷◌, ◌++◌, Option, none, some}
use peerswap.Prelude.Text.{String, codes}
use peerswap.Prelude.Int.{ℤ}
use peerswap.Swap.Error.{Error}
use peerswap.Bolt.{
  Bolt, Transactions, StoreError, does_not_exist, store_error, Answer, gives, fails, ◌>>=◌, ◌>>◌,
  opened, of_result,
}
use peerswap.Premium.{
  AssetType, OperationType, PremiumRate, new_premium_rate, built_in_rate, compute_ppm,
}
use peerswap.Premium.Decimal.{write_number, read_number}

abbrev pub asset_number : AssetType → ℕ
asset_number AssetType.asset_unspecified = b'0'
asset_number AssetType.btc = b'1'
asset_number AssetType.lbtc = b'2'

abbrev pub operation_number : OperationType → ℕ
operation_number OperationType.operation_unspecified = b'0'
operation_number OperationType.swap_in = b'1'
operation_number OperationType.swap_out = b'2'

-- The key of the bucket, `"%s.%d.%d"`, as bytes.
unfoldable pub rate_key : String → AssetType → OperationType → List ℕ
rate_key peer a o = codes peer ++ b'.' ∷ asset_number a ∷ b'.' ∷ operation_number o ∷ []

abbrev pub default_peer_id : String
default_peer_id = "default"

module _ (b : Bolt) (tx : Transactions) where
  unfoldable pub set_rate : String → PremiumRate → b.St → Answer b.St
  unfolding rate_key
  set_rate peer r s = do
    opened (tx.begin 0)
    t ← of_result (b.put (rate_key peer r.asset r.operation) (write_number r.premium_rate) s)
    opened (tx.commit 0)
    gives t

  unfoldable pub delete_rate : String → AssetType → OperationType → b.St → Answer b.St
  unfolding rate_key
  delete_rate peer a o s = do
    opened (tx.begin 0)
    t ← of_result (b.delete (rate_key peer a o) s)
    opened (tx.commit 0)
    gives t

  -- The value at a key; `does_not_exist` is `ErrRateNotFound`.
  abbrev pub found_rate : AssetType → OperationType → Option (List ℕ) → Answer PremiumRate
  found_rate a o none = fails does_not_exist
  found_rate a o (some bytes) = do
    v ← of_result (read_number bytes)
    of_result (new_premium_rate a o v)

  -- `GetRate` of the store, in the transaction of a number.
  unfoldable pub stored_rate : ℕ → String → AssetType → OperationType → b.St → Answer PremiumRate
  unfolding rate_key new_premium_rate read_number
  stored_rate n peer a o s = do opened (tx.begin n); found_rate a o (b.get (rate_key peer a o) s)

  unfoldable pub set_default_rate : PremiumRate → b.St → Answer b.St
  unfolding set_rate
  set_default_rate r s = set_rate default_peer_id r s

  abbrev no_default : StoreError
  no_default = store_error (Error.message "no default premium rate configured")

  -- What is used where the store has no rate.
  abbrev pub or_built_in : AssetType → OperationType → Answer PremiumRate → Answer PremiumRate
  or_built_in a o (gives r) = gives r
  or_built_in a o (fails does_not_exist) = elim (built_in_rate a o) [
    | none ↦ fails no_default
    | some v ↦ of_result (new_premium_rate a o v)
  ]
  or_built_in a o (fails e) = fails e

  unfoldable pub get_default_rate : ℕ → AssetType → OperationType → b.St → Answer PremiumRate
  unfolding stored_rate built_in_rate
  get_default_rate n a o s = or_built_in a o (stored_rate n default_peer_id a o s)

  abbrev pub or_default : AssetType → OperationType → b.St → Answer PremiumRate → Answer PremiumRate
  or_default a o s (gives r) = gives r
  or_default a o s (fails does_not_exist) = get_default_rate 1 a o s
  or_default a o s (fails e) = fails e

  -- `GetRate` of the setting: the default rate is read in a transaction of its own.
  unfoldable pub get_rate : String → AssetType → OperationType → b.St → Answer PremiumRate
  unfolding stored_rate get_default_rate
  get_rate peer a o s = or_default a o s (stored_rate 0 peer a o s)

  -- `Setting.Compute`.
  unfoldable pub compute : String → AssetType → OperationType → ℕ → b.St → Answer ℤ
  unfolding get_rate
  compute peer a o amount s = do r ← get_rate peer a o s; gives (compute_ppm r.premium_rate amount)
