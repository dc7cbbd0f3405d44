-- ===== src/Version.antt =====
-- The version of the database (version/service.go, version/store.go), and the order of version texts
-- (version/compare.go).
pub mod Compare
pub mod Order
pub mod Upgrade
use peerswap.Prelude.{ℕ, Bool, true, false, List, Option, none, some, if◌then◌else◌}
use peerswap.Prelude.Equality.{◌==◌, list_eq}
use peerswap.Prelude.Text.{codes}
use peerswap.Swap.Error.{Result, ok, err}
use peerswap.Bolt.{
  Bolt, Transactions, StoreError, does_not_exist, active_swaps, store_error, Answer, gives, fails,
  ◌>>=◌, ◌>>◌, opened, of_result,
}

abbrev pub version : List ℕ
version = codes "v0.2"

-- The key in the bucket.
abbrev pub version_key : List ℕ
version_key = codes "version"

module _ (b : Bolt) (tx : Transactions) where
  abbrev pub found : Option (List ℕ) → Answer (List ℕ)
  found none = fails does_not_exist
  found (some bytes) = gives bytes

  unfoldable pub get_version : b.St → Answer (List ℕ)
  get_version s = do opened (tx.begin 0); found (b.get version_key s)

  unfoldable pub set_version : List ℕ → b.St → Answer b.St
  set_version v s = do
    opened (tx.begin 1)
    t ← of_result (b.put version_key v s)
    opened (tx.commit 1)
    gives t

  -- The rest of `SafeUpgrade`, with the version of before, which is empty if there was none.
  abbrev pub upgrade : Result Bool → List ℕ → b.St → Answer b.St
  upgrade (err e) current s = fails (store_error e)
  upgrade (ok true) current s = fails (active_swaps current)
  upgrade (ok false) current s = set_version version s

  abbrev pub upgrade_from : Result Bool → Answer (List ℕ) → b.St → Answer b.St
  upgrade_from has (gives current) s = if current == version then gives s else upgrade has current s
  upgrade_from has (fails does_not_exist) s = upgrade has (codes "") s
  upgrade_from has (fails e) s = fails e

  -- `SafeUpgrade`, with what `HasActiveSwaps` answers.
  unfoldable pub safe_upgrade : Result Bool → b.St → Answer b.St
  unfolding get_version set_version
  safe_upgrade has s = upgrade_from has (get_version s) s
