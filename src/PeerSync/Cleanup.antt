-- ===== src/PeerSync/Cleanup.antt =====
-- The sweep that removes expired peers (peersync/store.go, and cleanupExpired of peersync/poller.go). The
-- cursor goes over the entries that the bucket had when the sweep began; the texts that wrap an error are
-- left out.
pub mod Connected
use peerswap.Prelude.{ℕ, ◌+◌, Bool, true, false, List, [], ◌∷◌, if◌then◌else◌}
use peerswap.Prelude.Equality.{◌==◌, nat_eq}
use peerswap.Prelude.Text.{String}
use peerswap.Swap.Error.{Error, Result, ok, err}
use peerswap.Bolt.{
  Bolt, Transactions, Answer, gives, fails, store_error, ◌>>=◌, ◌>>◌, opened, of_result,
}
use peerswap.PeerSync.{Peer, new_peer_id, is_expired, check_and_update_status}
use peerswap.PeerSync.Record.{to_peer, peer_to_record}
use peerswap.PeerSync.Handler.{PeerJson}
use peerswap.PeerSync.Sweep.{Round, has_peer, connected_peers}

unfoldable pub should_keep_peer : List String → String → Bool
unfolding new_peer_id
should_keep_peer keep key = elim (new_peer_id key) [ err e ↦ false | ok id ↦ has_peer keep id ]

module _ (b : Bolt) (tx : Transactions) (json : PeerJson) where
  unfoldable pub persist_peer : List ℕ → Peer → b.St → Answer b.St
  persist_peer key p s = do
    bytes ← of_result (json.marshal (peer_to_record p))
    of_result (b.put key bytes s)

  -- The record at a key: removed, or written again with the status that it has now.
  unfoldable pub renewed : ℕ → ℕ → List ℕ → Peer → b.St → Answer (b.St × Bool)
  unfolding is_expired check_and_update_status persist_peer
  renewed now timeout key p s =
      if is_expired now timeout p
      then (do t ← of_result (b.delete key s); gives (t, true))
      else (do t ← persist_peer key (check_and_update_status now timeout p) s; gives (t, false))

  unfoldable pub process_peer_record : Round → List ℕ × List ℕ → b.St → Answer (b.St × Bool)
  unfolding to_peer renewed
  process_peer_record round e s = do
    r ← of_result (json.unmarshal e.1)
    p ← of_result (to_peer (round.key_text e.0) r)
    renewed round.now round.timeout e.0 p s

  abbrev pub count : Bool → ℕ → ℕ
  count true n = n + 1
  count false n = n

  abbrev pub sweep_one : Round → List String → List ℕ × List ℕ → b.St × ℕ → Answer (b.St × ℕ)
  sweep_one round keep e (s, removed) =
      if should_keep_peer keep (round.key_text e.0)
      then gives (s, removed)
      else (do out ← process_peer_record round e s; gives (out.0, count out.1 removed))

  abbrev pub sweep_each :
      Round → List String → List (List ℕ × List ℕ) → b.St × ℕ → Answer (b.St × ℕ)
  sweep_each round keep [] at = gives at
  sweep_each round keep (e ∷ es) at = do
    next ← sweep_one round keep e at
    sweep_each round keep es next

  -- `CleanupExpiredExcept`: the bucket, and how many peers were removed.
  unfoldable pub cleanup_expired_except : Round → List String → b.St → Answer (b.St × ℕ)
  unfolding process_peer_record should_keep_peer
  cleanup_expired_except round keep s =
      if round.timeout == 0
      then fails (store_error (Error.message "timeout must be positive"))
      else (do
        opened (tx.begin 0)
        out ← sweep_each round keep (b.entries s) (s, 0)
        opened (tx.commit 0)
        gives out)

  -- `CleanupExpired`.
  abbrev pub cleanup_all_expired : Round → b.St → Answer (b.St × ℕ)
  cleanup_all_expired round s = cleanup_expired_except round [] s

  -- `cleanupExpired` of the poller: the connected peers stay.
  unfoldable pub cleanup_expired : Round → b.St → Answer (b.St × ℕ)
  unfolding cleanup_expired_except
  cleanup_expired round s = elim round.list_peers [
    | err e ↦ fails (store_error e)
    | ok connected ↦ cleanup_expired_except round (connected_peers connected) s
  ]
