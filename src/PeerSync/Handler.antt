-- ===== src/PeerSync/Handler.antt =====
-- The store of the peers (peersync/store.go) and what a poll of a peer does to it
-- (peersync/message_handler.go). JSON, the bucket and the guard are parameters; the bucket is there,
-- since `NewStore` makes it.
pub mod Newer
use peerswap.Prelude.{ℕ, ◌+◌, Bool, true, false, List, [], ◌∷◌, Option, none, some, if◌then◌else◌}
use peerswap.Prelude.Equality.{◌==◌, nat_eq}
use peerswap.Prelude.Text.{String, codes}
use peerswap.Messages.{messagetype_poll, messagetype_request_poll}
use peerswap.Swap.Error.{Error, Result, ok, err}
use peerswap.Bolt.{
  Bolt, Transactions, StoreError, does_not_exist, Answer, gives, fails, ◌>>=◌, ◌>>◌, opened,
  of_result,
}
use peerswap.PeerSync.{Peer, PeerCapability, new_peer, update_capability}
use peerswap.PeerSync.Snapshot.{PeerCapabilitySnapshot, to_capability}
use peerswap.PeerSync.Record.{PeerRecord, peer_to_record, to_peer}
use peerswap.PeerSync.Poller.{merge_capabilities}

pub record PeerJson : Type 0 where
  pub marshal : PeerRecord → Result (List ℕ)
  pub unmarshal : List ℕ → Result PeerRecord
  pub decode : List ℕ → Result PeerCapabilitySnapshot

module _ (b : Bolt) (tx : Transactions) (json : PeerJson) where
  abbrev pub peer_found : String → Option (List ℕ) → Answer Peer
  peer_found id none = fails does_not_exist
  peer_found id (some bytes) = do r ← of_result (json.unmarshal bytes); of_result (to_peer id r)

  unfoldable pub get_peer_state : String → b.St → Answer Peer
  unfolding to_peer
  get_peer_state id s = do opened (tx.begin 0); peer_found id (b.get (codes id) s)

  unfoldable pub save_peer_state : Peer → b.St → Answer b.St
  save_peer_state p s = do
    bytes ← of_result (json.marshal (peer_to_record p))
    opened (tx.begin 1)
    t ← of_result (b.put (codes p.id) bytes s)
    opened (tx.commit 1)
    gives t

  unfoldable pub remove_peer_state : String → b.St → Answer b.St
  remove_peer_state id s = do
    opened (tx.begin 0)
    t ← of_result (b.delete (codes id) s)
    opened (tx.commit 0)
    gives t

  -- `findPeer`: a peer that is not known is a new one.
  abbrev pub or_new : String → Answer Peer → Answer Peer
  or_new id (gives p) = gives p
  or_new id (fails does_not_exist) = gives (new_peer id "")
  or_new id (fails e) = fails e

  abbrev pub with_capability : ℕ → Peer → Option PeerCapability → Peer
  with_capability now p none = p
  with_capability now p (some new) = update_capability now new p

  -- The capability of the peer is merged with the one of the message.
  abbrev pub merged : ℕ → PeerCapability → Peer → Peer
  merged now c p = with_capability now p (merge_capabilities p.capability (some c))

  unfoldable pub store_capability_message : Bool → ℕ → String → List ℕ → b.St → Answer b.St
  unfolding get_peer_state save_peer_state to_capability merge_capabilities
  store_capability_message suspicious now from payload s = do
    snapshot ← of_result (json.decode payload)
    c ← of_result (to_capability now snapshot)
    if suspicious
        then gives s
        else do p ← or_new from (get_peer_state from s); save_peer_state (merged now c p) s

  abbrev pub kept : b.St → Answer b.St → b.St
  kept s (gives t) = t
  kept s (fails e) = s

  -- What a message does to the store, and whether it is answered with a poll. A request is answered
  -- even if its payload cannot be read or stored.
  unfoldable pub process_message : Bool → ℕ → String → ℕ → List ℕ → b.St → b.St × Bool
  unfolding store_capability_message
  process_message suspicious now from type payload s =
      let t = kept s (store_capability_message suspicious now from payload s) in
      if type == messagetype_poll
      then (t, false)
      else if type == messagetype_request_poll
      then (if suspicious then (s, false) else (t, true))
      else (s, false)
