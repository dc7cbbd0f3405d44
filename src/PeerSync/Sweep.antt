-- ===== src/PeerSync/Sweep.antt =====
-- A round of polls to all peers (peersync/poller.go), the guard (peersync/guard.go) and the peers that
-- speak the same version (peersync/compatibility.go). The clock stands still in a round; what the
-- messenger and the node answer are parameters. A map of peers is the list of its keys. The bucket is
-- there, since NewStore makes it.
pub mod Guarded
use peerswap.Prelude.{
  ℕ, Bool, true, false, not, ◌&&◌, ◌||◌, List, [], ◌∷◌, Option, none, some, if◌then◌else◌,
}
use peerswap.Prelude.Equality.{◌==◌, string_eq}
use peerswap.Prelude.Text.{String, codes}
use peerswap.Messages.{messagetype_poll, messagetype_request_poll}
use peerswap.Swap.Error.{Error, Result, ok, err}
use peerswap.Bolt.{Bolt, Transactions, Answer, gives, fails, ◌>>=◌, ◌>>◌, opened, of_result}
use peerswap.Policy.{Policy, is_peer_allowed, is_peer_suspicious}
use peerswap.PeerSync.{Peer, new_peer_id, mark_as_polled, is_compatible_with}
use peerswap.PeerSync.Record.{to_peer}
use peerswap.PeerSync.Poller.{
  RequestTimes, should_poll, capability_is_stale, allow_request, prune_request_times,
}
use peerswap.PeerSync.Handler.{PeerJson, get_peer_state, save_peer_state}

-- The guard without a policy allows every peer and suspects none.
abbrev pub allow : Option Policy → String → Bool
allow none peer = true
allow (some p) peer = is_peer_allowed p peer

abbrev pub suspicious : Option Policy → String → Bool
suspicious none peer = false
suspicious (some p) peer = is_peer_suspicious p peer

-- What a round asks for: who is suspicious, what the messenger answers, the connected peers, the time,
-- the timeout of the cleanup, the interval of requests, and the text of a key.
pub record Round : Type 0 where
  pub suspects : String → Bool
  pub send : String → ℕ → Option Error
  pub list_peers : Result (List String)
  pub now : ℕ
  pub timeout : ℕ
  pub request_interval : ℕ
  pub key_text : List ℕ → String

abbrev pub has_peer : List String → String → Bool
has_peer [] peer = false
has_peer (p ∷ ps) peer = let rest = has_peer ps peer in (p == peer) || rest

-- `connectedPeers`: each peer once.
abbrev pub connected_peers : List String → List String
connected_peers [] = []
connected_peers (p ∷ ps) =
    let rest = connected_peers ps in if has_peer rest p then rest else p ∷ rest

abbrev pub is_none : Option Error → Bool
is_none none = true
is_none (some e) = false

module _ (b : Bolt) (tx : Transactions) (json : PeerJson) where
  abbrev peers_of : Round → List (List ℕ × List ℕ) → Answer (List Peer)
  peers_of round [] = gives []
  peers_of round (e ∷ rest) =
      let more = peers_of round rest in
      do
        r ← of_result (json.unmarshal e.1)
        p ← of_result (to_peer (round.key_text e.0) r)
        peers ← more
        gives (p ∷ peers)

  unfoldable pub get_all_peer_states : Round → b.St → Answer (List Peer)
  get_all_peer_states round s = do opened (tx.begin 0); peers_of round (b.entries s)

  -- The store, the times of requests, and the messages that were sent, newest first.
  pub record Polling : Type 0 where
    pub store : b.St
    pub times : RequestTimes
    pub sent : List (String × ℕ)

  abbrev saved_or : b.St → Answer b.St → b.St
  saved_or s (gives t) = t
  saved_or s (fails e) = s

  abbrev pub type_of : Round → Peer → ℕ
  type_of round p =
      if capability_is_stale round.timeout round.now p
      then messagetype_request_poll
      else messagetype_poll

  -- One peer of the store.
  unfoldable pub poll_peer : Round → Bool → Peer → Polling → Polling
  unfolding should_poll capability_is_stale save_peer_state
  poll_peer round force p st =
      if not force && not (should_poll round.now p)
      then st
      else if round.suspects p.id
      then st
      else if is_none (round.send p.id (type_of round p))
      then record {
        store = saved_or st.store (save_peer_state b tx json (mark_as_polled round.now p) st.store);
        times = st.times;
        sent = (p.id, type_of round p) ∷ st.sent;
      }
      else st

  abbrev pub poll_each : Round → Bool → List Peer → Polling → Polling
  poll_each round force [] st = st
  poll_each round force (p ∷ ps) st = poll_each round force ps (poll_peer round force p st)

  -- One connected peer that the store does not know. An attempt counts even if it fails.
  unfoldable pub request_peer : Round → Bool → List String → String → Polling → Polling
  unfolding allow_request
  request_peer round force known peer st =
      let r = allow_request round.request_interval peer round.now force st.times in
      if has_peer known peer
      then st
      else if round.suspects peer
      then st
      else if not r.0
      then st
      else if is_none (round.send peer messagetype_request_poll)
      then record st { times = r.1; sent = (peer, messagetype_request_poll) ∷ st.sent }
      else record st { times = r.1 }

  abbrev pub request_each : Round → Bool → List String → List String → Polling → Polling
  request_each round force known [] st = st
  request_each round force known (p ∷ ps) st =
      request_each round force known ps (request_peer round force known p st)

  unfoldable pub request_unknown_connected_peers : Round → Bool → List String → Polling → Polling
  unfolding request_peer prune_request_times
  request_unknown_connected_peers round force known st = elim round.list_peers [
    | err e ↦ st
    | ok connected ↦
        request_each round force known (connected_peers connected) (record st {
          times = prune_request_times (has_peer (connected_peers connected)) st.times;
        })
  ]

  abbrev pub ids : List Peer → List String
  ids [] = []
  ids (p ∷ ps) = p.id ∷ ids ps

  -- `pollPeers`.
  unfoldable pub poll_peers : Round → Bool → Polling → Polling
  unfolding get_all_peer_states poll_peer request_unknown_connected_peers
  poll_peers round force st = elim (get_all_peer_states round st.store) [
    | fails e ↦ st
    | gives peers ↦
        request_unknown_connected_peers round force (ids peers) (poll_each round force peers st)
  ]

  abbrev compatible_of : ℕ → Answer Peer → Bool
  compatible_of version (fails e) = false
  compatible_of version (gives p) = is_compatible_with p version

  -- `HasCompatiblePeer`.
  unfoldable pub has_compatible_peer : ℕ → String → b.St → Bool
  unfolding get_peer_state new_peer_id
  has_compatible_peer version id s = elim (new_peer_id id) [
    | err e ↦ false
    | ok peer ↦ compatible_of version (get_peer_state b tx json peer s)
  ]

  abbrev compatible : ℕ → List Peer → List Peer
  compatible version [] = []
  compatible version (p ∷ ps) =
      let rest = compatible version ps in if is_compatible_with p version then p ∷ rest else rest

  -- `CompatiblePeers`, whose map is the list in the order of the store.
  unfoldable pub compatible_peers : Round → ℕ → b.St → Answer (List Peer)
  unfolding get_all_peer_states
  compatible_peers round version s = do
    peers ← get_all_peer_states round s
    gives (compatible version peers)
