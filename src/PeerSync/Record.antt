-- ===== src/PeerSync/Record.antt =====
-- How a peer stands in the store of peersync/store.go.
pub mod RoundTrip
use peerswap.Prelude.{
  ℕ, Bool, true, false, not, List, [], ◌∷◌, Option, none, some, ◌||◌, if◌then◌else◌,
}
use peerswap.Prelude.Equality.{◌==◌, nat_eq, string_eq}
use peerswap.Prelude.Text.{String}
use peerswap.Prelude.Int.{ℤ, pos, negsuc}
use peerswap.Swap.Error.{Error, Result, ok, err, ◌>>=◌}
use peerswap.PeerSync.{Peer, PeerCapability, PeerStatus, status_unknown, new_peer, new_peer_id}
use peerswap.PeerSync.Snapshot.{PeerCapabilitySnapshot, snapshot_from_capability, to_capability}

-- A status that is missing in the record is the empty text there.
pub record PeerRecord : Type 0 where
  pub id : String
  pub address : String
  pub status : Option PeerStatus
  pub last_poll_at : ℕ
  pub last_seen : ℕ
  pub snapshot : PeerCapabilitySnapshot

abbrev pub empty_snapshot : PeerCapabilitySnapshot
empty_snapshot = record {
  version = 0;
  assets = [];
  peer_allowed = false;
  btc_swap_in_premium_rate_ppm = pos 0;
  btc_swap_out_premium_rate_ppm = pos 0;
  lbtc_swap_in_premium_rate_ppm = pos 0;
  lbtc_swap_out_premium_rate_ppm = pos 0;
}

abbrev pub snapshot_of : Option PeerCapability → PeerCapabilitySnapshot
snapshot_of none = empty_snapshot
snapshot_of (some c) = snapshot_from_capability c

abbrev pub peer_to_record : Peer → PeerRecord
peer_to_record p = record {
  id = p.id;
  address = p.address;
  status = some p.status;
  last_poll_at = p.last_poll_at;
  last_seen = p.last_observed_at;
  snapshot = snapshot_of p.capability;
}

abbrev is_set : ℤ → Bool
is_set (pos n) = not (n == 0)
is_set (negsuc n) = true

abbrev any_assets : List String → Bool
any_assets [] = false
any_assets (a ∷ rest) = true

unfoldable pub has_capability_data : PeerCapabilitySnapshot → Bool
has_capability_data s =
    not (s.version == 0)
    || any_assets s.assets
    || s.peer_allowed
    || is_set s.btc_swap_in_premium_rate_ppm
    || is_set s.btc_swap_out_premium_rate_ppm
    || is_set s.lbtc_swap_in_premium_rate_ppm
    || is_set s.lbtc_swap_out_premium_rate_ppm

-- The capability was observed when the peer was seen last.
unfoldable pub rehydrate_capability : PeerRecord → Result (Option PeerCapability)
unfolding has_capability_data to_capability
rehydrate_capability r =
    if has_capability_data r.snapshot
    then (do c ← to_capability r.last_seen r.snapshot; ok (some c))
    else ok none

abbrev status_of : Option PeerStatus → PeerStatus
status_of none = status_unknown
status_of (some s) = s

-- `toPeer`: a record without an id takes its key.
unfoldable pub to_peer : String → PeerRecord → Result Peer
unfolding rehydrate_capability new_peer_id
to_peer key r = do
  id ← new_peer_id (if r.id == "" then key else r.id)
  capability ← rehydrate_capability r
  ok (record (new_peer id r.address) {
    capability = capability;
    status = status_of r.status;
    last_poll_at = r.last_poll_at;
    last_observed_at = r.last_seen;
  })
