-- ===== src/PeerSync/Record/RoundTrip.antt =====
-- What comes back from the record of a peer.
use peerswap.Prelude.{◌≡◌, ◌≢◌, refl, ap, Bool, true, false, Option, some, arith, if◌then◌else◌}
use peerswap.Prelude.Equality.{◌==◌, nat_eq, string_eq}
use peerswap.Prelude.Text.{String}
use peerswap.Swap.Error.{Error, Result, ok, err}
use peerswap.PeerSync.{Peer, PeerCapability, new_peer_id}
use peerswap.PeerSync.Snapshot.{snapshot_from_capability}
use peerswap.PeerSync.Snapshot.RoundTrip.{IsCapability, to_capability-snapshot_from_capability}
use peerswap.PeerSync.Record.{
  PeerRecord, snapshot_of, peer_to_record, has_capability_data, rehydrate_capability, to_peer,
}

-- A capability that a record can carry: a record shows that there is one by its version, if by nothing
-- else.
pub record IsCarried (o : Option PeerCapability) (c : PeerCapability) : Type 0 where
  pub there : o ≡ some c
  pub has_version : c.version ≢ 0
  pub is_capability : IsCapability c

carried :
    (r : PeerRecord) (c : PeerCapability)
    → r.snapshot ≡ snapshot_from_capability c
    → c.version ≢ 0
    → IsCapability c
    → rehydrate_capability r ≡ ok (some (record c { observed_at = r.last_seen }))
unfolding rehydrate_capability has_capability_data
carried r c is version h =
    let there : (c.version == 0) ≡ false = ground arith in
    rw (is, there, to_capability-snapshot_from_capability r.last_seen c h)

went_on :
    (b : Bool) (e : Error) (r : Result String) (v : String)
    → (if b then err e else r) ≡ ok v
    → b ≡ false
went_on true e r v h = ground arith
went_on false e r v h = refl

not_empty : (id : String) → new_peer_id id ≡ ok id → (id == "") ≡ false
unfolding new_peer_id
not_empty id h = went_on (id == "") _ _ id h

-- A peer comes back from its record, whatever the key, if its id is valid and it has a capability with a
-- version, with known assets only and with all four rates set, each of at most 100% either way. The
-- capability was then observed when the peer was.
pub to_peer-peer_to_record :
    (key : String) (p : Peer) (c : PeerCapability)
    → new_peer_id p.id ≡ ok p.id
    → IsCarried p.capability c
    → to_peer key (peer_to_record p)
      ≡ ok (record p { capability = some (record c { observed_at = p.last_observed_at }) })
unfolding to_peer
to_peer-peer_to_record key p c valid h =
    let same : snapshot_of p.capability ≡ snapshot_from_capability c = ap snapshot_of h.there in
    rw
      (not_empty p.id valid, valid, carried (peer_to_record p) c same h.has_version h.is_capability)
