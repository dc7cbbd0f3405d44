-- ===== src/Tests/Peers.antt =====
-- The theorems on the peers, on concrete ones.
use peerswap.Prelude.{
  ◌≡◌, refl, sym, false, ℕ, true, false, List, [], ◌∷◌, none, some, All, ◌⊎◌, arith,
}
use peerswap.Prelude.Equality.{◌==◌, string_eq}
use peerswap.Prelude.Text.{String, codes}
use peerswap.Prelude.Int.{pos, negsuc}
use peerswap.Messages.{messagetype_request_poll}
use peerswap.Swap.Error.{ok}
use peerswap.PeerSync.{Peer, PeerCapability, asset_btc, asset_lbtc, status_active, new_peer_id}
use peerswap.PeerSync.Snapshot.{snapshot_from_capability, to_capability}
use peerswap.PeerSync.Local.{
  Node, normalize_supported_assets, premium_rate, local_capability_for_peer, capability_to_dto,
  perform_initial_sync, Messenger,
}
use peerswap.PeerSync.Local.Told.{IsModest, to_capability-capability_to_dto}
use peerswap.Policy.{default_policy, is_peer_suspicious, is_peer_allowed}
use peerswap.Premium.{AssetType, OperationType}
use peerswap.PeerSync.Snapshot.RoundTrip.{IsCapability}
use peerswap.PeerSync.Record.{to_peer, peer_to_record}
use peerswap.PeerSync.Record.RoundTrip.{to_peer-peer_to_record}
use peerswap.PeerSync.Poller.Spaced.{Batch, granted, AreSpaced, allow_request-spaced}
use peerswap.PeerSync.Handler.{PeerJson, process_message}
use peerswap.PeerSync.Handler.Newer.{IsHandled, process_message-IsHandled}
use peerswap.PeerSync.Sweep.{Round, Polling, connected_peers, poll_peers}
use peerswap.PeerSync.Cleanup.{cleanup_expired}
use peerswap.PeerSync.Cleanup.Connected.{Some, IsMet, cleanup_expired-spares}
use peerswap.Bolt.{gives}
use peerswap.PeerSync.Sweep.Guarded.{IsGuarded, poll_peers-IsGuarded}
use peerswap.Tests.Stores.{bucket, bucket-IsBolt, tx}

abbrev capability : PeerCapability
capability = record {
  version = 7;
  supported_assets = asset_btc ∷ asset_lbtc ∷ [];
  is_peer_allowed = true;
  btc_swap_in_premium_rate = some (pos 0);
  btc_swap_out_premium_rate = some (pos 2000);
  lbtc_swap_in_premium_rate = some (negsuc 499);
  lbtc_swap_out_premium_rate = some (pos 1000000);
  observed_at = 3;
}

capability_is : IsCapability capability
capability_is = record {
  known = (λ h. ground arith, (λ h. ground arith, tt));
  btc_in = record { ppm = pos 0; rate_is = refl; at_least = ground arith; at_most = ground arith };
  btc_out = record {
    ppm = pos 2000;
    rate_is = refl;
    at_least = ground arith;
    at_most = ground arith;
  };
  lbtc_in = record {
    ppm = negsuc 499;
    rate_is = refl;
    at_least = ground arith;
    at_most = ground arith;
  };
  lbtc_out = record {
    ppm = pos 1000000;
    rate_is = refl;
    at_least = ground arith;
    at_most = ground arith;
  };
}

abbrev bob : Peer
bob = record {
  id = "bob";
  address = "";
  capability = some capability;
  status = status_active;
  last_poll_at = 4;
  last_observed_at = 3;
}

to_peer-peer_to_record_example :
    to_peer "bob" (peer_to_record bob) ≡ ok (record bob { capability = some capability })
unfolding new_peer_id
to_peer-peer_to_record_example =
    to_peer-peer_to_record "bob" bob capability refl
      (record { there = refl; has_version = λ h. omega (arith, h); is_capability = capability_is })

-- Bob is asked at 5 and at 16, but not at 9; carol, who is away at 9, is asked again at 16.
abbrev batches : List Batch
batches =
    record { connected = λ p. true; at = 5; unknown = "bob" ∷ [] }
    ∷ record { connected = λ p. true; at = 8; unknown = "carol" ∷ [] }
    ∷ record { connected = λ p. p == "bob"; at = 9; unknown = "bob" ∷ [] }
    ∷ record { connected = λ p. true; at = 16; unknown = "carol" ∷ "bob" ∷ [] }
    ∷ []

allow_request-spaced_example : AreSpaced 10 (granted 10 "bob" batches ([], [])).1
allow_request-spaced_example =
    allow_request-spaced 10 "bob" batches (omega arith) (refl, (refl, (refl, (refl, tt))))

asks_run : (granted 10 "bob" batches ([], [])).1 ≡ 16 ∷ 5 ∷ []
unfolding granted
asks_run = refl

carol_run : (granted 10 "carol" batches ([], [])).1 ≡ 16 ∷ 8 ∷ []
unfolding granted
carol_run = refl

abbrev json : PeerJson
json = record {
  marshal = λ r. ok (codes "{}");
  unmarshal = λ bytes. ok (peer_to_record bob);
  decode = λ bytes. ok (snapshot_from_capability capability);
}

process_message-IsHandled_example :
    IsHandled bucket tx json false "bob" messagetype_request_poll []
      (process_message bucket tx json false 5 "bob" messagetype_request_poll (codes "{}") [])
process_message-IsHandled_example =
    process_message-IsHandled bucket tx json false 5 "bob" messagetype_request_poll (codes "{}") []
      bucket-IsBolt

-- Bob is stored and stale, carol is connected and unknown, mallory is suspicious.
abbrev round : Round
round = record {
  suspects = λ peer. peer == "mallory";
  send = λ peer type. none;
  list_peers = ok ("bob" ∷ "mallory" ∷ "carol" ∷ "carol" ∷ []);
  now = 100;
  timeout = 10;
  request_interval = 5;
  key_text = λ key. "bob";
}

abbrev quiet : Polling bucket tx json
quiet = record { store = (codes "bob", codes "{}") ∷ []; times = []; sent = [] }

abbrev sent_in_round : List (String × ℕ)
sent_in_round = ("carol", messagetype_request_poll) ∷ ("bob", messagetype_request_poll) ∷ []

round_run : (poll_peers bucket tx json round true quiet).sent ≡ sent_in_round
unfolding poll_peers to_peer
round_run = refl

poll_peers-IsGuarded_example :
    All (IsGuarded round) (poll_peers bucket tx json round true quiet).sent
poll_peers-IsGuarded_example = poll_peers-IsGuarded bucket tx json round true quiet tt

-- Bob is stored and expired; only carol is connected.
abbrev lonely : Round
lonely = record round { list_peers = ok ("carol" ∷ []) }

abbrev bob_stored : List (List ℕ × List ℕ)
bob_stored = (codes "bob", codes "{}") ∷ []

abbrev nobody : List (List ℕ × List ℕ) × ℕ
nobody = ([], 1)

cleanup_run : cleanup_expired bucket tx json lonely bob_stored ≡ gives nobody
unfolding cleanup_expired to_peer
cleanup_run = refl

-- While bob is connected, his record stays.
spared_run : cleanup_expired bucket tx json round bob_stored ≡ gives (bob_stored, 0)
unfolding cleanup_expired
spared_run = refl

cleanup_expired-spares_example :
    (bucket.get (codes "bob") [] ≡ bucket.get (codes "bob") bob_stored)
    ⊎ Some
        (IsMet json lonely
          (connected_peers ("carol" ∷ []))
          (codes "bob")
          (bucket.get (codes "bob") []))
        bob_stored
cleanup_expired-spares_example =
    cleanup_expired-spares bucket tx json lonely ("carol" ∷ []) bob_stored nobody (codes "bob")
      bucket-IsBolt refl cleanup_run

-- The node suspects mallory, allows nobody, and has no rate of its own.
abbrev node : Node
node = record {
  guard = record {
    policy = some (record default_policy { suspicious_peer_list = "mallory" ∷ [] });
    premium = none;
  };
  version = 7;
  supported_assets = asset_lbtc ∷ [];
}

normalized_run : normalize_supported_assets (" lbtc" ∷ "xmr" ∷ "LBTC" ∷ []) ≡ asset_lbtc ∷ []
unfolding normalize_supported_assets
normalized_run = refl

abbrev messenger : Messenger
messenger = record {
  encode = λ s. ok (codes "{}");
  send_custom_message = λ peer type payload. none;
}

synced_run :
    perform_initial_sync node messenger 5 (ok ("bob" ∷ "mallory" ∷ [])) ≡ ok (("bob", none) ∷ [])
unfolding perform_initial_sync is_peer_suspicious
synced_run = refl

node-IsModest : IsModest node "bob"
unfolding IsModest premium_rate
node-IsModest AssetType.btc OperationType.swap_in = (ground arith, ground arith)
node-IsModest AssetType.btc OperationType.swap_out = (ground arith, ground arith)
node-IsModest AssetType.btc OperationType.operation_unspecified = (ground arith, ground arith)
node-IsModest AssetType.lbtc OperationType.swap_in = (ground arith, ground arith)
node-IsModest AssetType.lbtc OperationType.swap_out = (ground arith, ground arith)
node-IsModest AssetType.lbtc OperationType.operation_unspecified = (ground arith, ground arith)
node-IsModest AssetType.asset_unspecified OperationType.swap_in = (ground arith, ground arith)
node-IsModest AssetType.asset_unspecified OperationType.swap_out = (ground arith, ground arith)
node-IsModest AssetType.asset_unspecified OperationType.operation_unspecified =
    (ground arith, ground arith)

to_capability-capability_to_dto_example :
    to_capability 9 (capability_to_dto node (local_capability_for_peer node 5 "bob") "bob")
    ≡ ok (record {
      version = 7;
      supported_assets = asset_lbtc ∷ [];
      is_peer_allowed = false;
      btc_swap_in_premium_rate = some (pos 0);
      btc_swap_out_premium_rate = some (pos 2000);
      lbtc_swap_in_premium_rate = some (pos 0);
      lbtc_swap_out_premium_rate = some (pos 1000);
      observed_at = 9;
    })
unfolding premium_rate is_peer_allowed
to_capability-capability_to_dto_example =
    to_capability-capability_to_dto node (" lbtc" ∷ "xmr" ∷ "LBTC" ∷ []) "bob" 5 9
      (sym normalized_run) node-IsModest
