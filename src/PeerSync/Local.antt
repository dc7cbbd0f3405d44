-- ===== src/PeerSync/Local.antt =====
-- What a node tells its peers of itself (peersync/peersync.go, and PremiumRate of peersync/guard.go). The
-- guard is there, since `NewPeerSync` makes it; JSON and the messenger are parameters.
pub mod Told
use peerswap.Prelude.{ℕ, Bool, List, [], ◌∷◌, ◌++◌, map, Option, none, some, if◌then◌else◌}
use peerswap.Prelude.Text.{String}
use peerswap.Prelude.Int.{ℤ, pos}
use peerswap.Messages.{messagetype_request_poll}
use peerswap.Premium.{AssetType, OperationType, PremiumRate, built_in_rate}
use peerswap.Bolt.{Answer, gives, fails}
use peerswap.Swap.Error.{Error, Result, ok, err, ◌>>=◌}
use peerswap.Policy.{Policy}
use peerswap.PeerSync.{Asset, asset_btc, asset_lbtc, new_asset, has_asset, PeerCapability}
use peerswap.PeerSync.Snapshot.{PeerCapabilitySnapshot, snapshot_from_capability}
use peerswap.PeerSync.Sweep.{allow, suspicious}

-- `NewAsset` trims and capitalizes a symbol itself, and refuses a blank one.
abbrev pub with_symbol : List Asset → String → List Asset
with_symbol assets symbol = elim (new_asset symbol) [
  | err e ↦ assets
  | ok asset ↦ if has_asset asset assets then assets else assets ++ asset ∷ []
]

abbrev pub with_symbols : List Asset → List String → List Asset
with_symbols assets [] = assets
with_symbols assets (s ∷ symbols) = with_symbols (with_symbol assets s) symbols

abbrev pub or_both : List Asset → List Asset
or_both [] = asset_btc ∷ asset_lbtc ∷ []
or_both (a ∷ assets) = a ∷ assets

unfoldable pub normalize_supported_assets : List String → List Asset
unfolding new_asset
normalize_supported_assets symbols = or_both (with_symbols [] symbols)

-- What `GetRate` of the premium setting answers.
abbrev pub Rates : Type 0
Rates = String → AssetType → OperationType → Answer PremiumRate

-- The policy and the premiums of the guard may both be missing.
pub record Guard : Type 0 where
  pub policy : Option Policy
  pub premium : Option Rates

unfoldable pub default_premium_rate : AssetType → OperationType → ℤ
unfolding built_in_rate
default_premium_rate a o = elim (built_in_rate a o) [ none ↦ pos 0 | some v ↦ v ]

unfoldable pub premium_rate : Guard → String → AssetType → OperationType → ℤ
unfolding default_premium_rate
premium_rate g peer a o = elim g.premium [
  | none ↦ default_premium_rate a o
  | some get_rate ↦ elim (get_rate peer a o) [
    | fails e ↦ default_premium_rate a o
    | gives r ↦ r.premium_rate
  ]
]

-- The node: its guard, the version of its protocol, and the assets that it supports.
pub record Node : Type 0 where
  pub guard : Guard
  pub version : ℕ
  pub supported_assets : List Asset

unfoldable pub local_capability_for_peer : Node → ℕ → String → PeerCapability
unfolding premium_rate
local_capability_for_peer node now peer = record {
  version = node.version;
  supported_assets = node.supported_assets;
  is_peer_allowed = allow node.guard.policy peer;
  btc_swap_in_premium_rate =
      some (premium_rate node.guard peer AssetType.btc OperationType.swap_in);
  btc_swap_out_premium_rate =
      some (premium_rate node.guard peer AssetType.btc OperationType.swap_out);
  lbtc_swap_in_premium_rate =
      some (premium_rate node.guard peer AssetType.lbtc OperationType.swap_in);
  lbtc_swap_out_premium_rate =
      some (premium_rate node.guard peer AssetType.lbtc OperationType.swap_out);
  observed_at = now;
}

unfoldable pub capability_to_dto : Node → PeerCapability → String → PeerCapabilitySnapshot
capability_to_dto node c peer = record (snapshot_from_capability c) {
  peer_allowed = allow node.guard.policy peer;
}

-- How a message is written and sent.
pub record Messenger : Type 0 where
  pub encode : PeerCapabilitySnapshot → Result (List ℕ)
  pub send_custom_message : String → ℕ → List ℕ → Option Error

unfoldable pub send_capability : Node → Messenger → ℕ → String → ℕ → Option Error
unfolding local_capability_for_peer capability_to_dto
send_capability node messenger now peer type =
    elim (messenger.encode
      (capability_to_dto node (local_capability_for_peer node now peer) peer)) [
        | err e ↦ some e
        | ok payload ↦ messenger.send_custom_message peer type payload
      ]

unfoldable pub request_poll : Node → Messenger → ℕ → String → Option Error
unfolding send_capability
request_poll node messenger now peer =
    if suspicious node.guard.policy peer
    then none
    else send_capability node messenger now peer messagetype_request_poll

-- The peers that the first sync asks: every connected one that is not suspicious, each on its own.
abbrev pub calm_peers : Option Policy → List String → List String
calm_peers policy [] = []
calm_peers policy (p ∷ ps) =
    let rest = calm_peers policy ps in if suspicious policy p then rest else p ∷ rest

-- The peers that were asked, with what the messenger said.
unfoldable pub perform_initial_sync :
    Node → Messenger → ℕ → Result (List String) → Result (List (String × Option Error))
unfolding request_poll
perform_initial_sync node messenger now listed = do
  peers ← listed
  ok (map (λ p. (p, request_poll node messenger now p)) (calm_peers node.guard.policy peers))
