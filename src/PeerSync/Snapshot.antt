-- ===== src/PeerSync/Snapshot.antt =====
-- The form of a capability in messages and records (peersync/capability_snapshot.go).
pub mod RoundTrip
use peerswap.Prelude.{ℕ, Bool, List, [], ◌∷◌, map, Option, none, some}
use peerswap.Prelude.Text.{String}
use peerswap.Prelude.Int.{ℤ}
use peerswap.Premium.{AssetType, OperationType}
use peerswap.Swap.Error.{Error, Result, ok, err, ◌>>=◌}
use peerswap.PeerSync.{
  Asset, asset_text, new_asset, new_premium_rate, PeerCapability, get_premium_rate, ppm_value,
}

pub record PeerCapabilitySnapshot : Type 0 where
  pub version : ℕ
  pub assets : List String
  pub peer_allowed : Bool
  pub btc_swap_in_premium_rate_ppm : ℤ
  pub btc_swap_out_premium_rate_ppm : ℤ
  pub lbtc_swap_in_premium_rate_ppm : ℤ
  pub lbtc_swap_out_premium_rate_ppm : ℤ

abbrev pub snapshot_from_capability : PeerCapability → PeerCapabilitySnapshot
snapshot_from_capability c = record {
  version = c.version;
  assets = map asset_text c.supported_assets;
  peer_allowed = c.is_peer_allowed;
  btc_swap_in_premium_rate_ppm = ppm_value (get_premium_rate c AssetType.btc OperationType.swap_in);
  btc_swap_out_premium_rate_ppm =
      ppm_value (get_premium_rate c AssetType.btc OperationType.swap_out);
  lbtc_swap_in_premium_rate_ppm =
      ppm_value (get_premium_rate c AssetType.lbtc OperationType.swap_in);
  lbtc_swap_out_premium_rate_ppm =
      ppm_value (get_premium_rate c AssetType.lbtc OperationType.swap_out);
}

unfoldable pub assets_of : List String → Result (List Asset)
unfolding new_asset
assets_of [] = ok []
assets_of (symbol ∷ symbols) =
    let rest = assets_of symbols in do asset ← new_asset symbol; assets ← rest; ok (asset ∷ assets)

-- `ToCapability`, at a time.
unfoldable pub to_capability : ℕ → PeerCapabilitySnapshot → Result PeerCapability
unfolding assets_of new_premium_rate
to_capability now s = do
  assets ← assets_of s.assets
  btc_in ← new_premium_rate s.btc_swap_in_premium_rate_ppm
  btc_out ← new_premium_rate s.btc_swap_out_premium_rate_ppm
  lbtc_in ← new_premium_rate s.lbtc_swap_in_premium_rate_ppm
  lbtc_out ← new_premium_rate s.lbtc_swap_out_premium_rate_ppm
  ok (record {
    version = s.version;
    supported_assets = assets;
    is_peer_allowed = s.peer_allowed;
    btc_swap_in_premium_rate = btc_in;
    btc_swap_out_premium_rate = btc_out;
    lbtc_swap_in_premium_rate = lbtc_in;
    lbtc_swap_out_premium_rate = lbtc_out;
    observed_at = now;
  })
