-- ===== src/PeerSync/Snapshot/RoundTrip.antt =====
-- What comes back from a snapshot.
use peerswap.Prelude.{ℕ, ◌≡◌, ◌≢◌, refl, false, List, [], ◌∷◌, map, Option, none, some, All, arith}
use peerswap.Prelude.Int.{ℤ, pos, negsuc, ltb_ℤ, ◌≤ℤ◌}
use peerswap.Swap.Error.{ok}
use peerswap.PeerSync.{
  Asset, asset_unknown, asset_btc, asset_lbtc, asset_text, new_asset, new_premium_rate,
  PeerCapability, ppm_value,
}
use peerswap.PeerSync.Snapshot.{snapshot_from_capability, assets_of, to_capability}

-- A rate that is there, of at most 100% either way.
pub record IsRate (r : Option ℤ) : Type 0 where
  pub ppm : ℤ
  pub rate_is : r ≡ some ppm
  pub at_least : negsuc 999999 ≤ℤ ppm
  pub at_most : ppm ≤ℤ pos 1000000

rate_back : (r : Option ℤ) → IsRate r → new_premium_rate (ppm_value r) ≡ ok r
unfolding new_premium_rate
rate_back none h = ground (arith, h.rate_is)
rate_back (some n) h =
    let is = h.rate_is in
    let low = h.at_least in
    let high = h.at_most in
    let above : ltb_ℤ n (negsuc 999999) ≡ false = ground arith in
    let below : ltb_ℤ (pos 1000000) n ≡ false = ground arith in rw (above, below)

-- A capability that messages and records can carry.
pub record IsCapability (c : PeerCapability) : Type 0 where
  pub known : All (λ a. a ≢ asset_unknown) c.supported_assets
  pub btc_in : IsRate c.btc_swap_in_premium_rate
  pub btc_out : IsRate c.btc_swap_out_premium_rate
  pub lbtc_in : IsRate c.lbtc_swap_in_premium_rate
  pub lbtc_out : IsRate c.lbtc_swap_out_premium_rate

assets_back :
    (assets : List Asset)
    → All (λ a. a ≢ asset_unknown) assets
    → assets_of (map asset_text assets) ≡ ok assets
unfolding assets_of new_asset
assets_back [] h = refl
assets_back (asset_btc ∷ assets) (k, h) = rw (assets_back assets h)
assets_back (asset_lbtc ∷ assets) (k, h) = rw (assets_back assets h)
assets_back (asset_unknown ∷ assets) (k, h) = elim (k refl) [ ]

-- A capability with known assets and with rates of at most 100% comes back from its snapshot, with the
-- time at which it was read.
pub to_capability-snapshot_from_capability :
    (now : ℕ) (c : PeerCapability)
    → IsCapability c
    → to_capability now (snapshot_from_capability c) ≡ ok (record c { observed_at = now })
unfolding to_capability
to_capability-snapshot_from_capability now c h = rw (
  assets_back c.supported_assets h.known,
  rate_back c.btc_swap_in_premium_rate h.btc_in,
  rate_back c.btc_swap_out_premium_rate h.btc_out,
  rate_back c.lbtc_swap_in_premium_rate h.lbtc_in,
  rate_back c.lbtc_swap_out_premium_rate h.lbtc_out,
)
