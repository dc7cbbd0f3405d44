-- ===== src/PeerSync/Local/Told.antt =====
-- What a peer reads in a message of this node.
use peerswap.Prelude.{ℕ, ◌≡◌, ◌≢◌, refl, List, [], ◌∷◌, ◌++◌, some, All, sym, subst, if_rule, arith}
use peerswap.Prelude.Text.{String}
use peerswap.Prelude.Int.{pos, negsuc, ◌≤ℤ◌}
use peerswap.Premium.{AssetType, OperationType}
use peerswap.Swap.Error.{ok, result_rule}
use peerswap.PeerSync.{Asset, asset_unknown, new_asset, has_asset}
use peerswap.PeerSync.Snapshot.{to_capability}
use peerswap.PeerSync.Snapshot.RoundTrip.{IsRate, to_capability-snapshot_from_capability}
use peerswap.PeerSync.Sweep.{allow}
use peerswap.PeerSync.Local.{
  with_symbol, with_symbols, or_both, normalize_supported_assets, Node, premium_rate,
  local_capability_for_peer, capability_to_dto,
}

AreKnown : List Asset → Type 0
AreKnown assets = All (λ a. a ≢ asset_unknown) assets

new_asset-known : (symbol : String) (a : Asset) → new_asset symbol ≡ ok a → a ≢ asset_unknown
unfolding new_asset
new_asset-known symbol a h = ground arith

append-AreKnown :
    (assets : List Asset) (a : Asset)
    → AreKnown assets
    → a ≢ asset_unknown
    → AreKnown (assets ++ a ∷ [])
unfolding AreKnown
append-AreKnown [] a h k = (k, tt)
append-AreKnown (x ∷ xs) a (hx, h) k = (hx, append-AreKnown xs a h k)

with_symbol-AreKnown :
    (assets : List Asset) (symbol : String) → AreKnown assets → AreKnown (with_symbol assets symbol)
with_symbol-AreKnown assets symbol h =
    result_rule AreKnown (new_asset symbol) _ _ (λ _ _. h)
      (λ a is.
        if_rule AreKnown (has_asset a assets) _ _ (λ _. h)
          (λ _. append-AreKnown assets a h (new_asset-known symbol a is)))

with_symbols-AreKnown :
    (symbols : List String) (assets : List Asset)
    → AreKnown assets
    → AreKnown (with_symbols assets symbols)
with_symbols-AreKnown [] assets h = h
with_symbols-AreKnown (s ∷ symbols) assets h =
    with_symbols-AreKnown symbols (with_symbol assets s) (with_symbol-AreKnown assets s h)

or_both-AreKnown : (assets : List Asset) → AreKnown assets → AreKnown (or_both assets)
unfolding AreKnown
or_both-AreKnown [] h = (λ e. ground arith, (λ e. ground arith, tt))
or_both-AreKnown (a ∷ assets) h = h

normalize_supported_assets-AreKnown :
    (symbols : List String) → All (λ a. a ≢ asset_unknown) (normalize_supported_assets symbols)
unfolding normalize_supported_assets AreKnown
normalize_supported_assets-AreKnown symbols =
    or_both-AreKnown (with_symbols [] symbols) (with_symbols-AreKnown symbols [] tt)

-- All rates of the node for a peer are of at most 100% either way.
unfoldable pub IsModest : Node → String → Type 0
IsModest node peer =
    (a : AssetType) (o : OperationType)
    → (negsuc 999999 ≤ℤ premium_rate node.guard peer a o)
      × (premium_rate node.guard peer a o ≤ℤ pos 1000000)

premium_rate-IsRate :
    (node : Node) (peer : String) (a : AssetType) (o : OperationType)
    → IsModest node peer
    → IsRate (some (premium_rate node.guard peer a o))
unfolding IsModest
premium_rate-IsRate node peer a o h = record {
  ppm = premium_rate node.guard peer a o;
  rate_is = refl;
  at_least = (h a o).0;
  at_most = (h a o).1;
}

-- A peer that reads the capability that a node sends it, of the version, the symbols and the guard of
-- the node, takes it up as it is: the version, the normalized assets, whether the policy allows the
-- peer, and the rates of the guard for the peer, all of which are of at most 100% either way.
pub to_capability-capability_to_dto :
    (node : Node) (symbols : List String) (peer : String) (sent now : ℕ)
    → node.supported_assets ≡ normalize_supported_assets symbols
    → IsModest node peer
    → to_capability now (capability_to_dto node (local_capability_for_peer node sent peer) peer)
      ≡ ok (record {
        version = node.version;
        supported_assets = node.supported_assets;
        is_peer_allowed = allow node.guard.policy peer;
        btc_swap_in_premium_rate =
            some (premium_rate node.guard peer AssetType.btc OperationType.swap_in);
        btc_swap_out_premium_rate =
            some (premium_rate node.guard peer AssetType.btc OperationType.swap_out);
        lbtc_swap_in_premium_rate =
            some (premium_rate node.guard peer AssetType.lbtc OperationType.swap_in);
        lbtc_swap_out_premium_rate =
            some (premium_rate node.guard peer AssetType.lbtc OperationType.swap_out);
        observed_at = now;
      })
unfolding local_capability_for_peer capability_to_dto
to_capability-capability_to_dto node symbols peer sent now assets modest =
    to_capability-snapshot_from_capability now (local_capability_for_peer node sent peer) (record {
      known =
          subst (λ l. All (λ a. a ≢ asset_unknown) l) (sym assets)
            (normalize_supported_assets-AreKnown symbols);
      btc_in = premium_rate-IsRate node peer AssetType.btc OperationType.swap_in modest;
      btc_out = premium_rate-IsRate node peer AssetType.btc OperationType.swap_out modest;
      lbtc_in = premium_rate-IsRate node peer AssetType.lbtc OperationType.swap_in modest;
      lbtc_out = premium_rate-IsRate node peer AssetType.lbtc OperationType.swap_out modest;
    })
