-- ===== src/PeerSync.antt =====
-- What a node knows of its peers (peersync/peer.go): their capabilities, and whether they are still
-- there. A time is a number, 0 for the zero time; the time of a call is an argument.
pub mod Snapshot
pub mod Record
pub mod Poller
pub mod Handler
pub mod Sweep
pub mod Cleanup
pub mod Local
use peerswap.Prelude.{
  ℕ, suc, ◌-◌, ◌≡◌, Bool, true, false, List, [], ◌∷◌, map, length, Option, none, some, ltb, leb,
  ◌&&◌, ◌||◌, if◌then◌else◌,
}
use peerswap.Prelude.Equality.{◌==◌, nat_eq, string_eq, list_eq}
use peerswap.Prelude.Text.{String, codes}
use peerswap.Prelude.Int.{ℤ, pos, negsuc, ltb_ℤ}
use peerswap.Premium.{AssetType, OperationType}
use peerswap.Swap.Error.{Error, Result, ok, err}

pub data Asset : Type 0 where
  asset_unknown asset_btc asset_lbtc : Asset

-- `unicode.IsSpace`.
abbrev is_space : ℕ → Bool
is_space c =
    (leb 9 c && leb c 13)
    || c == 32
    || c == 133
    || c == 160
    || c == 5760
    || (leb 8192 c && leb c 8202)
    || c == 8232
    || c == 8233
    || c == 8239
    || c == 8287
    || c == 12288

abbrev trim_left : List ℕ → List ℕ
trim_left [] = []
trim_left (c ∷ cs) = let rest = trim_left cs in if is_space c then rest else c ∷ cs

abbrev keep_unless_blank : ℕ → List ℕ → List ℕ
keep_unless_blank c [] = if is_space c then [] else c ∷ []
keep_unless_blank c (d ∷ ds) = c ∷ d ∷ ds

abbrev trim_right : List ℕ → List ℕ
trim_right [] = []
trim_right (c ∷ cs) = keep_unless_blank c (trim_right cs)

-- `strings.ToUpper` of a letter of ASCII; no other letter becomes one of a ticker.
abbrev upper : ℕ → ℕ
upper c = if leb b'a' c && leb c b'z' then c - 32 else c

unfoldable pub new_asset : String → Result Asset
new_asset symbol =
    let ticker = map upper (trim_right (trim_left (codes symbol))) in
    if ticker == codes "BTC"
    then ok asset_btc
    else if ticker == codes "LBTC"
    then ok asset_lbtc
    else err (Error.message "unsupported asset")

abbrev pub asset_text : Asset → String
asset_text asset_btc = "BTC"
asset_text asset_lbtc = "LBTC"
asset_text asset_unknown = "UNKNOWN"

abbrev pub asset_beq : Asset → Asset → Bool
asset_beq asset_unknown asset_unknown = true
asset_beq asset_btc asset_btc = true
asset_beq asset_lbtc asset_lbtc = true
asset_beq _ _ = false

-- A rate beyond 100% either way is refused.
unfoldable pub new_premium_rate : ℤ → Result (Option ℤ)
new_premium_rate ppm =
    if ltb_ℤ ppm (negsuc 999999) || ltb_ℤ (pos 1000000) ppm
    then err (Error.message "premium rate out of range")
    else ok (some ppm)

unfoldable pub new_peer_id : String → Result String
new_peer_id value =
    if value == ""
    then err (Error.message "peer ID cannot be empty")
    else if ltb 128 (length (codes value))
    then err (Error.message "peer ID too long")
    else ok value

-- A rate is a pointer, which may be nil.
pub record PeerCapability : Type 0 where
  pub version : ℕ
  pub supported_assets : List Asset
  pub is_peer_allowed : Bool
  pub btc_swap_in_premium_rate : Option ℤ
  pub btc_swap_out_premium_rate : Option ℤ
  pub lbtc_swap_in_premium_rate : Option ℤ
  pub lbtc_swap_out_premium_rate : Option ℤ
  pub observed_at : ℕ

abbrev pub has_asset : Asset → List Asset → Bool
has_asset asset [] = false
has_asset asset (a ∷ rest) = asset_beq a asset || has_asset asset rest

abbrev pub supports_asset : PeerCapability → Asset → Bool
supports_asset c asset = has_asset asset c.supported_assets

abbrev pub get_premium_rate : PeerCapability → AssetType → OperationType → Option ℤ
get_premium_rate c AssetType.btc OperationType.swap_in = c.btc_swap_in_premium_rate
get_premium_rate c AssetType.btc OperationType.swap_out = c.btc_swap_out_premium_rate
get_premium_rate c AssetType.lbtc OperationType.swap_in = c.lbtc_swap_in_premium_rate
get_premium_rate c AssetType.lbtc OperationType.swap_out = c.lbtc_swap_out_premium_rate
get_premium_rate c _ _ = none

abbrev pub ppm_value : Option ℤ → ℤ
ppm_value none = pos 0
ppm_value (some rate) = rate

pub data PeerStatus : Type 0 where
  status_active status_inactive status_unknown status_expired : PeerStatus

pub record Peer : Type 0 where
  pub id : String
  pub address : String
  pub capability : Option PeerCapability
  pub status : PeerStatus
  pub last_poll_at : ℕ
  pub last_observed_at : ℕ

abbrev pub new_peer : String → String → Peer
new_peer id address = record {
  id = id;
  address = address;
  capability = none;
  status = status_unknown;
  last_poll_at = 0;
  last_observed_at = 0;
}

abbrev pub update_capability : ℕ → PeerCapability → Peer → Peer
update_capability now c p = record p {
  capability = some c;
  last_observed_at = now;
  status = status_active;
}

abbrev pub mark_as_polled : ℕ → Peer → Peer
mark_as_polled now p = record p { last_poll_at = now }

unfoldable pub is_expired : ℕ → ℕ → Peer → Bool
is_expired now timeout p =
    if p.last_observed_at == 0 then false else ltb timeout (now - p.last_observed_at)

unfoldable pub check_and_update_status : ℕ → ℕ → Peer → Peer
unfolding is_expired
check_and_update_status now timeout p =
    if is_expired now timeout p then record p { status = status_expired } else p

abbrev version_is : ℕ → Option PeerCapability → Bool
version_is v none = false
version_is v (some c) = c.version == v

abbrev pub is_compatible_with : Peer → ℕ → Bool
is_compatible_with p v = version_is v p.capability
