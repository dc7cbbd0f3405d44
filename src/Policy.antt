-- ===== src/Policy.antt =====
-- The policy of a node (policy/policy.go): who may ask for swaps, and of which size. `Text` is the
-- text of its file, `Change` are the methods that rewrite the file.
pub mod Text
pub mod Change
pub mod Current
pub mod Allowed
use peerswap.Prelude.{ℕ, Bool, true, false, not, ◌||◌, List, [], ◌∷◌, if◌then◌else◌}
use peerswap.Prelude.Equality.{◌==◌, string_eq}
use peerswap.Prelude.Text.{String, concat, decimal}

pub record Policy : Type 0 where
  pub path : String
  pub reserve_onchain_msat : ℕ
  pub peer_allowlist : List String
  pub suspicious_peer_list : List String
  pub accept_all_peers : Bool
  pub min_swap_amount_msat : ℕ
  pub allow_new_swaps : Bool

-- `slices.Contains`.
unfoldable pub contains : List String → String → Bool
contains [] peer = false
contains (p ∷ ps) peer = let rest = contains ps peer in (p == peer) || rest

-- `DefaultPolicy`.
abbrev pub default_policy : Policy
default_policy = record {
  path = "";
  reserve_onchain_msat = 0;
  peer_allowlist = [];
  suspicious_peer_list = [];
  accept_all_peers = false;
  min_swap_amount_msat = 100000000;
  allow_new_swaps = true;
}

-- `Get`: a copy that has no file.
abbrev pub get : Policy → Policy
get p = record p { path = "" }

unfoldable pub is_peer_allowed : Policy → String → Bool
unfolding contains
is_peer_allowed p peer = if p.accept_all_peers then true else contains p.peer_allowlist peer

unfoldable pub is_peer_suspicious : Policy → String → Bool
unfolding contains
is_peer_suspicious p peer = contains p.suspicious_peer_list peer

abbrev truth : Bool → String
truth true = "true"
truth false = "false"

abbrev spaced : List String → String
spaced [] = ""
spaced (p ∷ []) = p
spaced (p ∷ q ∷ ps) = concat (p ∷ " " ∷ spaced (q ∷ ps) ∷ [])

-- `String`.
pub policy_text : Policy → String
policy_text p = concat (
    "allow_new_swaps: "
    ∷ truth p.allow_new_swaps
    ∷ "\nmin_swap_amount_msat: "
    ∷ decimal p.min_swap_amount_msat
    ∷ "\nreserve_onchain_msat: "
    ∷ decimal p.reserve_onchain_msat
    ∷ "\nallowlisted_peers: ["
    ∷ spaced p.peer_allowlist
    ∷ "]\naccept_all_peers: "
    ∷ truth p.accept_all_peers
    ∷ "\nsuspicious_peers: ["
    ∷ spaced p.suspicious_peer_list
    ∷ "]\n"
    ∷ [])
