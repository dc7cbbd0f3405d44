-- ===== src/Swap/Action/Request/Accept.antt =====
-- Which requests `CheckRequestWrapperAction` lets through.
use peerswap.Prelude.{◌≡◌, refl, ◌&&◌, ◌||◌, not, Bool, true, false, ◌⊎◌, inl, inr, ltb, arith}
use peerswap.Prelude.Equality.{◌==◌, ◌!=◌, nat_eq, string_eq}
use peerswap.Prelude.Words.{mul64}
use peerswap.Prelude.Text.{String}
use peerswap.Swap.Error.{Error, Result, ok, err}
use peerswap.Swap.Data.{
  SwapData, Chain, btc_chain, l_btc_chain, no_chain, get_chain, get_amount, get_asset, get_network,
  get_protocol_version,
}
use peerswap.Swap.State.{EventType, action_failed}
use peerswap.Swap.Timelock.{peerswap_protocol_version}
use peerswap.Swap.Services.{SwapServices, OnChain, get_on_chain_services}
use peerswap.Swap.Flow.{Progress, Flow, Act, stop, ◌>>=◌, when, attempt}
use peerswap.Swap.Action.Request.{is_liquid, is_bitcoin, reject, check_request_action}

abbrev own_asset : SwapData → OnChain → Bool
own_asset d o = get_asset d == "" || get_asset d == o.get_asset

abbrev own_network : SwapData → OnChain → Bool
own_network d o = get_network d == "" || get_network d == o.get_network

-- The chain is one that this node swaps on, and the wallet's own asset and network are meant.
abbrev serves : SwapServices → (OnChain → Bool) → (OnChain → Bool) → Chain → Bool
serves s asset network btc_chain = s.bitcoin_enabled && asset s.bitcoin && network s.bitcoin
serves s asset network l_btc_chain = s.liquid_enabled && asset s.liquid && network s.liquid
serves s asset network no_chain = false

-- What a request must be to be accepted.
abbrev pub acceptable : SwapServices → SwapData → Bool
acceptable s d =
    s.policy.new_swaps_allowed
    && get_protocol_version d == peerswap_protocol_version
    && not (ltb (mul64 (get_amount d) 1000) s.policy.min_swap_amount_msat)
    && serves s (own_asset d) (own_network d) (get_chain d)
    && s.policy.is_peer_allowed d.peer_node_id
    && not (s.policy.is_peer_suspicious d.peer_node_id)

-- The run is the one that follows, if the test holds, and a failure of the action if not.
abbrev pub Decides : Bool → Flow EventType → Flow EventType → Type 0
Decides b f r =
    ((b ≡ true) × (f ≡ r)) ⊎ ((b ≡ false) × ((q : Progress) × (f ≡ stop action_failed q)))

abbrev Refuses : Act (Unit {0}) → Type 0
Refuses m = (p : Progress) → (q : Progress) × (m p ≡ stop action_failed q)

reject-Refuses : (reason : String) (e : Error) → Refuses (reject reason e)
unfolding ◌>>=◌
reject-Refuses reason e p = (_, refl)

guard :
    (b c : Bool) (m : Act (Unit {0})) (k : Act EventType) (p : Progress) (r : Flow EventType)
    → Refuses m
    → Decides c (k p) r
    → Decides (not b && c) ((when b m >>= λ _. k) p) r
unfolding ◌>>=◌
guard true c m k p r h d = let (q, is) = h p in inr (refl, (q, cc))
guard false c m k p r h d = d

found :
    (o : Result OnChain) (c : OnChain → Bool) (k : OnChain → Act EventType) (p : Progress)
    (r : Flow EventType)
    → ((w : OnChain) → Decides (c w) (k w p) r)
    → Decides (elim o [ ok w ↦ c w | err e ↦ false ]) ((attempt o >>= k) p) r
unfolding ◌>>=◌
found (ok w) c k p r h = h w
found (err e) c k p r h = inr (refl, (_, refl))

same_test : (b c : Bool) (f r : Flow EventType) → Decides b f r → b ≡ c → Decides c f r
same_test b c f r (inl h) p = inl (cc, h.1)
same_test b c f r (inr h) p = inr (cc, h.1)

tests_agree :
    (s : SwapServices) (c : Chain) (fresh version small trusted suspect : Bool)
    (other_asset other_network : OnChain → Bool) (own_asset own_network : OnChain → Bool)
    → ((w : OnChain) → not (other_asset w) ≡ own_asset w)
    → ((w : OnChain) → not (other_network w) ≡ own_network w)
    → (not (not fresh)
        && (not (is_liquid c && not s.liquid_enabled)
            && (not (is_bitcoin c && not s.bitcoin_enabled)
                && (not (not version)
                    && (not small && (elim (get_on_chain_services s c) [
                      | ok w ↦
                          not (other_asset w)
                          && (not (other_network w) && (not (not trusted) && (not suspect && true)))
                      | err e ↦ false
                    ]))))))
      ≡ (fresh
          && version
          && not small
          && serves s own_asset own_network c
          && trusted
          && not suspect)
unfolding get_on_chain_services
tests_agree s btc_chain fresh version small trusted suspect oa on wa wn ha hn =
    ground (arith, ha s.bitcoin, hn s.bitcoin)
tests_agree s l_btc_chain fresh version small trusted suspect oa on wa wn ha hn =
    ground (arith, ha s.liquid, hn s.liquid)
tests_agree s no_chain fresh version small trusted suspect oa on wa wn ha hn = ground arith

either : (a b : Bool) → not (not a && not b) ≡ (a || b)
either a b = ground arith

-- A request is handed on exactly if it is acceptable; any other fails the action.
pub check_request-exact :
    (s : SwapServices) (rest : Act EventType) (p : Progress)
    → Decides (acceptable s p.swap) (check_request_action s rest p) (rest p)
unfolding check_request_action ◌>>=◌
check_request-exact s rest p =
    let d = p.swap in
    same_test _ _ _ _
      (guard (not s.policy.new_swaps_allowed) _ _ _ p _ (reject-Refuses _ _) (
        guard (is_liquid (get_chain d) && not s.liquid_enabled) _ _ _ p _ (reject-Refuses _ _) (
          guard (is_bitcoin (get_chain d) && not s.bitcoin_enabled) _ _ _ p _ (reject-Refuses _ _) (
            guard (get_protocol_version d != peerswap_protocol_version) _ _ _ p _
              (reject-Refuses _ _)
              (guard (ltb (mul64 (get_amount d) 1000) s.policy.min_swap_amount_msat) _ _ _ p _
                (reject-Refuses _ _)
                (found (get_on_chain_services s (get_chain d)) _ _ p _ λ wallet.
                  guard (get_asset d != "" && get_asset d != wallet.get_asset) _ _ _ p _
                    (reject-Refuses _ _)
                    (guard (get_network d != "" && get_network d != wallet.get_network) _ _ _ p _
                      (reject-Refuses _ _)
                      (guard (not (s.policy.is_peer_allowed d.peer_node_id)) _ _ _ p _
                        (reject-Refuses _ _)
                        (guard (s.policy.is_peer_suspicious d.peer_node_id) true _ _ p _
                          (reject-Refuses _ _) (inl (refl, refl)))))))))))
      (tests_agree s (get_chain d) _ _ _ _ _ _ _ _ _ (λ w. either (get_asset d == "") _)
        (λ w. either (get_network d == "") _))
