-- ===== src/Swap/Service/Initiate.antt =====
-- `SwapOut` and `SwapIn` of swap/service.go: the operator starts a swap.
use peerswap.Prelude.{ℕ, Bool, not, ltb, some, [], ◌∷◌, if◌then◌else◌}
use peerswap.Prelude.Text.{String, concat, decimal}
use peerswap.Prelude.Int.{ℤ}
use peerswap.Prelude.Words.{mul64}
use peerswap.Premium.{compute_ppm}
use peerswap.Swap.Error.{Error, Result, ok, err}
use peerswap.Swap.Message.{PeerMessage, SwapInRequestMessage, SwapOutRequestMessage}
use peerswap.Swap.Timelock.{peerswap_protocol_version}
use peerswap.Swap.State.{on_swap_out_started, swap_in_sender_on_swap_in_requested}
use peerswap.Swap.Data.{Chain, btc_chain, l_btc_chain, no_chain}
use peerswap.Swap.Services.{SwapServices}
use peerswap.Swap.Action.Request.{minimum_swap_size}
use peerswap.Swap.Machine.{World, later}
use peerswap.Swap.Machine.Start.{new_swap_out_sender_fsm, new_swap_in_sender_fsm}
use peerswap.Swap.Service.{estimate_maximum_swap_amount_sat}
use peerswap.Swap.Service.Serving.{Serving, ◌>>=◌, ◌>>◌, give, refuse, check, answer, lock}
use peerswap.Swap.Service.Handlers.{drive}
use peerswap.Swap.Service.Requests.{Fresh, exceeding}

-- What the operator asks for.
pub record Order : Type 0 where
  pub peer : String
  pub chain : Chain
  pub channel_id : String
  pub initiator : String
  pub amount_sat : ℕ
  pub premium_limit_rate_ppm : ℤ

abbrev pub guard : Bool → Error → Serving (Unit {0})
guard b e = if b then give tt else refuse e

-- The asset and the network of a request.
abbrev pub asset_and_network : SwapServices → Chain → Result (String × String)
asset_and_network services l_btc_chain = ok (services.liquid.get_asset, "")
asset_and_network services btc_chain = ok ("", services.bitcoin.get_network)
asset_and_network services no_chain = err (Error.message "invalid chain")

-- The checks that both make first.
unfoldable pub may_start : SwapServices → Order → Serving (Unit {0})
may_start services o = do
  guard services.policy.new_swaps_allowed (Error.message "swaps are disabled")
  guard (not (services.policy.is_peer_suspicious o.peer)) (Error.peer_is_suspicious o.peer)
  guard (not (ltb (mul64 o.amount_sat 1000) services.policy.min_swap_amount_msat))
      (minimum_swap_size services.policy.min_swap_amount_msat)
  check (services.lightning.can_spend (mul64 o.amount_sat 1000))

-- The request, for an asset and a network.
abbrev pub swap_out_request_of :
    SwapServices → Fresh → Order → String × String → SwapOutRequestMessage
swap_out_request_of services fresh o chain = record {
  protocol_version = peerswap_protocol_version;
  swap_id = fresh.swap_id;
  asset = chain.0;
  network = chain.1;
  scid = o.channel_id;
  amount = o.amount_sat;
  pubkey = services.codec.pubkey_of fresh.key;
  premium_limit = compute_ppm o.premium_limit_rate_ppm o.amount_sat;
}

unfoldable pub swap_out : World → Fresh → Order → Serving (Unit {0})
unfolding may_start lock drive
swap_out w fresh o = do
  let services = w 0
  may_start services o
  sp ← answer (services.lightning.spendable_msat o.channel_id)
  guard (not (ltb sp (mul64 o.amount_sat 1000))) (exceeding "spendable" sp)
  let m = new_swap_out_sender_fsm fresh.swap_id o.initiator o.peer fresh.key fresh.now
  lock m.swap_id o.channel_id m
  chain ← answer (asset_and_network services o.chain)
  drive (later w) m.swap_id m on_swap_out_started
      (some (PeerMessage.swap_out_request (swap_out_request_of services fresh o chain)))

-- The request, for an asset and a network.
abbrev pub swap_in_request_of :
    SwapServices → Fresh → Order → String × String → SwapInRequestMessage
swap_in_request_of services fresh o chain = record {
  protocol_version = peerswap_protocol_version;
  swap_id = fresh.swap_id;
  network = chain.1;
  asset = chain.0;
  scid = o.channel_id;
  amount = o.amount_sat;
  pubkey = services.codec.pubkey_of fresh.key;
  premium_limit = compute_ppm o.premium_limit_rate_ppm o.amount_sat;
}

unfoldable pub swap_in : World → Fresh → Order → Serving (Unit {0})
unfolding may_start lock drive estimate_maximum_swap_amount_sat
swap_in w fresh o = do
  let services = w 0
  may_start services o
  rs ← answer (services.lightning.receivable_msat o.channel_id)
  guard (not (ltb rs (mul64 o.amount_sat 1000))) (exceeding "receivable" rs)
  maximum ← answer (estimate_maximum_swap_amount_sat services o.chain)
  guard (not (ltb maximum o.amount_sat))
      (Error.message (concat ("exceeding maximum swap amount: " ∷ decimal maximum ∷ [])))
  chain ← answer (asset_and_network services o.chain)
  let m = new_swap_in_sender_fsm fresh.swap_id o.initiator o.peer fresh.key fresh.now
  lock m.swap_id o.channel_id m
  drive (later w) m.swap_id m swap_in_sender_on_swap_in_requested
      (some (PeerMessage.swap_in_request (swap_in_request_of services fresh o chain)))
