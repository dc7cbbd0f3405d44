-- ===== src/Swap/Action/Request.antt =====
-- The actions that answer or make a request: `CheckRequestWrapperAction`,
-- `SwapInReceiverInitAction`, `CreateSwapOutFromRequestAction`, `CreateSwapRequestAction` and
-- `SetBlindingKeyActionWrapper` of swap/actions.go.
pub mod Accept
use peerswap.Prelude.{ℕ, ◌&&◌, ◌||◌, not, Bool, true, false, [], ◌∷◌, some, ltb, leb}
use peerswap.Prelude.Equality.{◌!=◌, nat_eq, string_eq}
use peerswap.Prelude.Text.{String, concat, decimal}
use peerswap.Prelude.Words.{mul64, add64}
use peerswap.Swap.Error.{Error, error_text}
use peerswap.Swap.Message.{
  PeerMessage, SwapInAgreementMessage, SwapOutAgreementMessage, message_type,
}
use peerswap.Swap.Data.{
  swap_in, swap_out, Chain, btc_chain, l_btc_chain, get_id, get_chain, get_type, get_amount,
  get_asset, get_network, get_protocol_version, get_request,
}
use peerswap.Swap.State.{EventType, action_succeeded}
use peerswap.Swap.Timelock.{peerswap_protocol_version}
use peerswap.Swap.Services.{
  SwapServices, requested_swap, timeout_set, invoice_made, invoice_fee, get_on_chain_services,
}
use peerswap.Swap.Flow.{
  Act, ◌>>=◌, ◌>>◌, return, read, modify, emit, fail, attempt, require, when, deref,
}
use peerswap.Swap.Action.Params.{memo}

abbrev pub is_liquid : Chain → Bool
is_liquid l_btc_chain = true
is_liquid _ = false

abbrev pub is_bitcoin : Chain → Bool
is_bitcoin btc_chain = true
is_bitcoin _ = false

-- Tell the peer why, and note the request that is turned down.
abbrev pub reject : String → Error → Act (Unit {0})
reject reason e = do
  modify (λ d. record d { cancel_message = reason })
  d ← read (λ d. d)
  emit (
      requested_swap d.peer_node_id (record {
        asset = get_chain d;
        amount_sat = get_amount d;
        swap_type = get_type d;
        rejection_reason = reason;
      }))
  fail e

abbrev pub reject_text : String → Act (Unit {0})
reject_text reason = reject reason (Error.message reason)

-- `ErrMinimumSwapSize`.
pub minimum_swap_size : ℕ → Error
minimum_swap_size min =
    Error.message (concat ("a minimum swap amount of " ∷ decimal min ∷ " msat is required" ∷ []))

unfoldable pub check_request_action : SwapServices → Act EventType → Act EventType
check_request_action s rest = do
  d ← read (λ d. d)
  when (not s.policy.new_swaps_allowed) (reject_text "swaps are disabled")
  when (is_liquid (get_chain d) && not s.liquid_enabled)
      (reject_text "lbtc swaps are not supported")
  when (is_bitcoin (get_chain d) && not s.bitcoin_enabled)
      (reject_text "btc swaps are not supported")
  when (get_protocol_version d != peerswap_protocol_version)
      (reject_text "incompatible peerswap version")
  when (ltb (mul64 (get_amount d) 1000) s.policy.min_swap_amount_msat)
      (reject_text (error_text (minimum_swap_size s.policy.min_swap_amount_msat)))
  wallet ← attempt (get_on_chain_services s (get_chain d))
  when (get_asset d != "" && get_asset d != wallet.get_asset)
      (reject_text (concat ("invalid liquid asset " ∷ get_asset d ∷ [])))
  when (get_network d != "" && get_network d != wallet.get_network)
      (reject_text (concat ("invalid bitcoin network " ∷ get_network d ∷ [])))
  when (not (s.policy.is_peer_allowed d.peer_node_id)) (
      reject (concat ("peer " ∷ d.peer_node_id ∷ " not allowed to request swaps" ∷ []))
        (Error.peer_not_allowed d.peer_node_id))
  when (s.policy.is_peer_suspicious d.peer_node_id) (
      reject (concat ("peer " ∷ d.peer_node_id ∷ " not allowed to request swaps" ∷ []))
        (Error.peer_is_suspicious d.peer_node_id))
  rest

unfoldable pub set_liquid_payment_window_anchor : SwapServices → Act (Unit {0})
set_liquid_payment_window_anchor s = do
  d ← read (λ d. d)
  when (not (not (is_liquid (get_chain d)) || get_protocol_version d != peerswap_protocol_version))
      do
        onchain ← attempt (get_on_chain_services s (get_chain d))
        height ← attempt (onchain.get_block_height 0)
        modify (λ d. record d { starting_block_height = height; starting_block_height_set = true })

-- Store the message that the next state sends (`MarshalPeerswapMessage`).
abbrev pub set_next_message : SwapServices → PeerMessage → Act (Unit {0})
set_next_message s m = do
  bytes ← attempt (s.codec.marshal m)
  modify (λ d. record d { next_message = some bytes; next_message_type = message_type m })

-- `addNewTimeOut`: ten minutes, after which the service sends the timeout event.
abbrev pub set_timeout : Act (Unit {0})
set_timeout = do
  modify (λ d. record d { to_cancel = true })
  id ← read get_id
  emit (timeout_set id)

-- `ps.Compute` at the asset of the swap's chain: Liquid, or else Bitcoin.
abbrev premium_chain : Chain → Chain
premium_chain l_btc_chain = l_btc_chain
premium_chain _ = btc_chain

unfoldable pub swap_in_receiver_init_action : SwapServices → Act EventType
swap_in_receiver_init_action s = do
  set_liquid_payment_window_anchor s
  d ← read (λ d. d)
  premium ←
      attempt
        (s.compute_premium d.peer_node_id (premium_chain (get_chain d)) swap_in (get_amount d))
  let agreement : SwapInAgreementMessage = record {
    protocol_version = peerswap_protocol_version;
    swap_id = get_id d;
    pubkey = s.codec.pubkey_of d.privkey;
    premium = premium;
  }
  modify (λ d. record d { swap_in_agreement = some agreement })
  set_next_message s (PeerMessage.swap_in_agreement agreement)
  set_timeout
  return action_succeeded

unfoldable pub set_blinding_key_action : SwapServices → Act EventType → Act EventType
set_blinding_key_action s rest = do
  d ← read (λ d. d)
  when (is_liquid (get_chain d))
      do key ← attempt s.codec.new_private_key; modify (λ d. record d { blinding_key_hex = key })
  rest

unfoldable pub create_swap_out_from_request_action : SwapServices → Act EventType
create_swap_out_from_request_action s = do
  d ← read (λ d. d)
  wallet ← attempt (get_on_chain_services s (get_chain d))
  opening_fee ← attempt wallet.get_flat_opening_tx_fee
  balance ← attempt wallet.get_onchain_balance
  require (leb (add64 (get_amount d) opening_fee) balance)
      (Error.message "insufficient walletbalance")
  preimage ← attempt s.codec.get_preimage
  invoice ← attempt (
      s.lightning.get_payreq (mul64 opening_fee 1000) preimage (get_id d) (memo invoice_fee d)
        invoice_fee 600 0)
  emit (invoice_made invoice_fee (mul64 opening_fee 1000) invoice)
  premium ←
      attempt
        (s.compute_premium d.peer_node_id (premium_chain (get_chain d)) swap_out (get_amount d))
  let agreement : SwapOutAgreementMessage = record {
    protocol_version = peerswap_protocol_version;
    swap_id = get_id d;
    pubkey = s.codec.pubkey_of d.privkey;
    payreq = invoice;
    premium = premium;
  }
  modify (λ d. record d { swap_out_agreement = some agreement })
  set_next_message s (PeerMessage.swap_out_agreement agreement)
  set_timeout
  return action_succeeded

-- A nil request is marshalled through a nil interface, which panics.
unfoldable pub create_swap_request_action : SwapServices → Act EventType
create_swap_request_action s = do
  set_liquid_payment_window_anchor s
  d ← read (λ d. d)
  request ← deref (get_request d)
  set_next_message s request
  set_timeout
  return action_succeeded
