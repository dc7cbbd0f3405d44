-- ===== src/Swap/Action/Execute/Plain.antt =====
-- The actions that make common calls only.
use peerswap.Prelude.{List, ◌≡◌, Bool, true, some, none, refl}
use peerswap.Swap.State.{EventType}
use peerswap.Swap.Data.{SwapData}
use peerswap.Swap.Error.{error_text}
use peerswap.Swap.Services.{Effect, SwapServices}
use peerswap.Swap.Flow.{Act}
use peerswap.Swap.Flow.Keeps.{Keeps}
use peerswap.Swap.Action.Request.{
  check_request_action, swap_in_receiver_init_action, set_blinding_key_action,
  create_swap_request_action, set_liquid_payment_window_anchor,
}
use peerswap.Swap.Action.Opening.{check_premium_amount_action}
use peerswap.Swap.Action.Send.{
  send_message_action, send_message_with_retry_action, stop_send_message_with_retry_action,
  send_cancel_message_action, taker_send_privkey_action, no_op_done_action, cancel_done_action,
  add_suspicious_peer_action, with_last_err_string,
}
use peerswap.Swap.Action.Await.{set_starting_block_height_action}
use peerswap.Swap.Action.Execute.Kinds.{Kind, common, Terms, terms, Allows, Made, call_rules}

same_terms_last : (d : SwapData) → terms (with_last_err_string d) ≡ terms d
same_terms_last d =
    elim d.last_err
      as (λ o.
        terms (elim o [ none ↦ d | some e ↦ record d { last_err_string = error_text e } ])
        ≡ terms d) [ none ↦ refl | some e ↦ refl ]

module _ (k : Kind → Bool) {Q : Terms → List Effect → Type 0} (may : Allows k Q)
    (usual : k common ≡ true) where
  pub anchor_kept : (s : SwapServices) → Keeps (Made Q) (set_liquid_payment_window_anchor s)
  unfolding set_liquid_payment_window_anchor
  anchor_kept s = search (call_rules, may, usual) depth 40

  pub check_request_kept :
      (s : SwapServices) (m : Act EventType)
      → Keeps (Made Q) m
      → Keeps (Made Q) (check_request_action s m)
  unfolding check_request_action
  check_request_kept s m h = search (call_rules, may, usual) depth 40

  pub set_blinding_key_kept :
      (s : SwapServices) (m : Act EventType)
      → Keeps (Made Q) m
      → Keeps (Made Q) (set_blinding_key_action s m)
  unfolding set_blinding_key_action
  set_blinding_key_kept s m h = search (call_rules, may, usual) depth 40

  pub stop_send_kept :
      (m : Act EventType)
      → Keeps (Made Q) m
      → Keeps (Made Q) (stop_send_message_with_retry_action m)
  unfolding stop_send_message_with_retry_action
  stop_send_kept m h = search (call_rules, may, usual) depth 40

  pub suspicious_kept :
      (s : SwapServices) (m : Act EventType)
      → Keeps (Made Q) m
      → Keeps (Made Q) (add_suspicious_peer_action s m)
  unfolding add_suspicious_peer_action
  suspicious_kept s m h = search (call_rules, may, usual) depth 40

  pub premium_kept :
      (m : Act EventType) → Keeps (Made Q) m → Keeps (Made Q) (check_premium_amount_action m)
  unfolding check_premium_amount_action
  premium_kept m h = search (call_rules, may, usual) depth 40

  pub create_request_kept : (s : SwapServices) → Keeps (Made Q) (create_swap_request_action s)
  unfolding create_swap_request_action
  create_request_kept s = search (call_rules, may, usual, anchor_kept) depth 40

  pub receiver_init_kept : (s : SwapServices) → Keeps (Made Q) (swap_in_receiver_init_action s)
  unfolding swap_in_receiver_init_action
  receiver_init_kept s = search (call_rules, may, usual, anchor_kept) depth 40

  pub send_kept : (s : SwapServices) → Keeps (Made Q) (send_message_action s)
  unfolding send_message_action
  send_kept s = search (call_rules, may, usual) depth 40

  pub send_retry_kept : (s : SwapServices) → Keeps (Made Q) (send_message_with_retry_action s)
  unfolding send_message_with_retry_action
  send_retry_kept s = search (call_rules, may, usual) depth 40

  pub send_cancel_kept : (s : SwapServices) → Keeps (Made Q) (send_cancel_message_action s)
  unfolding send_cancel_message_action
  send_cancel_kept s = search (call_rules, may, usual) depth 40

  pub privkey_kept : (s : SwapServices) → Keeps (Made Q) (taker_send_privkey_action s)
  unfolding taker_send_privkey_action
  privkey_kept s = search (call_rules, may, usual) depth 40

  pub no_op_done_kept : Keeps (Made Q) no_op_done_action
  unfolding no_op_done_action
  no_op_done_kept = search (call_rules, may, usual) depth 40

  pub cancel_kept : Keeps (Made Q) cancel_done_action
  unfolding cancel_done_action
  cancel_kept = search (call_rules, may, usual, same_terms_last) depth 40

  pub height_kept : (s : SwapServices) → Keeps (Made Q) (set_starting_block_height_action s)
  unfolding set_starting_block_height_action
  height_kept s = search (call_rules, may, usual) depth 40
