-- ===== src/Swap/Action/Execute/Calls.antt =====
-- Which calls an action can make.
use peerswap.Prelude.{List, ◌≡◌, Bool, true}
use peerswap.Swap.Services.{Effect, SwapServices}
use peerswap.Swap.Flow.Keeps.{Keeps}
use peerswap.Swap.Action.{
  Action, create_swap_request, send_message, send_message_with_retry, no_op_action, no_op_done,
  pay_fee_invoice, set_starting_block_height, send_cancel_action, await_tx_confirmation,
  validate_tx_and_pay_claim_invoice, claim_swap_transaction_with_preimage, taker_send_privkey,
  cancel_action, create_and_broadcast_opening_transaction, await_payment_or_csv, await_csv,
  claim_swap_transaction_with_csv, claim_swap_transaction_coop, create_swap_out_from_request,
  await_fee_invoice_payment, swap_in_receiver_init, check_premium_amount, set_blinding_key,
  stop_send_message_with_retry, add_suspicious_peer, check_request,
}
use peerswap.Swap.Action.Execute.{execute}
use peerswap.Swap.Action.Execute.Kinds.{Kind, common, Terms, Allows, Made, allows, call_rules}
use peerswap.Swap.Action.Execute.Plain.{
  check_request_kept, set_blinding_key_kept, stop_send_kept, suspicious_kept, premium_kept,
  create_request_kept, receiver_init_kept, send_kept, send_retry_kept, send_cancel_kept,
  privkey_kept, no_op_done_kept, cancel_kept, height_kept,
}
use peerswap.Swap.Action.Execute.Own.{
  swap_out_request_kept, opening_kept, preimage_kept, csv_kept, coop_kept, payment_or_csv_kept,
  await_csv_kept, fee_invoice_kept, confirmation_kept, pay_fee_kept, pay_claim_kept,
}

module _ (k : Kind → Bool) {Q : Terms → List Effect → Type 0} (may : Allows k Q)
    (usual : k common ≡ true) where
  -- Kinds that cover an action's own calls cover all the calls that it makes.
  pub execute-Keeps :
      (s : SwapServices) (a : Action) → allows k a ≡ true → Keeps (Made Q) (execute s a)
  unfolding execute
  execute-Keeps s create_swap_request h = create_request_kept k may usual s
  execute-Keeps s send_message h = send_kept k may usual s
  execute-Keeps s send_message_with_retry h = send_retry_kept k may usual s
  execute-Keeps s no_op_action h = search (call_rules, may, usual)
  execute-Keeps s no_op_done h = no_op_done_kept k may usual
  execute-Keeps s pay_fee_invoice h = pay_fee_kept k may usual s h
  execute-Keeps s set_starting_block_height h = height_kept k may usual s
  execute-Keeps s send_cancel_action h = send_cancel_kept k may usual s
  execute-Keeps s await_tx_confirmation h = confirmation_kept k may usual s h
  execute-Keeps s validate_tx_and_pay_claim_invoice h = pay_claim_kept k may usual s h
  execute-Keeps s claim_swap_transaction_with_preimage h = preimage_kept k may usual s h
  execute-Keeps s taker_send_privkey h = privkey_kept k may usual s
  execute-Keeps s cancel_action h = cancel_kept k may usual
  execute-Keeps s create_and_broadcast_opening_transaction h = opening_kept k may usual s h
  execute-Keeps s await_payment_or_csv h = payment_or_csv_kept k may usual s h
  execute-Keeps s await_csv h = await_csv_kept k may usual s h
  execute-Keeps s claim_swap_transaction_with_csv h = csv_kept k may usual s h
  execute-Keeps s claim_swap_transaction_coop h = coop_kept k may usual s h
  execute-Keeps s create_swap_out_from_request h = swap_out_request_kept k may usual s h
  execute-Keeps s await_fee_invoice_payment h = fee_invoice_kept k may usual h
  execute-Keeps s swap_in_receiver_init h = receiver_init_kept k may usual s
  execute-Keeps s (check_premium_amount a) h =
      premium_kept k may usual (execute s a) (execute-Keeps s a h)
  execute-Keeps s (set_blinding_key a) h =
      set_blinding_key_kept k may usual s (execute s a) (execute-Keeps s a h)
  execute-Keeps s (stop_send_message_with_retry a) h =
      stop_send_kept k may usual (execute s a) (execute-Keeps s a h)
  execute-Keeps s (add_suspicious_peer a) h =
      suspicious_kept k may usual s (execute s a) (execute-Keeps s a h)
  execute-Keeps s (check_request a) h =
      check_request_kept k may usual s (execute s a) (execute-Keeps s a h)
