-- ===== src/Swap/Action/Execute.antt =====
-- `Execute`: the action that a state names.
pub mod Kinds
pub mod Plain
pub mod Own
pub mod Calls
pub mod Finish
use peerswap.Swap.State.{EventType, no_op}
use peerswap.Swap.Services.{SwapServices}
use peerswap.Swap.Flow.{Act, return}
use peerswap.Swap.Action.{
  Action, create_swap_request, send_message, send_message_with_retry, no_op_action, no_op_done,
  pay_fee_invoice, set_starting_block_height, send_cancel_action, await_tx_confirmation,
  validate_tx_and_pay_claim_invoice, claim_swap_transaction_with_preimage, taker_send_privkey,
  cancel_action, create_and_broadcast_opening_transaction, await_payment_or_csv, await_csv,
  claim_swap_transaction_with_csv, claim_swap_transaction_coop, create_swap_out_from_request,
  await_fee_invoice_payment, swap_in_receiver_init, check_premium_amount, set_blinding_key,
  stop_send_message_with_retry, add_suspicious_peer, check_request,
}
use peerswap.Swap.Action.Request.{
  check_request_action, swap_in_receiver_init_action, set_blinding_key_action,
  create_swap_out_from_request_action, create_swap_request_action,
}
use peerswap.Swap.Action.Opening.{
  check_premium_amount_action, create_and_broadcast_opening_transaction_action,
}
use peerswap.Swap.Action.Claim.{
  claim_swap_transaction_with_preimage_action, claim_swap_transaction_with_csv_action,
  claim_swap_transaction_coop_action,
}
use peerswap.Swap.Action.Send.{
  send_message_action, send_message_with_retry_action, stop_send_message_with_retry_action,
  send_cancel_message_action, taker_send_privkey_action, no_op_done_action, cancel_done_action,
  add_suspicious_peer_action,
}
use peerswap.Swap.Action.Await.{
  await_payment_or_csv_action, await_csv_action, await_fee_invoice_payment_action,
  await_tx_confirmation_action, set_starting_block_height_action,
}
use peerswap.Swap.Action.Pay.{pay_fee_invoice_action, validate_tx_and_pay_claim_invoice_action}

unfoldable pub execute : SwapServices → Action → Act EventType
execute s create_swap_request = create_swap_request_action s
execute s send_message = send_message_action s
execute s send_message_with_retry = send_message_with_retry_action s
execute s no_op_action = return no_op
execute s no_op_done = no_op_done_action
execute s pay_fee_invoice = pay_fee_invoice_action s
execute s set_starting_block_height = set_starting_block_height_action s
execute s send_cancel_action = send_cancel_message_action s
execute s await_tx_confirmation = await_tx_confirmation_action s
execute s validate_tx_and_pay_claim_invoice = validate_tx_and_pay_claim_invoice_action s
execute s claim_swap_transaction_with_preimage = claim_swap_transaction_with_preimage_action s
execute s taker_send_privkey = taker_send_privkey_action s
execute s cancel_action = cancel_done_action
execute s create_and_broadcast_opening_transaction =
    create_and_broadcast_opening_transaction_action s
execute s await_payment_or_csv = await_payment_or_csv_action s
execute s await_csv = await_csv_action s
execute s claim_swap_transaction_with_csv = claim_swap_transaction_with_csv_action s
execute s claim_swap_transaction_coop = claim_swap_transaction_coop_action s
execute s create_swap_out_from_request = create_swap_out_from_request_action s
execute s await_fee_invoice_payment = await_fee_invoice_payment_action
execute s swap_in_receiver_init = swap_in_receiver_init_action s
execute s (check_premium_amount a) = check_premium_amount_action (execute s a)
execute s (set_blinding_key a) = set_blinding_key_action s (execute s a)
execute s (stop_send_message_with_retry a) = stop_send_message_with_retry_action (execute s a)
execute s (add_suspicious_peer a) = add_suspicious_peer_action s (execute s a)
execute s (check_request a) = check_request_action s (execute s a)
