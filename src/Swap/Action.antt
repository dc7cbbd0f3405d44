-- ===== src/Swap/Action.antt =====
-- The kinds of action that a state can have (swap/actions.go).
pub mod Pay
pub mod Execute
pub mod Send
pub mod Await
pub mod Opening
pub mod Claim
pub mod Params
pub mod Request

pub data Action : Type 0 where
  create_swap_request send_message send_message_with_retry no_op_action no_op_done : Action
  pay_fee_invoice set_starting_block_height send_cancel_action await_tx_confirmation : Action
  validate_tx_and_pay_claim_invoice claim_swap_transaction_with_preimage : Action
  taker_send_privkey cancel_action create_and_broadcast_opening_transaction : Action
  await_payment_or_csv await_csv claim_swap_transaction_with_csv : Action
  claim_swap_transaction_coop create_swap_out_from_request await_fee_invoice_payment : Action
  swap_in_receiver_init : Action
  check_premium_amount set_blinding_key stop_send_message_with_retry : Action → Action
  add_suspicious_peer check_request : Action → Action
