-- ===== src/Swap/Table/SwapOutSender.antt =====
-- swap/swap_out_sender.go: the states of a swap-out sender, and what each does with which event.
use peerswap.Prelude.{true, false, [], ◌∷◌, none, some}
use peerswap.Swap.State.{
  claimed_coop, claimed_preimage, default, send_cancel, swap_canceled,
  swap_out_sender_await_agreement, swap_out_sender_await_tx_broadcasted_message,
  swap_out_sender_await_tx_confirmation, swap_out_sender_claim_swap, swap_out_sender_create_swap,
  swap_out_sender_pay_fee_invoice, swap_out_sender_send_coop_close, swap_out_sender_send_privkey,
  swap_out_sender_send_request, swap_out_sender_validate_tx_and_pay_claim_invoice, action_failed,
  action_succeeded, on_cancel_received, on_fee_invoice_received, on_invalid_message, on_retry,
  on_swap_out_started, on_timeout, on_tx_confirmed, on_tx_opened_message,
}
use peerswap.Swap.Action.{
  await_tx_confirmation, cancel_action, check_premium_amount, claim_swap_transaction_with_preimage,
  create_swap_request, no_op_action, no_op_done, pay_fee_invoice, send_cancel_action, send_message,
  set_starting_block_height, taker_send_privkey, validate_tx_and_pay_claim_invoice,
}
use peerswap.Swap.Table.{States, state}

abbrev pub swap_out_sender_states : States
swap_out_sender_states =
    (default, state none ((on_swap_out_started, swap_out_sender_create_swap) ∷ []) false)
    ∷ (
      swap_out_sender_create_swap,
      state (some create_swap_request)
          ((action_succeeded, swap_out_sender_send_request) ∷ (action_failed, swap_canceled) ∷ [])
          true,
    )
    ∷ (
      swap_out_sender_send_request,
      state (some send_message)
          ((action_failed, swap_canceled)
            ∷ (action_succeeded, swap_out_sender_await_agreement)
            ∷ [])
          true,
    )
    ∷ (
      swap_out_sender_await_agreement,
      state (some no_op_action)
          ((on_cancel_received, swap_canceled)
            ∷ (on_timeout, send_cancel)
            ∷ (on_fee_invoice_received, swap_out_sender_pay_fee_invoice)
            ∷ (on_invalid_message, send_cancel)
            ∷ (action_failed, swap_canceled)
            ∷ [])
          true,
    )
    ∷ (
      swap_out_sender_pay_fee_invoice,
      state (some (check_premium_amount pay_fee_invoice))
          ((action_failed, send_cancel)
            ∷ (action_succeeded, swap_out_sender_await_tx_broadcasted_message)
            ∷ [])
          true,
    )
    ∷ (
      swap_out_sender_await_tx_broadcasted_message,
      state (some set_starting_block_height)
          ((on_cancel_received, swap_canceled)
            ∷ (on_tx_opened_message, swap_out_sender_await_tx_confirmation)
            ∷ (action_failed, swap_out_sender_send_privkey)
            ∷ (on_invalid_message, send_cancel)
            ∷ [])
          false,
    )
    ∷ (
      send_cancel,
      state (some send_cancel_action)
          ((action_succeeded, swap_canceled) ∷ (action_failed, swap_canceled) ∷ []) false,
    )
    ∷ (
      swap_out_sender_await_tx_confirmation,
      state (some await_tx_confirmation)
          ((action_failed, swap_out_sender_send_privkey)
            ∷ (on_tx_confirmed, swap_out_sender_validate_tx_and_pay_claim_invoice)
            ∷ [])
          false,
    )
    ∷ (
      swap_out_sender_validate_tx_and_pay_claim_invoice,
      state (some validate_tx_and_pay_claim_invoice)
          ((action_failed, swap_out_sender_send_privkey)
            ∷ (action_succeeded, swap_out_sender_claim_swap)
            ∷ [])
          false,
    )
    ∷ (
      swap_out_sender_claim_swap,
      state (some claim_swap_transaction_with_preimage)
          ((action_succeeded, claimed_preimage)
            ∷ (on_retry, swap_out_sender_claim_swap)
            ∷ (on_timeout, swap_out_sender_send_privkey)
            ∷ [])
          false,
    )
    ∷ (
      swap_out_sender_send_privkey,
      state (some taker_send_privkey)
          ((action_failed, send_cancel) ∷ (action_succeeded, swap_out_sender_send_coop_close) ∷ [])
          false,
    )
    ∷ (
      swap_out_sender_send_coop_close,
      state (some send_message)
          ((action_failed, send_cancel) ∷ (action_succeeded, claimed_coop) ∷ []) false,
    )
    ∷ (swap_canceled, state (some cancel_action) ([]) false)
    ∷ (claimed_preimage, state (some no_op_done) ([]) false)
    ∷ (claimed_coop, state (some no_op_done) ([]) false)
    ∷ []
