-- ===== src/Swap/Table/SwapInReceiver.antt =====
-- swap/swap_in_receiver.go: the states of a swap-in receiver, and what each does with which event.
use peerswap.Prelude.{true, false, [], ◌∷◌, none, some}
use peerswap.Swap.State.{
  claimed_coop, claimed_preimage, default, send_cancel, swap_canceled,
  swap_in_receiver_await_tx_broadcasted_message, swap_in_receiver_await_tx_confirmation,
  swap_in_receiver_claim_swap, swap_in_receiver_create_swap, swap_in_receiver_send_agreement,
  swap_in_receiver_send_coop_close, swap_in_receiver_send_privkey,
  swap_in_receiver_validate_tx_and_pay_claim_invoice, action_failed, action_succeeded,
  on_cancel_received, on_invalid_message, on_retry, on_timeout, on_tx_confirmed,
  on_tx_opened_message, swap_in_receiver_on_request_received,
}
use peerswap.Swap.Action.{
  await_tx_confirmation, cancel_action, check_request, claim_swap_transaction_with_preimage,
  no_op_done, send_cancel_action, send_message, set_starting_block_height,
  stop_send_message_with_retry, swap_in_receiver_init, taker_send_privkey,
  validate_tx_and_pay_claim_invoice,
}
use peerswap.Swap.Table.{States, state}

abbrev pub swap_in_receiver_states : States
swap_in_receiver_states =
    (
      default,
      state none
          ((swap_in_receiver_on_request_received, swap_in_receiver_create_swap)
            ∷ (on_invalid_message, send_cancel)
            ∷ [])
          false,
    )
    ∷ (
      swap_in_receiver_create_swap,
      state (some (check_request swap_in_receiver_init))
          ((action_succeeded, swap_in_receiver_send_agreement) ∷ (action_failed, send_cancel) ∷ [])
          true,
    )
    ∷ (
      swap_in_receiver_send_agreement,
      state (some send_message)
          ((action_succeeded, swap_in_receiver_await_tx_broadcasted_message)
            ∷ (action_failed, send_cancel)
            ∷ [])
          false,
    )
    ∷ (
      swap_in_receiver_await_tx_broadcasted_message,
      state (some set_starting_block_height)
          ((on_tx_opened_message, swap_in_receiver_await_tx_confirmation)
            ∷ (on_cancel_received, swap_canceled)
            ∷ (action_failed, swap_in_receiver_send_privkey)
            ∷ (on_invalid_message, send_cancel)
            ∷ (on_timeout, swap_in_receiver_send_privkey)
            ∷ [])
          false,
    )
    ∷ (
      swap_in_receiver_await_tx_confirmation,
      state (some (stop_send_message_with_retry await_tx_confirmation))
          ((on_tx_confirmed, swap_in_receiver_validate_tx_and_pay_claim_invoice)
            ∷ (action_failed, swap_in_receiver_send_privkey)
            ∷ (on_cancel_received, swap_in_receiver_send_privkey)
            ∷ [])
          false,
    )
    ∷ (
      swap_in_receiver_validate_tx_and_pay_claim_invoice,
      state (some validate_tx_and_pay_claim_invoice)
          ((action_succeeded, swap_in_receiver_claim_swap)
            ∷ (action_failed, swap_in_receiver_send_privkey)
            ∷ [])
          false,
    )
    ∷ (
      swap_in_receiver_send_privkey,
      state (some taker_send_privkey)
          ((action_failed, send_cancel) ∷ (action_succeeded, swap_in_receiver_send_coop_close) ∷ [])
          false,
    )
    ∷ (
      swap_in_receiver_send_coop_close,
      state (some send_message)
          ((action_succeeded, claimed_coop) ∷ (action_failed, send_cancel) ∷ []) false,
    )
    ∷ (
      swap_in_receiver_claim_swap,
      state (some claim_swap_transaction_with_preimage)
          ((action_succeeded, claimed_preimage) ∷ (on_retry, swap_in_receiver_claim_swap) ∷ [])
          false,
    )
    ∷ (claimed_preimage, state (some no_op_done) ([]) false)
    ∷ (
      send_cancel,
      state (some send_cancel_action)
          ((action_succeeded, swap_canceled) ∷ (action_failed, swap_canceled) ∷ []) false,
    )
    ∷ (swap_canceled, state (some cancel_action) ([]) false)
    ∷ (claimed_coop, state (some no_op_done) ([]) false)
    ∷ []
