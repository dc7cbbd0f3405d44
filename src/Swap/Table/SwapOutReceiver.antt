-- ===== src/Swap/Table/SwapOutReceiver.antt =====
-- swap/swap_out_receiver.go: the states of a swap-out receiver, and what each does with which event.
use peerswap.Prelude.{true, false, [], ◌∷◌, none, some}
use peerswap.Swap.State.{
  claimed_coop, claimed_csv, claimed_preimage, default, send_cancel, swap_canceled,
  swap_out_receiver_await_claim_invoice_payment, swap_out_receiver_await_fee_invoice_payment,
  swap_out_receiver_broadcast_opening_tx, swap_out_receiver_claim_swap_coop,
  swap_out_receiver_claim_swap_csv, swap_out_receiver_create_swap,
  swap_out_receiver_send_fee_invoice, swap_out_receiver_send_tx_broadcasted_message, wait_csv,
  action_failed, action_succeeded, on_cancel_received, on_claim_invoice_paid,
  on_coop_close_received, on_csv_passed, on_fee_invoice_paid, on_invalid_message, on_retry,
  on_swap_out_request_received,
}
use peerswap.Swap.Action.{
  add_suspicious_peer, await_csv, await_fee_invoice_payment, await_payment_or_csv, cancel_action,
  check_request, claim_swap_transaction_coop, claim_swap_transaction_with_csv,
  create_and_broadcast_opening_transaction, create_swap_out_from_request, no_op_done,
  send_cancel_action, send_message, send_message_with_retry, set_blinding_key,
  stop_send_message_with_retry,
}
use peerswap.Swap.Table.{States, state}

abbrev pub swap_out_receiver_states : States
swap_out_receiver_states =
    (
      default,
      state none
          ((on_swap_out_request_received, swap_out_receiver_create_swap)
            ∷ (on_invalid_message, send_cancel)
            ∷ [])
          false,
    )
    ∷ (
      swap_out_receiver_create_swap,
      state (some (check_request (set_blinding_key create_swap_out_from_request)))
          ((action_succeeded, swap_out_receiver_send_fee_invoice)
            ∷ (action_failed, send_cancel)
            ∷ [])
          true,
    )
    ∷ (
      swap_out_receiver_send_fee_invoice,
      state (some send_message)
          ((action_failed, send_cancel)
            ∷ (action_succeeded, swap_out_receiver_await_fee_invoice_payment)
            ∷ [])
          false,
    )
    ∷ (
      swap_out_receiver_await_fee_invoice_payment,
      state (some await_fee_invoice_payment)
          ((on_fee_invoice_paid, swap_out_receiver_broadcast_opening_tx)
            ∷ (on_cancel_received, swap_canceled)
            ∷ (action_failed, send_cancel)
            ∷ [])
          true,
    )
    ∷ (
      swap_out_receiver_broadcast_opening_tx,
      state (some create_and_broadcast_opening_transaction)
          ((action_succeeded, swap_out_receiver_send_tx_broadcasted_message)
            ∷ (action_failed, send_cancel)
            ∷ [])
          false,
    )
    ∷ (
      swap_out_receiver_send_tx_broadcasted_message,
      state (some send_message_with_retry)
          ((action_succeeded, swap_out_receiver_await_claim_invoice_payment)
            ∷ (action_failed, wait_csv)
            ∷ [])
          false,
    )
    ∷ (
      swap_out_receiver_await_claim_invoice_payment,
      state (some await_payment_or_csv)
          ((on_claim_invoice_paid, claimed_preimage)
            ∷ (on_cancel_received, wait_csv)
            ∷ (on_coop_close_received, swap_out_receiver_claim_swap_coop)
            ∷ (on_csv_passed, swap_out_receiver_claim_swap_csv)
            ∷ (on_invalid_message, wait_csv)
            ∷ [])
          false,
    )
    ∷ (
      swap_out_receiver_claim_swap_coop,
      state (some (stop_send_message_with_retry claim_swap_transaction_coop))
          ((action_succeeded, claimed_coop) ∷ (action_failed, wait_csv) ∷ []) false,
    )
    ∷ (
      wait_csv,
      state (some (stop_send_message_with_retry await_csv))
          ((on_csv_passed, swap_out_receiver_claim_swap_csv)
            ∷ (on_coop_close_received, swap_out_receiver_claim_swap_coop)
            ∷ [])
          false,
    )
    ∷ (
      swap_out_receiver_claim_swap_csv,
      state (some (stop_send_message_with_retry claim_swap_transaction_with_csv))
          ((action_succeeded, claimed_csv) ∷ (on_retry, swap_out_receiver_claim_swap_csv) ∷ [])
          false,
    )
    ∷ (
      send_cancel,
      state (some send_cancel_action)
          ((action_succeeded, swap_canceled) ∷ (action_failed, swap_canceled) ∷ []) false,
    )
    ∷ (swap_canceled, state (some cancel_action) ([]) false)
    ∷ (claimed_csv, state (some (add_suspicious_peer no_op_done)) ([]) false)
    ∷ (claimed_preimage, state (some no_op_done) ([]) false)
    ∷ (claimed_coop, state (some no_op_done) ([]) false)
    ∷ []
