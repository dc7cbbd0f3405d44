-- ===== src/Swap/Table/SwapInSender.antt =====
-- swap/swap_in_sender.go: the states of a swap-in sender, and what each does with which event.
use peerswap.Prelude.{true, false, [], ◌∷◌, none, some}
use peerswap.Swap.State.{
  claimed_coop, claimed_csv, claimed_preimage, default, send_cancel, swap_canceled,
  swap_in_sender_await_agreement, swap_in_sender_await_claim_payment,
  swap_in_sender_broadcast_opening_tx, swap_in_sender_claim_swap_coop,
  swap_in_sender_claim_swap_csv, swap_in_sender_create_swap, swap_in_sender_send_request,
  swap_in_sender_send_tx_broadcasted_message, wait_csv, action_failed, action_succeeded,
  on_cancel_received, on_claim_invoice_paid, on_coop_close_received, on_csv_passed,
  on_invalid_message, on_retry, on_timeout, swap_in_sender_on_agreement_received,
  swap_in_sender_on_swap_in_requested,
}
use peerswap.Swap.Action.{
  add_suspicious_peer, await_csv, await_payment_or_csv, cancel_action, check_premium_amount,
  claim_swap_transaction_coop, claim_swap_transaction_with_csv,
  create_and_broadcast_opening_transaction, create_swap_request, no_op_action, no_op_done,
  send_cancel_action, send_message, send_message_with_retry, set_blinding_key,
  stop_send_message_with_retry,
}
use peerswap.Swap.Table.{States, state}

abbrev pub swap_in_sender_states : States
swap_in_sender_states =
    (
      default,
      state none ((swap_in_sender_on_swap_in_requested, swap_in_sender_create_swap) ∷ []) false,
    )
    ∷ (
      swap_in_sender_create_swap,
      state (some (set_blinding_key create_swap_request))
          ((action_succeeded, swap_in_sender_send_request) ∷ (action_failed, swap_canceled) ∷ [])
          true,
    )
    ∷ (
      swap_in_sender_send_request,
      state (some send_message)
          ((action_succeeded, swap_in_sender_await_agreement) ∷ (action_failed, swap_canceled) ∷ [])
          false,
    )
    ∷ (
      swap_in_sender_await_agreement,
      state (some no_op_action)
          ((on_cancel_received, swap_canceled)
            ∷ (on_timeout, send_cancel)
            ∷ (swap_in_sender_on_agreement_received, swap_in_sender_broadcast_opening_tx)
            ∷ (on_invalid_message, send_cancel)
            ∷ [])
          false,
    )
    ∷ (
      swap_in_sender_broadcast_opening_tx,
      state (some (check_premium_amount create_and_broadcast_opening_transaction))
          ((action_succeeded, swap_in_sender_send_tx_broadcasted_message)
            ∷ (action_failed, send_cancel)
            ∷ [])
          false,
    )
    ∷ (
      swap_in_sender_send_tx_broadcasted_message,
      state (some send_message_with_retry)
          ((action_succeeded, swap_in_sender_await_claim_payment) ∷ (action_failed, wait_csv) ∷ [])
          false,
    )
    ∷ (
      swap_in_sender_await_claim_payment,
      state (some await_payment_or_csv)
          ((on_claim_invoice_paid, claimed_preimage)
            ∷ (on_csv_passed, swap_in_sender_claim_swap_csv)
            ∷ (on_cancel_received, wait_csv)
            ∷ (on_coop_close_received, swap_in_sender_claim_swap_coop)
            ∷ (on_invalid_message, wait_csv)
            ∷ [])
          false,
    )
    ∷ (
      swap_in_sender_claim_swap_csv,
      state (some (stop_send_message_with_retry claim_swap_transaction_with_csv))
          ((action_succeeded, claimed_csv) ∷ (on_retry, swap_in_sender_claim_swap_csv) ∷ []) false,
    )
    ∷ (
      swap_in_sender_claim_swap_coop,
      state (some (stop_send_message_with_retry claim_swap_transaction_coop))
          ((action_succeeded, claimed_coop) ∷ (action_failed, wait_csv) ∷ []) false,
    )
    ∷ (
      wait_csv,
      state (some (stop_send_message_with_retry await_csv))
          ((on_csv_passed, swap_in_sender_claim_swap_csv)
            ∷ (on_coop_close_received, swap_in_sender_claim_swap_coop)
            ∷ [])
          false,
    )
    ∷ (
      send_cancel,
      state (some send_cancel_action)
          ((action_succeeded, swap_canceled) ∷ (action_failed, swap_canceled) ∷ []) false,
    )
    ∷ (swap_canceled, state (some cancel_action) ([]) false)
    ∷ (claimed_preimage, state (some no_op_done) ([]) false)
    ∷ (claimed_csv, state (some (add_suspicious_peer no_op_done)) ([]) false)
    ∷ (claimed_coop, state (some no_op_done) ([]) false)
    ∷ []
