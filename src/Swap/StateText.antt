-- ===== src/Swap/StateText.antt =====
-- The strings of the states and of the events (swap/states.go, swap/fsm.go), by which a stored swap
-- names its state.
pub mod Distinct
use peerswap.Prelude.Text.{String}
use peerswap.Swap.State.{StateType, EventType}

unfoldable pub state_text : StateType → String
state_text StateType.default = ""
state_text StateType.send_cancel = "State_SendCancel"
state_text StateType.swap_canceled = "State_SwapCanceled"
state_text StateType.wait_csv = "State_WaitCsv"
state_text StateType.claimed_csv = "State_ClaimedCsv"
state_text StateType.claimed_preimage = "State_ClaimedPreimage"
state_text StateType.claimed_coop = "State_ClaimedCoop"
state_text StateType.swap_out_sender_create_swap = "State_SwapOutSender_CreateSwap"
state_text StateType.swap_out_sender_send_request = "State_SwapOutSender_SendRequest"
state_text StateType.swap_out_sender_await_agreement = "State_SwapOutSender_AwaitAgreement"
state_text StateType.swap_out_sender_pay_fee_invoice = "State_SwapOutSender_PayFeeInvoice"
state_text StateType.swap_out_sender_await_tx_broadcasted_message =
    "State_SwapOutSender_AwaitTxBroadcastedMessage"
state_text StateType.swap_out_sender_await_tx_confirmation =
    "State_SwapOutSender_AwaitTxConfirmation"
state_text StateType.swap_out_sender_validate_tx_and_pay_claim_invoice =
    "State_SwapOutSender_ValidateTxAndPayClaimInvoice"
state_text StateType.swap_out_sender_claim_swap = "State_SwapOutSender_ClaimSwap"
state_text StateType.swap_out_sender_send_privkey = "State_SwapOutSender_SendPrivkey"
state_text StateType.swap_out_sender_send_coop_close = "State_SwapOutSender_SendCoopClose"
state_text StateType.swap_out_receiver_create_swap = "State_SwapOutReceiver_CreateSwap"
state_text StateType.swap_out_receiver_send_fee_invoice = "State_SwapOutReceiver_SendFeeInvoice"
state_text StateType.swap_out_receiver_await_fee_invoice_payment =
    "State_SwapOutReceiver_AwaitFeeInvoicePayment"
state_text StateType.swap_out_receiver_broadcast_opening_tx =
    "State_SwapOutReceiver_BroadcastOpeningTx"
state_text StateType.swap_out_receiver_send_tx_broadcasted_message =
    "State_SwapOutReceiver_SendTxBroadcastedMessage"
state_text StateType.swap_out_receiver_await_claim_invoice_payment =
    "State_SwapOutReceiver_AwaitClaimInvoicePayment"
state_text StateType.swap_out_receiver_claim_swap_csv = "State_SwapOutReceiver_ClaimSwapCsv"
state_text StateType.swap_out_receiver_claim_swap_coop = "State_SwapOutReceiver_ClaimSwapCoop"
state_text StateType.swap_in_sender_create_swap = "State_SwapInSender_CreateSwap"
state_text StateType.swap_in_sender_send_request = "State_SwapInSender_SendRequest"
state_text StateType.swap_in_sender_await_agreement = "State_SwapInSender_AwaitAgreement"
state_text StateType.swap_in_sender_broadcast_opening_tx = "State_SwapInSender_BroadcastOpeningTx"
state_text StateType.swap_in_sender_send_tx_broadcasted_message =
    "State_SwapInSender_SendTxBroadcastedMessage"
state_text StateType.swap_in_sender_await_claim_payment = "State_SwapInSender_AwaitClaimPayment"
state_text StateType.swap_in_sender_claim_swap_csv = "State_SwapInSender_ClaimSwapCsv"
state_text StateType.swap_in_sender_claim_swap_coop = "State_SwapInSender_ClaimSwapCoop"
state_text StateType.swap_in_receiver_create_swap = "State_SwapInReceiver_CreateSwap"
state_text StateType.swap_in_receiver_send_agreement = "State_SwapInReceiver_SendAgreement"
state_text StateType.swap_in_receiver_await_tx_broadcasted_message =
    "State_SwapInReceiver_AwaitTxBroadcastedMessage"
state_text StateType.swap_in_receiver_await_tx_confirmation =
    "State_SwapInReceiver_AwaitTxConfirmation"
state_text StateType.swap_in_receiver_validate_tx_and_pay_claim_invoice =
    "State_SwapInReceiver_ValidateTxAndPayClaimInvoice"
state_text StateType.swap_in_receiver_claim_swap = "State_SwapInReceiver_ClaimSwap"
state_text StateType.swap_in_receiver_send_privkey = "State_SwapInReceiver_SendPrivkey"
state_text StateType.swap_in_receiver_send_coop_close = "State_SwapInReceiver_SendCoopClose"

unfoldable pub event_text : EventType → String
event_text EventType.no_op = "NoOp"
event_text EventType.on_swap_out_started = "Event_OnSwapOutStarted"
event_text EventType.on_fee_invoice_received = "Event_OnFeeInvoiceReceived"
event_text EventType.on_tx_opened_message = "Event_OnTxOpenedMessage"
event_text EventType.on_tx_confirmed = "Event_OnTxConfirmed"
event_text EventType.on_retry = "Event_OnRetry"
event_text EventType.on_claimed_csv = "Event_OnClaimedCsv"
event_text EventType.on_swap_out_request_received = "Event_OnSwapOutRequestReceived"
event_text EventType.on_fee_invoice_paid = "Event_OnFeeInvoicePaid"
event_text EventType.on_claim_invoice_paid = "Event_OnClaimInvoicePaid"
event_text EventType.on_csv_passed = "Event_OnCsvPassed"
event_text EventType.on_cancel_received = "Event_OnCancelReceived"
event_text EventType.on_coop_close_received = "Event_OnCoopCloseReceived"
event_text EventType.on_timeout = "Event_OnTimeout"
event_text EventType.action_succeeded = "Event_ActionSucceeded"
event_text EventType.swap_in_sender_on_swap_in_requested = "Event_SwapInSender_OnSwapInRequested"
event_text EventType.swap_in_sender_on_agreement_received = "Event_SwapInSender_OnAgreementReceived"
event_text EventType.action_failed = "Event_ActionFailed"
event_text EventType.swap_in_receiver_on_request_received = "Event_SwapInReceiver_OnRequestReceived"
event_text EventType.done = "Event_Done"
event_text EventType.on_invalid_message = "Event_Invalid_Message"
