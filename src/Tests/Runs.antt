-- ===== src/Tests/Runs.antt =====
-- Whole runs of the machine, computed.
use peerswap.Prelude.{◌≡◌, refl, none}
use peerswap.Swap.State.{
  swap_canceled, claimed_coop, swap_in_sender_await_claim_payment,
  swap_in_sender_on_agreement_received, on_timeout, event_beq, state_beq,
}
use peerswap.Swap.Action.Execute.{execute}
use peerswap.Swap.Action.Opening.{
  check_premium_amount_action, create_and_broadcast_opening_transaction_action,
}
use peerswap.Swap.Action.Send.{
  send_message_action, send_message_with_retry_action, taker_send_privkey_action,
  send_cancel_message_action, cancel_done_action, no_op_done_action,
}
use peerswap.Swap.Action.Await.{await_payment_or_csv_action}
use peerswap.Swap.Action.Params.{label, get_opening_params}
use peerswap.Swap.Flow.{◌>>=◌}
use peerswap.Swap.Services.{get_on_chain_services}
use peerswap.Swap.Data.{
  get_id, get_chain, new_swap_data, get_protocol_version, get_claim_amount, get_opening_tx_amount,
}
use peerswap.Swap.Timelock.{get_timelock_policy}
use peerswap.Swap.Machine.{send_event}
use peerswap.Tests.World.{world, blind_world, agreed_maker, paid_out_sender}

-- With the agreement a maker funds the swap, announces it and waits for the payment.
agreed_maker_waits :
    (send_event world agreed_maker swap_in_sender_on_agreement_received none).machine.current
    ≡ swap_in_sender_await_claim_payment
unfolding send_event event_beq state_beq execute check_premium_amount_action ◌>>=◌
    create_and_broadcast_opening_transaction_action get_on_chain_services get_chain new_swap_data
    get_timelock_policy get_protocol_version get_claim_amount get_opening_tx_amount
    send_message_with_retry_action await_payment_or_csv_action get_opening_params label get_id
agreed_maker_waits = refl

-- If the block height cannot be had after the opening transaction is out, the swap is canceled.
funded_maker_cancels :
    (send_event blind_world agreed_maker swap_in_sender_on_agreement_received none).machine.current
    ≡ swap_canceled
unfolding send_event event_beq state_beq execute check_premium_amount_action ◌>>=◌
    create_and_broadcast_opening_transaction_action get_on_chain_services get_chain new_swap_data
    get_timelock_policy get_protocol_version get_claim_amount get_opening_tx_amount
    send_message_with_retry_action await_payment_or_csv_action get_opening_params label get_id
    send_cancel_message_action cancel_done_action
funded_maker_cancels = refl

-- A swap-out sender that has paid and is claiming gives its key to the maker at the timeout.
paid_out_sender_gives_key :
    (send_event world paid_out_sender on_timeout none).machine.current ≡ claimed_coop
unfolding send_event event_beq state_beq execute ◌>>=◌ taker_send_privkey_action send_message_action
    no_op_done_action
paid_out_sender_gives_key = refl
