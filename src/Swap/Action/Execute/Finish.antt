-- ===== src/Swap/Action/Execute/Finish.antt =====
-- An action ends with an event that the loop of the state machine handles, or with a panic.
use peerswap.Prelude.{ℕ, zero, suc, Option, some}
use peerswap.Prelude.Text.{String}
use peerswap.Swap.Error.{Error, Result, ok, err}
use peerswap.Swap.State.{EventType}
use peerswap.Swap.Timelock.{TimelockPolicy}
use peerswap.Swap.Services.{SwapServices, OnChain, Invoice}
use peerswap.Swap.Flow.{Act}
use peerswap.Swap.Flow.Keeps.{Keeps}
use peerswap.Swap.Flow.Ends.{Ends, Anything, ends_rules}
use peerswap.Swap.Action.{
  Action, create_swap_request, send_message, send_message_with_retry, no_op_action, no_op_done,
  pay_fee_invoice, set_starting_block_height, send_cancel_action, await_tx_confirmation,
  validate_tx_and_pay_claim_invoice, claim_swap_transaction_with_preimage, taker_send_privkey,
  cancel_action, create_and_broadcast_opening_transaction, await_payment_or_csv, await_csv,
  claim_swap_transaction_with_csv, claim_swap_transaction_coop, create_swap_out_from_request,
  await_fee_invoice_payment, swap_in_receiver_init, check_premium_amount, set_blinding_key,
  stop_send_message_with_retry, add_suspicious_peer, check_request,
}
use peerswap.Swap.Action.Params.{get_opening_params}
use peerswap.Swap.Action.Request.{
  check_request_action, swap_in_receiver_init_action, set_blinding_key_action,
  create_swap_out_from_request_action, create_swap_request_action, set_liquid_payment_window_anchor,
}
use peerswap.Swap.Action.Opening.{
  check_premium_amount_action, create_and_broadcast_opening_transaction_action,
}
use peerswap.Swap.Action.Claim.{
  claim_swap_transaction_with_preimage_action, claim_swap_transaction_with_csv_action,
  claim_swap_transaction_coop_action,
}
use peerswap.Swap.Action.Send.{
  send_message_action, send_message_with_retry_action, stop_send_message_with_retry_action,
  send_cancel_message_action, taker_send_privkey_action, no_op_done_action, cancel_done_action,
  add_suspicious_peer_action,
}
use peerswap.Swap.Action.Await.{
  await_payment_or_csv_action, await_csv_action, await_fee_invoice_payment_action,
  await_tx_confirmation_action, set_starting_block_height_action, check_invoice, check_height,
}
use peerswap.Swap.Action.Pay.{
  pay_fee_invoice_action, check_tick, pay_or, pay_loop, validate_tx_and_pay_claim_invoice_action,
}
use peerswap.Swap.Action.Execute.{execute}

params_ends : (s : SwapServices) → Keeps Anything (get_opening_params s)
unfolding get_opening_params
params_ends s = search ends_rules depth 40

anchor_ends : (s : SwapServices) → Keeps Anything (set_liquid_payment_window_anchor s)
unfolding set_liquid_payment_window_anchor
anchor_ends s = search ends_rules depth 40

check_invoice_ends :
    (o : OnChain) (t : TimelockPolicy) (i : Invoice) (x : String)
    → Keeps Anything (check_invoice o t i x)
unfolding check_invoice
check_invoice_ends o t i x = search ends_rules depth 40

check_height_ends : (o : OnChain) (t : TimelockPolicy) (n : ℕ) → Keeps Anything (check_height o t n)
unfolding check_height
check_height_ends o t n = search ends_rules depth 40

check_tick_ends : (o : OnChain) (t : TimelockPolicy) (n : ℕ) → Keeps Anything (check_tick o t n)
unfolding check_tick
check_tick_ends o t n = search ends_rules depth 40

ruleset part_rules =
    (ends_rules, params_ends, anchor_ends, check_invoice_ends, check_height_ends, check_tick_ends)

pay_or_ends :
    {A : Type 0} (r : Result A) (f : Error → Act EventType) (g : A → Act EventType)
    → ((e : Error) → Ends (f e))
    → ((a : A) → Ends (g a))
    → Ends (pay_or r f g)
unfolding pay_or
pay_or_ends (ok a) f g h k = k a
pay_or_ends (err e) f g h k = h e

pay_loop_ends :
    (s : SwapServices) (o : OnChain) (t : TimelockPolicy) (n round : ℕ) (last : Option Error)
    → Ends (pay_loop s o t n round last)
unfolding pay_loop
pay_loop_ends s o t zero round last = search ends_rules depth 10
pay_loop_ends s o t (suc n) round last =
    let again = λ (e : Error). pay_loop_ends s o t n (suc round) (some e) in
    search (part_rules, pay_or_ends, again) depth 40

-- The actions that run another one.
premium_ends : (m : Act EventType) → Ends m → Ends (check_premium_amount_action m)
unfolding check_premium_amount_action
premium_ends m h = search part_rules depth 60

blinding_ends : (s : SwapServices) (m : Act EventType) → Ends m → Ends (set_blinding_key_action s m)
unfolding set_blinding_key_action
blinding_ends s m h = search part_rules depth 60

stop_send_ends : (m : Act EventType) → Ends m → Ends (stop_send_message_with_retry_action m)
unfolding stop_send_message_with_retry_action
stop_send_ends m h = search part_rules depth 60

suspicious_ends :
    (s : SwapServices) (m : Act EventType) → Ends m → Ends (add_suspicious_peer_action s m)
unfolding add_suspicious_peer_action
suspicious_ends s m h = search part_rules depth 60

check_request_ends :
    (s : SwapServices) (m : Act EventType) → Ends m → Ends (check_request_action s m)
unfolding check_request_action
check_request_ends s m h = search part_rules depth 60

-- Whatever the services answer, an action ends with one of the six events that the loop handles.
pub execute-Ends : (s : SwapServices) (a : Action) → Ends (execute s a)
unfolding execute create_swap_request_action send_message_action send_message_with_retry_action
    no_op_done_action pay_fee_invoice_action set_starting_block_height_action
    send_cancel_message_action await_tx_confirmation_action
    claim_swap_transaction_with_preimage_action taker_send_privkey_action cancel_done_action
    create_and_broadcast_opening_transaction_action await_payment_or_csv_action await_csv_action
    claim_swap_transaction_with_csv_action claim_swap_transaction_coop_action
    create_swap_out_from_request_action await_fee_invoice_payment_action
    swap_in_receiver_init_action validate_tx_and_pay_claim_invoice_action
    check_premium_amount_action set_blinding_key_action stop_send_message_with_retry_action
    add_suspicious_peer_action check_request_action
execute-Ends s create_swap_request = search part_rules depth 60
execute-Ends s send_message = search part_rules depth 60
execute-Ends s send_message_with_retry = search part_rules depth 60
execute-Ends s no_op_done = search part_rules depth 60
execute-Ends s pay_fee_invoice = search part_rules depth 60
execute-Ends s set_starting_block_height = search part_rules depth 60
execute-Ends s send_cancel_action = search part_rules depth 60
execute-Ends s await_tx_confirmation = search part_rules depth 60
execute-Ends s claim_swap_transaction_with_preimage = search part_rules depth 60
execute-Ends s taker_send_privkey = search part_rules depth 60
execute-Ends s cancel_action = search part_rules depth 60
execute-Ends s create_and_broadcast_opening_transaction = search part_rules depth 60
execute-Ends s await_payment_or_csv = search part_rules depth 60
execute-Ends s await_csv = search part_rules depth 60
execute-Ends s claim_swap_transaction_with_csv = search part_rules depth 60
execute-Ends s claim_swap_transaction_coop = search part_rules depth 60
execute-Ends s create_swap_out_from_request = search part_rules depth 60
execute-Ends s await_fee_invoice_payment = search part_rules depth 60
execute-Ends s swap_in_receiver_init = search part_rules depth 60
execute-Ends s no_op_action = search ends_rules
execute-Ends s validate_tx_and_pay_claim_invoice = search (part_rules, pay_loop_ends) depth 60
execute-Ends s (check_premium_amount a) = premium_ends (execute s a) (execute-Ends s a)
execute-Ends s (set_blinding_key a) = blinding_ends s (execute s a) (execute-Ends s a)
execute-Ends s (stop_send_message_with_retry a) = stop_send_ends (execute s a) (execute-Ends s a)
execute-Ends s (add_suspicious_peer a) = suspicious_ends s (execute s a) (execute-Ends s a)
execute-Ends s (check_request a) = check_request_ends s (execute s a) (execute-Ends s a)
