-- ===== src/Swap/StateText/Distinct.antt =====
-- A state is known by its string: reading the string of a state gives the state back.
use peerswap.Prelude.{◌≡◌, refl, Option, some, none, List, [], ◌∷◌, if◌then◌else◌, arith}
use peerswap.Prelude.Text.{String}
use peerswap.Prelude.Equality.{◌==◌, string_eq}
use peerswap.Swap.State.{StateType}
use peerswap.Swap.StateText.{state_text}

-- Every state.
abbrev pub all_states : List StateType
all_states =
    StateType.default ∷ StateType.send_cancel ∷ StateType.swap_canceled ∷ StateType.wait_csv
    ∷ StateType.claimed_csv ∷ StateType.claimed_preimage ∷ StateType.claimed_coop
    ∷ StateType.swap_out_sender_create_swap ∷ StateType.swap_out_sender_send_request
    ∷ StateType.swap_out_sender_await_agreement ∷ StateType.swap_out_sender_pay_fee_invoice
    ∷ StateType.swap_out_sender_await_tx_broadcasted_message
    ∷ StateType.swap_out_sender_await_tx_confirmation
    ∷ StateType.swap_out_sender_validate_tx_and_pay_claim_invoice
    ∷ StateType.swap_out_sender_claim_swap ∷ StateType.swap_out_sender_send_privkey
    ∷ StateType.swap_out_sender_send_coop_close ∷ StateType.swap_out_receiver_create_swap
    ∷ StateType.swap_out_receiver_send_fee_invoice
    ∷ StateType.swap_out_receiver_await_fee_invoice_payment
    ∷ StateType.swap_out_receiver_broadcast_opening_tx
    ∷ StateType.swap_out_receiver_send_tx_broadcasted_message
    ∷ StateType.swap_out_receiver_await_claim_invoice_payment
    ∷ StateType.swap_out_receiver_claim_swap_csv ∷ StateType.swap_out_receiver_claim_swap_coop
    ∷ StateType.swap_in_sender_create_swap ∷ StateType.swap_in_sender_send_request
    ∷ StateType.swap_in_sender_await_agreement ∷ StateType.swap_in_sender_broadcast_opening_tx
    ∷ StateType.swap_in_sender_send_tx_broadcasted_message
    ∷ StateType.swap_in_sender_await_claim_payment ∷ StateType.swap_in_sender_claim_swap_csv
    ∷ StateType.swap_in_sender_claim_swap_coop ∷ StateType.swap_in_receiver_create_swap
    ∷ StateType.swap_in_receiver_send_agreement
    ∷ StateType.swap_in_receiver_await_tx_broadcasted_message
    ∷ StateType.swap_in_receiver_await_tx_confirmation
    ∷ StateType.swap_in_receiver_validate_tx_and_pay_claim_invoice
    ∷ StateType.swap_in_receiver_claim_swap ∷ StateType.swap_in_receiver_send_privkey
    ∷ StateType.swap_in_receiver_send_coop_close ∷ []

find_state : String → List StateType → Option StateType
find_state t [] = none
find_state t (s ∷ rest) = if state_text s == t then some s else find_state t rest

-- The state that a stored string names.
pub state_of : String → Option StateType
unfolding find_state state_text
state_of t = find_state t all_states

state_of-state_text : (s : StateType) → state_of (state_text s) ≡ some s
unfolding state_of
state_of-state_text StateType.default = refl
state_of-state_text _ = refl

-- No two states have one string, so a swap that is read back from its store is in the state in
-- which it was written.
pub state_text_injective : (s t : StateType) → state_text s ≡ state_text t → s ≡ t
state_text_injective s t h = ground (arith, state_of-state_text s, state_of-state_text t)
