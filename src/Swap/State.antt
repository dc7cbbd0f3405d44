-- ===== src/Swap/State.antt =====
-- The states of a swap's state machine (swap/states.go), and the events that it takes.
use mathlib.Core.Bool.{decide, decide_iff}
use peerswap.Prelude.{◌≡◌, ◌↔◌, Bool, true}
use peerswap.Prelude.Equality.{Eq}

-- `StateType`: its string constants, `Default` among them.
pub data StateType : Type 0 where
  default : StateType
  send_cancel swap_canceled wait_csv claimed_csv claimed_preimage claimed_coop : StateType
  swap_out_sender_create_swap swap_out_sender_send_request : StateType
  swap_out_sender_await_agreement swap_out_sender_pay_fee_invoice : StateType
  swap_out_sender_await_tx_broadcasted_message : StateType
  swap_out_sender_await_tx_confirmation : StateType
  swap_out_sender_validate_tx_and_pay_claim_invoice swap_out_sender_claim_swap : StateType
  swap_out_sender_send_privkey swap_out_sender_send_coop_close : StateType
  swap_out_receiver_create_swap swap_out_receiver_send_fee_invoice : StateType
  swap_out_receiver_await_fee_invoice_payment : StateType
  swap_out_receiver_broadcast_opening_tx : StateType
  swap_out_receiver_send_tx_broadcasted_message : StateType
  swap_out_receiver_await_claim_invoice_payment : StateType
  swap_out_receiver_claim_swap_csv swap_out_receiver_claim_swap_coop : StateType
  swap_in_sender_create_swap swap_in_sender_send_request : StateType
  swap_in_sender_await_agreement swap_in_sender_broadcast_opening_tx : StateType
  swap_in_sender_send_tx_broadcasted_message swap_in_sender_await_claim_payment : StateType
  swap_in_sender_claim_swap_csv swap_in_sender_claim_swap_coop : StateType
  swap_in_receiver_create_swap swap_in_receiver_send_agreement : StateType
  swap_in_receiver_await_tx_broadcasted_message : StateType
  swap_in_receiver_await_tx_confirmation : StateType
  swap_in_receiver_validate_tx_and_pay_claim_invoice swap_in_receiver_claim_swap : StateType
  swap_in_receiver_send_privkey swap_in_receiver_send_coop_close : StateType

-- `EventType`: its string constants, `NoOp` among them.
pub data EventType : Type 0 where
  no_op : EventType
  on_swap_out_started on_fee_invoice_received on_tx_opened_message on_tx_confirmed : EventType
  on_retry on_claimed_csv on_swap_out_request_received on_fee_invoice_paid : EventType
  on_claim_invoice_paid on_csv_passed on_cancel_received on_coop_close_received : EventType
  on_timeout action_succeeded swap_in_sender_on_swap_in_requested : EventType
  swap_in_sender_on_agreement_received action_failed : EventType
  swap_in_receiver_on_request_received done on_invalid_message : EventType

StateType-discrete : Discrete StateType
StateType-discrete = hlevel

EventType-discrete : Discrete EventType
EventType-discrete = hlevel

-- `==` on the strings of two states, or of two events.
unfoldable pub state_beq : StateType → StateType → Bool
unfolding StateType-discrete decide
state_beq a b = decide (StateType-discrete a b)

unfoldable pub event_beq : EventType → EventType → Bool
unfolding EventType-discrete decide
event_beq a b = decide (EventType-discrete a b)

pub state_beq_iff : (a b : StateType) → (state_beq a b ≡ true) ↔ (a ≡ b)
unfolding state_beq
state_beq_iff a b = decide_iff (StateType-discrete a b)

pub event_beq_iff : (a b : EventType) → (event_beq a b ≡ true) ↔ (a ≡ b)
unfolding event_beq
event_beq_iff a b = decide_iff (EventType-discrete a b)

instance abbrev pub state_eq : Eq StateType
state_eq = record { equal = state_beq; agrees = state_beq_iff }

instance abbrev pub event_eq : Eq EventType
event_eq = record { equal = event_beq; agrees = event_beq_iff }
