-- ===== src/Swap/Machine/Safety.antt =====
-- What no sequence of events can make a role do.
use peerswap.Prelude.{◌≡◌, ◌≢◌, refl, Bool, true, false, List}
use peerswap.Swap.State.{
  StateType, send_cancel, swap_canceled, wait_csv, claimed_csv, claimed_preimage, claimed_coop,
  swap_out_sender_claim_swap, swap_out_sender_send_privkey, swap_out_sender_send_coop_close,
  swap_in_receiver_claim_swap, swap_in_receiver_send_privkey, swap_in_receiver_send_coop_close,
  swap_out_receiver_send_tx_broadcasted_message, swap_out_receiver_await_claim_invoice_payment,
  swap_out_receiver_claim_swap_csv, swap_out_receiver_claim_swap_coop,
  swap_in_sender_send_tx_broadcasted_message, swap_in_sender_await_claim_payment,
  swap_in_sender_claim_swap_csv, swap_in_sender_claim_swap_coop,
}
use peerswap.Swap.Data.{swap_in, swap_out, sender, receiver}
use peerswap.Swap.Services.{Effect}
use peerswap.Swap.Action.Execute.Kinds.{
  Kind, common, funding, preimage_spend, csv_spend, coop_spend, fee_payment, claim_payment,
  payment_watch, csv_watch, confirmation_watch, invoice, AllOf,
}
use peerswap.Swap.Machine.{SwapStateMachine}
use peerswap.Swap.Machine.History.{Reaches, history-Stays}
use peerswap.Swap.Machine.Roles.{IsMaker, IsTaker, two_roles}

abbrev any_state : StateType → Bool
any_state s = true

apart : (region : StateType → Bool) (s t : StateType) → region s ≡ true → region t ≡ false → s ≢ t
apart region s t h g p = cc

-- The calls of a maker: it funds the swap and takes its money back, and asks to be paid.
abbrev pub maker_call : Kind → Bool
maker_call fee_payment = false
maker_call claim_payment = false
maker_call preimage_spend = false
maker_call confirmation_watch = false
maker_call _ = true

-- The calls of a taker: it pays and takes the maker's money.
abbrev pub taker_call : Kind → Bool
taker_call funding = false
taker_call csv_spend = false
taker_call coop_spend = false
taker_call payment_watch = false
taker_call csv_watch = false
taker_call invoice = false
taker_call _ = true

-- A maker never pays an invoice and never spends by preimage, whatever events and restarts it sees.
pub maker-History :
    (m : SwapStateMachine)
    → IsMaker m
    → (n : SwapStateMachine) (es : List Effect) → Reaches m n es
    → AllOf maker_call es
maker-History m h n es r =
    let c = two_roles any_state maker_call swap_in swap_out sender receiver m h refl refl in
    (history-Stays any_state maker_call refl m c refl n es r).calls

-- A taker never funds a swap, never spends the opening transaction by time or with the other
-- side's key, and never asks to be paid, whatever events and restarts it sees.
pub taker-History :
    (m : SwapStateMachine)
    → IsTaker m
    → (n : SwapStateMachine) (es : List Effect) → Reaches m n es
    → AllOf taker_call es
taker-History m h n es r =
    let c = two_roles any_state taker_call swap_out swap_in sender receiver m h refl refl in
    (history-Stays any_state taker_call refl m c refl n es r).calls

-- The states of a maker whose opening transaction is announced.
abbrev pub is_announced : StateType → Bool
is_announced swap_in_sender_send_tx_broadcasted_message = true
is_announced swap_in_sender_await_claim_payment = true
is_announced swap_in_sender_claim_swap_csv = true
is_announced swap_in_sender_claim_swap_coop = true
is_announced swap_out_receiver_send_tx_broadcasted_message = true
is_announced swap_out_receiver_await_claim_invoice_payment = true
is_announced swap_out_receiver_claim_swap_csv = true
is_announced swap_out_receiver_claim_swap_coop = true
is_announced wait_csv = true
is_announced claimed_csv = true
is_announced claimed_preimage = true
is_announced claimed_coop = true
is_announced _ = false

-- The calls of a maker that has money in the swap: it makes no second opening transaction and no
-- new invoice.
abbrev pub announced_call : Kind → Bool
announced_call funding = false
announced_call invoice = false
announced_call k = maker_call k

-- A maker whose opening transaction is announced stays in the states that watch or claim it: it
-- does not cancel the swap and does not fund it a second time, whatever events and restarts it
-- sees.
pub announced-History :
    (m : SwapStateMachine)
    → IsMaker m
    → is_announced m.current ≡ true
    → (n : SwapStateMachine) (es : List Effect) → Reaches m n es
    → (is_announced n.current ≡ true) × (n.current ≢ swap_canceled) × AllOf announced_call es
announced-History m h a n es r =
    let c = two_roles is_announced announced_call swap_in swap_out sender receiver m h refl refl in
    let end = history-Stays is_announced announced_call refl m c a n es r in
    (end.here, apart is_announced n.current swap_canceled end.here refl, end.calls)

-- The states of a swap-in receiver that has paid.
abbrev pub claims : StateType → Bool
claims swap_in_receiver_claim_swap = true
claims claimed_preimage = true
claims _ = false

abbrev pub claim_call : Kind → Bool
claim_call preimage_spend = true
claim_call common = true
claim_call _ = false

-- The states of a taker behind the one that pays the claim invoice, and those that give the swap up. A
-- payment after which the next state could not be stored leaves the taker in the state before.
abbrev pub past_payment : StateType → Bool
past_payment swap_out_sender_claim_swap = true
past_payment swap_out_sender_send_privkey = true
past_payment swap_out_sender_send_coop_close = true
past_payment swap_in_receiver_claim_swap = true
past_payment swap_in_receiver_send_privkey = true
past_payment swap_in_receiver_send_coop_close = true
past_payment send_cancel = true
past_payment swap_canceled = true
past_payment claimed_preimage = true
past_payment claimed_coop = true
past_payment _ = false

abbrev pub past_call : Kind → Bool
past_call fee_payment = false
past_call claim_payment = false
past_call k = taker_call k

-- A taker in a state behind the payment of the claim invoice, or in one that gives the swap up, stays in
-- such states and pays nothing, whatever events and restarts it sees.
pub past_payment-History :
    (m : SwapStateMachine)
    → IsTaker m
    → past_payment m.current ≡ true
    → (n : SwapStateMachine) (es : List Effect) → Reaches m n es
    → (past_payment n.current ≡ true) × AllOf past_call es
past_payment-History m h a n es r =
    let c = two_roles past_payment past_call swap_out swap_in sender receiver m h refl refl in
    let end = history-Stays past_payment past_call refl m c a n es r in (end.here, end.calls)
