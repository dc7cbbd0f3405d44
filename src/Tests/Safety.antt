-- ===== src/Tests/Safety.antt =====
-- The machine's theorems on concrete swaps.
use peerswap.Prelude.{◌≡◌, ◌≢◌, refl, true, [], ◌++◌, none, inl, inr, arith}
use peerswap.Swap.Data.{swap_in, sender, receiver}
use peerswap.Swap.State.{
  swap_canceled, on_csv_passed, on_retry, on_timeout, on_cancel_received,
  swap_in_sender_on_agreement_received, event_eq, event_beq,
}
use peerswap.Swap.Action.Execute.Kinds.{AllOf}
use peerswap.Swap.Machine.{SwapStateMachine, send_event, recover, is_finished}
use peerswap.Swap.Machine.Start.{from_store}
use peerswap.Swap.Machine.History.{start, event}
use peerswap.Swap.Machine.Roles.{IsOf}
use peerswap.Swap.Machine.Safety.{
  maker_call, taker_call, announced_call, past_call, is_announced, past_payment, maker-History,
  taker-History, announced-History, past_payment-History,
}
use peerswap.Swap.Machine.Liveness.{life-is_over}
use peerswap.Swap.Machine.Termination.{is_over}
use peerswap.Swap.Machine.Finished.{finished-History, common_call}
use peerswap.Swap.Machine.Persistence.{IsStored, send_event-IsStored}
use peerswap.Tests.World.{world, agreed_maker, waiting_maker, finished_maker, paid_taker}

agreed_is : IsOf swap_in sender agreed_maker
agreed_is = record { type_is = refl; role_is = refl; states_are = refl }

waiting_is : IsOf swap_in sender waiting_maker
waiting_is = record { type_is = refl; role_is = refl; states_are = refl }

finished_is : IsOf swap_in sender finished_maker
finished_is = record { type_is = refl; role_is = refl; states_are = refl }

paid_is : IsOf swap_in receiver paid_taker
paid_is = record { type_is = refl; role_is = refl; states_are = refl }

-- The agreement leads the maker through the opening transaction to the wait for the payment.
abbrev opened : SwapStateMachine
opened = (send_event world agreed_maker swap_in_sender_on_agreement_received none).machine

maker-History_example :
    AllOf maker_call
      ((send_event world agreed_maker swap_in_sender_on_agreement_received none).effects ++ [])
maker-History_example =
    maker-History agreed_maker (inl agreed_is) opened _
      (event agreed_maker [] start world swap_in_sender_on_agreement_received none)

taker-History_example : AllOf taker_call ((send_event world paid_taker on_retry none).effects ++ [])
taker-History_example =
    taker-History paid_taker (inr paid_is) (send_event world paid_taker on_retry none).machine _
      (event paid_taker [] start world on_retry none)

announced-History_example :
    (is_announced (send_event world waiting_maker on_csv_passed none).machine.current ≡ true)
    × ((send_event world waiting_maker on_csv_passed none).machine.current ≢ swap_canceled)
    × AllOf announced_call ((send_event world waiting_maker on_csv_passed none).effects ++ [])
announced-History_example =
    announced-History waiting_maker (inl waiting_is) refl
      (send_event world waiting_maker on_csv_passed none).machine _
      (event waiting_maker [] start world on_csv_passed none)

past_payment-History_example :
    (past_payment (send_event world paid_taker on_timeout none).machine.current ≡ true)
    × AllOf past_call ((send_event world paid_taker on_timeout none).effects ++ [])
past_payment-History_example =
    past_payment-History paid_taker (inr paid_is) refl
      (send_event world paid_taker on_timeout none).machine _
      (event paid_taker [] start world on_timeout none)

life-is_over_example :
    (is_over (send_event world waiting_maker on_csv_passed none).verdict ≡ true)
    × (is_over (recover world (from_store waiting_maker)).verdict ≡ true)
life-is_over_example =
    life-is_over waiting_maker (inl (inl waiting_is)) (omega arith) waiting_maker [] start world
      on_csv_passed none

finished-History_example :
    ((send_event world finished_maker on_cancel_received none).machine.current
      ≡ finished_maker.current)
    × AllOf common_call ((send_event world finished_maker on_cancel_received none).effects ++ [])
unfolding is_finished
finished-History_example =
    finished-History finished_maker (inl (inl finished_is)) refl
      (send_event world finished_maker on_cancel_received none).machine _
      (event finished_maker [] start world on_cancel_received none)

send_event-IsStored_example : IsStored (send_event world waiting_maker on_csv_passed none)
unfolding event_beq
send_event-IsStored_example = send_event-IsStored world waiting_maker on_csv_passed none refl
