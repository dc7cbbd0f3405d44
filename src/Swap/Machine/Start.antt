-- ===== src/Swap/Machine/Start.antt =====
-- The machines that the constructors of the four roles make (swap/swap_out_sender.go,
-- swap/swap_in_sender.go, swap/swap_out_receiver.go, swap/swap_in_receiver.go), and the machine that
-- is read back from the store. The swap's id, its key and the time come from outside.
use peerswap.Prelude.{none, false, ℕ}
use peerswap.Prelude.Text.{String}
use peerswap.Swap.State.{default}
use peerswap.Swap.Data.{
  SwapData, SwapType, SwapRole, swap_in, swap_out, no_type, sender, receiver, new_swap_data,
  new_swap_data_from_request,
}
use peerswap.Swap.Table.{States}
use peerswap.Swap.Table.SwapOutSender.{swap_out_sender_states}
use peerswap.Swap.Table.SwapOutReceiver.{swap_out_receiver_states}
use peerswap.Swap.Table.SwapInSender.{swap_in_sender_states}
use peerswap.Swap.Table.SwapInReceiver.{swap_in_receiver_states}
use peerswap.Swap.Machine.{SwapStateMachine}

abbrev new_machine : String → SwapType → SwapRole → States → SwapData → SwapStateMachine
new_machine id type role states d = record {
  swap_id = id;
  swap = d;
  swap_type = type;
  role = role;
  previous = default;
  current = default;
  states = states;
  retries = 0;
}

abbrev pub new_swap_out_sender_fsm : String → String → String → String → ℕ → SwapStateMachine
new_swap_out_sender_fsm id initiator peer key now =
    new_machine id swap_out sender swap_out_sender_states (new_swap_data initiator peer key now)

abbrev pub new_swap_in_sender_fsm : String → String → String → String → ℕ → SwapStateMachine
new_swap_in_sender_fsm id initiator peer key now =
    new_machine id swap_in sender swap_in_sender_states (new_swap_data initiator peer key now)

abbrev pub new_swap_out_receiver_fsm : String → String → String → ℕ → SwapStateMachine
new_swap_out_receiver_fsm id peer key now =
    new_machine id swap_out receiver swap_out_receiver_states
      (new_swap_data_from_request peer key now)

abbrev pub new_swap_in_receiver_fsm : String → String → String → ℕ → SwapStateMachine
new_swap_in_receiver_fsm id peer key now =
    new_machine id swap_in receiver swap_in_receiver_states
      (new_swap_data_from_request peer key now)

-- The table is not stored: it is looked up again by the type and the role of the swap, as
-- `RecoverSwaps` of swap/service.go does. The count of the retries, the last error and the call that
-- cancels a timeout are not stored either.
abbrev pub states_of : SwapType → SwapRole → States → States
states_of swap_in sender t = swap_in_sender_states
states_of swap_in receiver t = swap_in_receiver_states
states_of swap_out sender t = swap_out_sender_states
states_of swap_out receiver t = swap_out_receiver_states
states_of no_type role t = t

abbrev pub from_store : SwapStateMachine → SwapStateMachine
from_store m = record m {
  states = states_of m.swap_type m.role m.states;
  retries = 0;
  swap = record (m.swap) { last_err = none; to_cancel = false };
}
