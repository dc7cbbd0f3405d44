-- ===== src/Swap/Service/Calls.antt =====
-- All that can happen to the service: each method of swap/service.go that changes the active swaps,
-- with its arguments and the answers of the other components.
use peerswap.Prelude.{ℕ, List, [], ◌∷◌, Option}
use peerswap.Prelude.Text.{String}
use peerswap.Swap.Error.{Error, Result}
use peerswap.Swap.Services.{SwapServices, InvoiceType}
use peerswap.Swap.Machine.{SwapStateMachine, World}
use peerswap.Swap.Service.Serving.{Service, Served, served, refused, crashed, unfinished, Serving}
use peerswap.Swap.Service.Handlers.{
  on_payment, on_tx_confirmed, on_csv_passed, sender_on_tx_confirmed, timeout_callback,
  resend_last_message,
}
use peerswap.Swap.Service.Requests.{Fresh}
use peerswap.Swap.Service.Initiate.{Order, swap_out, swap_in}
use peerswap.Swap.Service.Receive.{Json, on_message_received}
use peerswap.Swap.Service.Recovery.{recover_swaps}

pub data Call : Type 0 where
  message : World → Fresh → Json → String → List ℕ → List ℕ → Call
  payment : World → String → InvoiceType → Call
  tx_confirmed : World → World → String → String → Option Error → Call
  csv_passed : World → String → Call
  sender_tx_confirmed : World → String → Call
  timeout : World → String → Call
  resend : SwapServices → String → Call
  start_swap_out : World → Fresh → Order → Call
  start_swap_in : World → Fresh → Order → Call
  restart : (ℕ → World) → Result (List SwapStateMachine) → Call

unfoldable pub perform : Call → Serving (Unit {0})
unfolding on_message_received on_payment on_tx_confirmed on_csv_passed sender_on_tx_confirmed
    timeout_callback resend_last_message swap_out swap_in recover_swaps
perform (message w fresh json peer type payload) =
    on_message_received w fresh json peer type payload
perform (payment w text type) = on_payment w text type
perform (tx_confirmed w w' id tx_hex e) = on_tx_confirmed w w' id tx_hex e
perform (csv_passed w id) = on_csv_passed w id
perform (sender_tx_confirmed w id) = sender_on_tx_confirmed w id
perform (timeout w id) = timeout_callback w id
perform (resend services id) = resend_last_message services id
perform (start_swap_out w fresh o) = swap_out w fresh o
perform (start_swap_in w fresh o) = swap_in w fresh o
perform (restart w stored) = recover_swaps w stored

abbrev pub empty_service : Service
empty_service = record { active = []; effects = [] }

-- What follows a call: an error goes to the caller, a panic ends the program.
abbrev pub continue_with : (Service → Service) → Served (Unit {0}) → Service
continue_with k (served u t) = k t
continue_with k (refused e t) = k t
continue_with k (crashed t) = t
continue_with k (unfinished t) = t

-- The calls one after the other, from the start of the program.
unfoldable pub serve : List Call → Service → Service
unfolding perform
serve [] s = s
serve (c ∷ calls) s = continue_with (serve calls) (perform c s)
