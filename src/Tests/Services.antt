-- ===== src/Tests/Services.antt =====
-- The theorems on the service, on concrete calls.
use peerswap.Prelude.{ℕ, [], ◌∷◌, ◌++◌, List, none, some}
use peerswap.Prelude.Text.{codes}
use peerswap.Prelude.Int.{pos}
use peerswap.Swap.Error.{Error, ok, err}
use peerswap.Swap.Data.{btc_chain}
use peerswap.Swap.State.{swap_in_sender_on_agreement_received}
use peerswap.Swap.Machine.{send_event}
use peerswap.Swap.Machine.History.{start, event}
use peerswap.Swap.Machine.SameSwap.{IsSameSwap, history-IsSameSwap}
use peerswap.Swap.Service.Serving.{Service}
use peerswap.Swap.Service.Requests.{Fresh}
use peerswap.Swap.Service.Initiate.{Order}
use peerswap.Swap.Service.Receive.{Json, on_message_received}
use peerswap.Swap.Service.Calls.{Call, empty_service, serve}
use peerswap.Swap.Service.Exclusive.{IsExclusive}
use peerswap.Swap.Service.Exclusive.Serve.{serve-IsExclusive}
use peerswap.Swap.Service.Heard.{Heard, on_message_received-Heard}
use peerswap.Tests.World.{world, agreed_maker, in_request, out_request, in_agreement}

-- A decoder that knows one message of each type that the tests use; `null` is the empty payload.
abbrev pub json : Json
json = record {
  swap_in_request = λ bytes. ok (some in_request);
  swap_out_request = λ bytes. ok (some out_request);
  swap_in_agreement = λ bytes. ok (some in_agreement);
  swap_out_agreement = λ bytes. err (Error.message "no agreement");
  opening_tx_broadcasted = λ bytes. err (Error.message "no opening transaction");
  cancel = λ bytes. ok none;
  coop_close = λ bytes. err (Error.message "no key");
}

abbrev pub fresh : Fresh
fresh = record { swap_id = "new"; key = "key"; now = 1 }

abbrev pub order : Order
order = record {
  peer = "bob";
  chain = btc_chain;
  channel_id = "1x2x3";
  initiator = "alice";
  amount_sat = 200000;
  premium_limit_rate_ppm = pos 1000;
}

-- The types of a swap-in request, 0xa455, of its agreement, 0xa459, and of a cancel, 0xa45f.
abbrev pub request_type : List ℕ
request_type = codes "a455"

abbrev pub agreement_type : List ℕ
agreement_type = codes "a459"

abbrev pub cancel_type : List ℕ
cancel_type = codes "a45f"

-- The operator orders a swap-out; the same peer then asks for a swap-in over the same channel.
abbrev two_calls : List Call
two_calls =
    Call.start_swap_out world fresh order ∷ Call.message world fresh json "bob" request_type [] ∷ []

serve-IsExclusive_example : IsExclusive (serve two_calls empty_service).active
serve-IsExclusive_example = serve-IsExclusive two_calls empty_service tt

-- A maker that waits for the agreement with bob.
abbrev pub waiting_service : Service
waiting_service = record { active = ("swap", agreed_maker) ∷ []; effects = [] }

on_message_received-Heard_example :
    Heard world fresh "mallory" waiting_service
      (on_message_received world fresh json "mallory" agreement_type [] waiting_service)
on_message_received-Heard_example =
    on_message_received-Heard world fresh json "mallory" agreement_type [] waiting_service

history-IsSameSwap_example :
    IsSameSwap agreed_maker.swap
      (send_event world agreed_maker swap_in_sender_on_agreement_received none).machine.swap
history-IsSameSwap_example =
    history-IsSameSwap agreed_maker
      (send_event world agreed_maker swap_in_sender_on_agreement_received none).machine
      ((send_event world agreed_maker swap_in_sender_on_agreement_received none).effects ++ [])
      (event agreed_maker [] start world swap_in_sender_on_agreement_received none)
