-- ===== src/Swap/Service/Receive.antt =====
-- `OnMessageReceived` of swap/service.go: what becomes of a custom message of a peer. What decodes
-- its payload is `encoding/json`, a parameter; the log of the messages is left out.
use peerswap.Prelude.{
  ℕ, ◌*◌, List, [], ◌∷◌, length, Option, none, some, inl, inr, ltb, if◌then◌else◌,
}
use peerswap.Prelude.Equality.{◌==◌, nat_eq}
use peerswap.Prelude.Text.{String, concat}
use peerswap.Prelude.Int.{pos, negsuc}
use peerswap.Messages.{
  messagetype_swapinrequest, messagetype_swapoutrequest, messagetype_swapinagreement,
  messagetype_swapoutagreement, messagetype_openingtxbroadcasted, messagetype_canceled,
  messagetype_coopclose,
}
use peerswap.Messages.Hex.{malformed, not_peerswap_custom_message, peerswap_custom_message_type}
use peerswap.Swap.Error.{Error, Result, ok, err}
use peerswap.Swap.Message.{
  SwapInRequestMessage, SwapInAgreementMessage, SwapOutRequestMessage, SwapOutAgreementMessage,
  OpeningTxBroadcastedMessage, CancelMessage, CoopCloseMessage,
}
use peerswap.Swap.Machine.{World}
use peerswap.Swap.Service.Serving.{Serving, ◌>>=◌, give, refuse, crash}
use peerswap.Swap.Service.Handlers.{
  on_swap_in_agreement_received, on_swap_out_agreement_received, on_tx_opened_message,
  on_cancel_received, on_coop_close_received, is_message_sender_expected_peer,
}
use peerswap.Swap.Service.Requests.{
  Fresh, on_swap_in_request_received, on_swap_out_request_received,
}

-- A payload decodes to a message, or, if it is the JSON text `null`, to the nil pointer.
abbrev pub Decoder : Type 0 → Type 0
Decoder A = List ℕ → Result (Option A)

pub record Json : Type 0 where
  pub swap_in_request : Decoder SwapInRequestMessage
  pub swap_out_request : Decoder SwapOutRequestMessage
  pub swap_in_agreement : Decoder SwapInAgreementMessage
  pub swap_out_agreement : Decoder SwapOutAgreementMessage
  pub opening_tx_broadcasted : Decoder OpeningTxBroadcastedMessage
  pub cancel : Decoder CancelMessage
  pub coop_close : Decoder CoopCloseMessage

-- The message is decoded; the log reads its swap id, so that a nil pointer is followed.
unfoldable pub with_message :
    {A : Type 0} → Result (Option A) → (A → Serving (Unit {0})) → Serving (Unit {0})
with_message (err e) f = refuse e
with_message (ok none) f = crash
with_message (ok (some msg)) f = f msg

abbrev pub unexpected_peer : String → String → Error
unexpected_peer peer id = Error.message (
    concat ("received a message from an unexpected peer, peerId: " ∷ peer ∷ ", swapId: " ∷ id ∷ []))

-- Only the peer of the swap may go on with it.
unfoldable pub from_peer : String → String → Serving (Unit {0}) → Serving (Unit {0})
unfolding is_message_sender_expected_peer
from_peer peer id handler = do
  expected ← is_message_sender_expected_peer peer id
  if expected then handler else refuse (unexpected_peer peer id)

-- The switch on the type of the message.
unfoldable pub dispatch : World → Fresh → Json → String → ℕ → List ℕ → Serving (Unit {0})
unfolding with_message from_peer
dispatch w fresh json peer type payload =
    if type == messagetype_swapoutrequest
    then with_message (json.swap_out_request payload) (on_swap_out_request_received w fresh peer)
    else if type == messagetype_swapoutagreement
    then with_message (json.swap_out_agreement payload)
        (λ msg. from_peer peer msg.swap_id (on_swap_out_agreement_received w msg))
    else if type == messagetype_openingtxbroadcasted
    then with_message (json.opening_tx_broadcasted payload)
        (λ msg. from_peer peer msg.swap_id (on_tx_opened_message w msg))
    else if type == messagetype_canceled
    then with_message (json.cancel payload)
        (λ msg. from_peer peer msg.swap_id (on_cancel_received w msg))
    else if type == messagetype_swapinrequest
    then with_message (json.swap_in_request payload) (on_swap_in_request_received w fresh peer)
    else if type == messagetype_swapinagreement
    then with_message (json.swap_in_agreement payload)
        (λ msg. from_peer peer msg.swap_id (on_swap_in_agreement_received w msg))
    else if type == messagetype_coopclose
    then with_message (json.coop_close payload)
        (λ msg. from_peer peer msg.swap_id (on_coop_close_received w msg))
    else give tt

unfoldable pub on_message_received :
    World → Fresh → Json → String → List ℕ → List ℕ → Serving (Unit {0})
unfolding dispatch
on_message_received w fresh json peer type_text payload =
    if ltb (100 * 1024) (length payload)
    then refuse (Error.message "Payload is unexpectedly large")
    else elim (peerswap_custom_message_type type_text) [
      | inl malformed ↦ refuse (Error.message "could not parse hex string to message type")
      | inl not_peerswap_custom_message ↦ give tt
      | inr (pos type) ↦ dispatch w fresh json peer type payload
      | inr (negsuc n) ↦ give tt
    ]
