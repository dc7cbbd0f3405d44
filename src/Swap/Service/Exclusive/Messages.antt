-- ===== src/Swap/Service/Exclusive/Messages.antt =====
-- A message of a peer keeps the active swaps one to a channel.
use peerswap.Prelude.{
  ℕ, ◌≡◌, refl, true, false, ltb, List, Option, none, some, inl, inr, Bool, if◌then◌else◌, ◌*◌,
  length, ◌⊎◌,
}
use peerswap.Prelude.Equality.{◌==◌, string_eq, nat_eq}
use peerswap.Prelude.Text.{String}
use peerswap.Prelude.Int.{ℤ, pos, negsuc}
use peerswap.Messages.{
  messagetype_swapinrequest, messagetype_swapoutrequest, messagetype_swapinagreement,
  messagetype_swapoutagreement, messagetype_openingtxbroadcasted, messagetype_canceled,
  messagetype_coopclose,
}
use peerswap.Messages.Hex.{
  TypeError, malformed, not_peerswap_custom_message, peerswap_custom_message_type,
}
use peerswap.Swap.Error.{Error, Result, ok, err}
use peerswap.Swap.Message.{
  PeerMessage, SwapInRequestMessage, SwapOutRequestMessage, SwapOutAgreementMessage,
  SwapInAgreementMessage, OpeningTxBroadcastedMessage, CancelMessage, CoopCloseMessage,
}
use peerswap.Swap.State.{EventType, on_fee_invoice_received, swap_in_sender_on_agreement_received}
use peerswap.Swap.Machine.{World}
use peerswap.Swap.Machine.SameSwap.{is_request}
use peerswap.Swap.Service.Serving.{Serving, give, refuse}
use peerswap.Swap.Service.Handlers.{
  deliver, on_swap_in_agreement_received, on_swap_out_agreement_received, on_tx_opened_message,
  on_cancel_received, on_coop_close_received,
}
use peerswap.Swap.Service.Requests.{
  Fresh, on_swap_in_request_received, on_swap_out_request_received,
}
use peerswap.Swap.Service.Receive.{
  Json, with_message, from_peer, dispatch, on_message_received, unexpected_peer,
}
use peerswap.Swap.Service.Exclusive.{SameChannel}
use peerswap.Swap.Service.Exclusive.Rules.{Any, and_then-Leaves, active-Leaves}
use peerswap.Swap.Service.Exclusive.Events.{deliver-Leaves}
use peerswap.Swap.Service.Exclusive.Orders.{
  Preserves, swap_in_request-Keeps, swap_out_request-Keeps,
}

with_message-Preserves :
    {A : Type 0} (r : Result (Option A)) (f : A → Serving (Unit {0}))
    → ((a : A) → Preserves (f a))
    → Preserves (with_message r f)
unfolding with_message
with_message-Preserves (err e) f h = record { at = λ s i. i }
with_message-Preserves (ok none) f h = record { at = λ s i. i }
with_message-Preserves (ok (some a)) f h = h a

if-Preserves :
    (b : Bool) (m n : Serving (Unit {0}))
    → Preserves m
    → Preserves n
    → Preserves (if b then m else n)
if-Preserves true m n h g = h
if-Preserves false m n h g = g

from_peer-Preserves :
    (peer id : String) (m : Serving (Unit {0})) → Preserves m → Preserves (from_peer peer id m)
unfolding from_peer
from_peer-Preserves peer id m h = record {
  at = λ s i.
      and_then-Leaves Any Any _ _
        (and_then-Leaves (λ m' t. SameChannel id m' t.active) Any _ _ (active-Leaves id s i)
          (λ m' t g c. (g, tt)))
        λ expected t g _.
          (if-Preserves expected m (refuse (unexpected_peer peer id)) h
              (record { at = λ t' g'. g' })).at
            t g;
}

deliver-Preserves :
    (w : World) (id : String) (e : EventType) (msg : PeerMessage)
    → is_request msg ≡ false
    → Preserves (deliver w id e (some msg))
deliver-Preserves w id e msg h = record { at = λ s i. deliver-Leaves w id e (some msg) s h i }

dispatch-Preserves :
    (w : World) (fresh : Fresh) (json : Json) (peer : String) (type : ℕ) (payload : List ℕ)
    → Preserves (dispatch w fresh json peer type payload)
unfolding dispatch on_swap_in_agreement_received on_swap_out_agreement_received on_tx_opened_message
    on_cancel_received on_coop_close_received
dispatch-Preserves w fresh json peer type payload =
    let swap_in = λ (msg : SwapInRequestMessage).
      let k : Preserves (on_swap_in_request_received w fresh peer msg) = record {
        at = swap_in_request-Keeps w fresh peer msg;
      } in
      k in
    let swap_out = λ (msg : SwapOutRequestMessage).
      let k : Preserves (on_swap_out_request_received w fresh peer msg) = record {
        at = swap_out_request-Keeps w fresh peer msg;
      } in
      k in
    let nothing : Preserves (give (tt {0})) = record { at = λ s i. (i, tt) } in
    let for_peer = λ (id : String) (e : EventType) (msg : PeerMessage) (r : is_request msg ≡ false).
      from_peer-Preserves peer id (deliver w id e (some msg)) (deliver-Preserves w id e msg r) in
    if-Preserves (type == messagetype_swapoutrequest) _ _
      (with_message-Preserves (json.swap_out_request payload) _ swap_out)
      (if-Preserves (type == messagetype_swapoutagreement) _ _
        (with_message-Preserves (json.swap_out_agreement payload) _
          (λ (msg : SwapOutAgreementMessage).
            for_peer msg.swap_id on_fee_invoice_received (PeerMessage.swap_out_agreement msg) refl))
        (if-Preserves (type == messagetype_openingtxbroadcasted) _ _
          (with_message-Preserves (json.opening_tx_broadcasted payload) _
            (λ (msg : OpeningTxBroadcastedMessage).
              for_peer msg.swap_id EventType.on_tx_opened_message
                (PeerMessage.opening_tx_broadcasted msg) refl))
          (if-Preserves (type == messagetype_canceled) _ _
            (with_message-Preserves (json.cancel payload) _ (λ (msg : CancelMessage).
              for_peer msg.swap_id EventType.on_cancel_received (PeerMessage.cancel msg) refl))
            (if-Preserves (type == messagetype_swapinrequest) _ _
              (with_message-Preserves (json.swap_in_request payload) _ swap_in)
              (if-Preserves (type == messagetype_swapinagreement) _ _
                (with_message-Preserves (json.swap_in_agreement payload) _
                  (λ (msg : SwapInAgreementMessage).
                    for_peer msg.swap_id swap_in_sender_on_agreement_received
                      (PeerMessage.swap_in_agreement msg) refl))
                (if-Preserves (type == messagetype_coopclose) _ _
                  (with_message-Preserves (json.coop_close payload) _ (λ (msg : CoopCloseMessage).
                    for_peer msg.swap_id EventType.on_coop_close_received
                      (PeerMessage.coop_close msg) refl))
                  nothing))))))

type-Preserves :
    (w : World) (fresh : Fresh) (json : Json) (peer : String) (payload : List ℕ) (r : TypeError ⊎ ℤ)
    → Preserves {A = Unit {0}} (elim r [
      | inl malformed ↦ refuse (Error.message "could not parse hex string to message type")
      | inl not_peerswap_custom_message ↦ give tt
      | inr (pos n) ↦ dispatch w fresh json peer n payload
      | inr (negsuc n) ↦ give tt
    ])
type-Preserves w fresh json peer payload (inl malformed) = record { at = λ s h. h }
type-Preserves w fresh json peer payload (inl not_peerswap_custom_message) = record {
  at = λ s h. (h, tt);
}
type-Preserves w fresh json peer payload (inr (pos n)) =
    dispatch-Preserves w fresh json peer n payload
type-Preserves w fresh json peer payload (inr (negsuc n)) = record { at = λ s h. (h, tt) }

pub message-Preserves :
    (w : World) (fresh : Fresh) (json : Json) (peer : String) (type payload : List ℕ)
    → Preserves (on_message_received w fresh json peer type payload)
unfolding on_message_received
message-Preserves w fresh json peer type payload =
    if-Preserves (ltb (100 * 1024) (length payload)) _ _ (record { at = λ s h. h })
      (type-Preserves w fresh json peer payload (peerswap_custom_message_type type))
