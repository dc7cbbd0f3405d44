-- ===== src/Swap/Service/Heard.antt =====
-- Who can change an active swap by a message.
use peerswap.Prelude.{
  ℕ, ◌*◌, ◌≡◌, refl, true, false, List, length, Option, none, some, ltb, inl, inr, ◌⊎◌, Bool,
  if◌then◌else◌, Bool-cases, ap, ◌∙◌,
}
use peerswap.Prelude.Equality.{◌==◌, nat_eq, string_eq}
use peerswap.Prelude.Text.{String}
use peerswap.Prelude.Int.{ℤ, pos, negsuc}
use peerswap.Messages.{
  messagetype_swapinrequest, messagetype_swapoutrequest, messagetype_swapinagreement,
  messagetype_swapoutagreement, messagetype_openingtxbroadcasted, messagetype_canceled,
  messagetype_coopclose,
}
use peerswap.Messages.Hex.{
  TypeError, malformed, not_peerswap_custom_message, peerswap_custom_message_type,
}
use peerswap.Swap.Error.{Error, Result, ok, err, Result-cases}
use peerswap.Swap.Message.{
  PeerMessage, SwapInRequestMessage, SwapOutRequestMessage, SwapOutAgreementMessage,
  SwapInAgreementMessage, OpeningTxBroadcastedMessage, CancelMessage, CoopCloseMessage,
}
use peerswap.Swap.State.{EventType, on_fee_invoice_received, swap_in_sender_on_agreement_received}
use peerswap.Swap.Machine.{SwapStateMachine, World}
use peerswap.Swap.Machine.SameSwap.{is_request}
use peerswap.Swap.Service.{get_active_swap}
use peerswap.Swap.Service.Serving.{
  Service, Served, Serving, served, refused, crashed, unfinished, give, refuse,
}
use peerswap.Swap.Service.Handlers.{
  drive, deliver, on_swap_in_agreement_received, on_swap_out_agreement_received,
  on_tx_opened_message, on_cancel_received, on_coop_close_received,
}
use peerswap.Swap.Service.Requests.{
  Fresh, on_swap_in_request_received, on_swap_out_request_received,
}
use peerswap.Swap.Service.Receive.{
  Json, with_message, from_peer, dispatch, on_message_received, unexpected_peer,
}

-- The service that an outcome leaves.
abbrev pub left : {A : Type 0} → Served A → Service
left (served a s) = s
left (refused e s) = s
left (crashed s) = s
left (unfinished s) = s

-- An event for an active swap of the peer, with a message that is no request.
pub record ForPeer (w : World) (peer : String) (s : Service) (o : Served (Unit {0})) : Type 0 where
  pub id : String
  pub machine : SwapStateMachine
  pub event : EventType
  pub message : PeerMessage
  pub no_request : is_request message ≡ false
  pub is_active : get_active_swap id s.active ≡ ok machine
  pub of_peer : machine.swap.peer_node_id ≡ peer
  pub outcome_is : o ≡ drive w id machine event (some message) s

-- What a message of a peer comes to: nothing changes; or it is the request of a new swap; or it is an
-- event for an active swap of that peer.
abbrev pub Heard : World → Fresh → String → Service → Served (Unit {0}) → Type 0
Heard w fresh peer s o =
    (left o ≡ s)
    ⊎ ((msg : SwapInRequestMessage) × (o ≡ on_swap_in_request_received w fresh peer msg s))
    ⊎ ((msg : SwapOutRequestMessage) × (o ≡ on_swap_out_request_received w fresh peer msg s))
    ⊎ ForPeer w peer s o

module _ (w : World) (fresh : Fresh) (peer : String) (s : Service) where
  record Hears (m : Serving (Unit {0})) : Type 0 where
    heard : Heard w fresh peer s (m s)

  decoded-Hears :
      {A : Type 0} (r : Result (Option A)) (f : A → Serving (Unit {0}))
      → ((a : A) → Hears (f a))
      → Hears (with_message r f)
  unfolding with_message
  decoded-Hears (err e) f h = record { heard = inl refl }
  decoded-Hears (ok none) f h = record { heard = inl refl }
  decoded-Hears (ok (some a)) f h = h a

  if-Hears : (b : Bool) (m n : Serving (Unit {0})) → Hears m → Hears n → Hears (if b then m else n)
  if-Hears true m n h g = h
  if-Hears false m n h g = g

  delivered :
      (id : String) (e : EventType) (msg : PeerMessage) (m : SwapStateMachine)
      → get_active_swap id s.active ≡ ok m
      → deliver w id e (some msg) s ≡ drive w id m e (some msg) s
  unfolding deliver
  delivered id e msg m h = rw h

  stranger :
      (id : String) (h : Serving (Unit {0})) (x : Error)
      → get_active_swap id s.active ≡ err x
      → from_peer peer id h s ≡ refused x s
  unfolding from_peer
  stranger id h x g = rw g

  known :
      (id : String) (h : Serving (Unit {0})) (m : SwapStateMachine)
      → get_active_swap id s.active ≡ ok m
      → from_peer peer id h s
        ≡ (if m.swap.peer_node_id == peer then h else refuse (unexpected_peer peer id)) s
  unfolding from_peer
  known id h m g = rw g

  delivered-Hears :
      (id : String) (e : EventType) (msg : PeerMessage)
      → is_request msg ≡ false
      → Hears (from_peer peer id (deliver w id e (some msg)))
  delivered-Hears id e msg r = record {
    heard = elim (Result-cases (get_active_swap id s.active)) [
      | inl (x, gone) ↦ inl (ap left (stranger id (deliver w id e (some msg)) x gone))
      | inr (m, is) ↦
          let go = known id (deliver w id e (some msg)) m is in
          elim (Bool-cases (m.swap.peer_node_id == peer)) [
            | inl his ↦ inr (
                inr (
                  inr (record {
                    id = id;
                    machine = m;
                    event = e;
                    message = msg;
                    no_request = r;
                    is_active = is;
                    of_peer = (string_eq.agrees m.swap.peer_node_id peer).0 his;
                    outcome_is = go ∙ (rw his (delivered id e msg m is));
                  })))
            | inr other ↦ inl (ap left go ∙ rw other)
          ]
    ];
  }

  dispatch-Hears :
      (json : Json) (type : ℕ) (payload : List ℕ) → Hears (dispatch w fresh json peer type payload)
  unfolding dispatch on_swap_in_agreement_received on_swap_out_agreement_received
      on_tx_opened_message on_cancel_received on_coop_close_received
  dispatch-Hears json type payload =
      let swap_in = λ (msg : SwapInRequestMessage).
        let k : Hears (on_swap_in_request_received w fresh peer msg) = record {
          heard = inr (inl (msg, refl));
        } in
        k in
      let swap_out = λ (msg : SwapOutRequestMessage).
        let k : Hears (on_swap_out_request_received w fresh peer msg) = record {
          heard = inr (inr (inl (msg, refl)));
        } in
        k in
      let nothing : Hears (give tt) = record { heard = inl refl } in
      if-Hears (type == messagetype_swapoutrequest) _ _
        (decoded-Hears (json.swap_out_request payload) _ swap_out)
        (if-Hears (type == messagetype_swapoutagreement) _ _
          (decoded-Hears (json.swap_out_agreement payload) _ (λ (msg : SwapOutAgreementMessage).
            delivered-Hears msg.swap_id on_fee_invoice_received (PeerMessage.swap_out_agreement msg)
              refl))
          (if-Hears (type == messagetype_openingtxbroadcasted) _ _
            (decoded-Hears (json.opening_tx_broadcasted payload) _
              (λ (msg : OpeningTxBroadcastedMessage).
                delivered-Hears msg.swap_id EventType.on_tx_opened_message
                  (PeerMessage.opening_tx_broadcasted msg) refl))
            (if-Hears (type == messagetype_canceled) _ _
              (decoded-Hears (json.cancel payload) _ (λ (msg : CancelMessage).
                delivered-Hears msg.swap_id EventType.on_cancel_received (PeerMessage.cancel msg)
                  refl))
              (if-Hears (type == messagetype_swapinrequest) _ _
                (decoded-Hears (json.swap_in_request payload) _ swap_in)
                (if-Hears (type == messagetype_swapinagreement) _ _
                  (decoded-Hears (json.swap_in_agreement payload) _
                    (λ (msg : SwapInAgreementMessage).
                      delivered-Hears msg.swap_id swap_in_sender_on_agreement_received
                        (PeerMessage.swap_in_agreement msg) refl))
                  (if-Hears (type == messagetype_coopclose) _ _
                    (decoded-Hears (json.coop_close payload) _ (λ (msg : CoopCloseMessage).
                      delivered-Hears msg.swap_id EventType.on_coop_close_received
                        (PeerMessage.coop_close msg) refl))
                    nothing))))))

  type-Hears :
      (json : Json) (payload : List ℕ) (r : TypeError ⊎ ℤ)
      → Hears (elim r [
        | inl malformed ↦ refuse (Error.message "could not parse hex string to message type")
        | inl not_peerswap_custom_message ↦ give tt
        | inr (pos n) ↦ dispatch w fresh json peer n payload
        | inr (negsuc n) ↦ give tt
      ])
  type-Hears json payload (inl malformed) = record { heard = inl refl }
  type-Hears json payload (inl not_peerswap_custom_message) = record { heard = inl refl }
  type-Hears json payload (inr (pos n)) = dispatch-Hears json n payload
  type-Hears json payload (inr (negsuc n)) = record { heard = inl refl }

  message-Hears :
      (json : Json) (type payload : List ℕ)
      → Hears (on_message_received w fresh json peer type payload)
  unfolding on_message_received
  message-Hears json type payload =
      if-Hears (ltb (100 * 1024) (length payload)) _ _ (record { heard = inl refl })
        (type-Hears json payload (peerswap_custom_message_type type))

-- A message of a peer changes nothing, unless it is the request of a new swap, or an event, with a
-- message that is no request, for an active swap whose peer is the sender.
pub on_message_received-Heard :
    (w : World) (fresh : Fresh) (json : Json) (peer : String) (type payload : List ℕ) (s : Service)
    → Heard w fresh peer s (on_message_received w fresh json peer type payload s)
on_message_received-Heard w fresh json peer type payload s =
    (message-Hears w fresh peer s json type payload).heard
