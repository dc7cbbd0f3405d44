-- ===== src/Swap/Service/Exclusive/Events.antt =====
-- The handlers for active swaps keep them one to a channel.
use peerswap.Prelude.{◌≡◌, refl, true, false, [], Option, none, if_rule, option_rule, Bool}
use peerswap.Prelude.Equality.{◌==◌, string_eq}
use peerswap.Prelude.Text.{String, codes}
use peerswap.Swap.Error.{Error, result_rule}
use peerswap.Swap.Hex.{parse_swap_id}
use peerswap.Swap.Message.{PeerMessage}
use peerswap.Swap.State.{
  EventType, action_failed, on_fee_invoice_paid, on_claim_invoice_paid, event_eq,
}
use peerswap.Swap.Services.{SwapServices, InvoiceType, invoice_claim, invoice_fee}
use peerswap.Swap.Data.{get_scid}
use peerswap.Swap.Flow.{Progress, Flow, next, stop, panic}
use peerswap.Swap.Flow.Keeps.{KeepsFlow}
use peerswap.Swap.Action.Execute.Kinds.{terms}
use peerswap.Swap.Action.Execute.Plain.{send_kept}
use peerswap.Swap.Machine.Terms.{every_call, Same-Allows}
use peerswap.Swap.Machine.{SwapStateMachine, World}
use peerswap.Swap.Machine.SameSwap.{NoRequest}
use peerswap.Swap.Service.{get_active_swap}
use peerswap.Swap.Service.Serving.{Service, Serving, active_swap, send, check, remove_if}
use peerswap.Swap.Service.Handlers.{
  drive, deliver, notify, on_payment, on_fee_invoice_notification, on_claim_invoice_notification,
  confirmation_failed, on_tx_confirmed, on_csv_passed, sender_on_tx_confirmed, timeout_callback,
  after_message, after_end, resend_last_message, swap_id_text, is_rejection,
}
use peerswap.Swap.Service.Exclusive.{
  IsExclusive, SameChannel, remove-IsExclusive, put-IsExclusive, scid_of_terms,
}
use peerswap.Swap.Service.Exclusive.Rules.{
  Leaves, Any, Stays, and_then-Leaves, check-Leaves, remove-Leaves, remove_if-Leaves, logged-Leaves,
  send-Leaves, active-Leaves, SameChannel-remove, found, moved,
}

pub drive-Leaves :
    (w : World) (id : String) (m : SwapStateMachine) (e : EventType) (context : Option PeerMessage)
    (s : Service)
    → NoRequest context
    → SameChannel id m s.active
    → IsExclusive s.active
    → Leaves Any (drive w id m e context s)
unfolding drive
drive-Leaves w id m e context s r c h =
    and_then-Leaves (Stays id) Any (send w id m e context s) _
      (send-Leaves w id m e context s r c h)
      λ sent t h' _.
        and_then-Leaves Any Any (check sent.error t) _ (check-Leaves sent.error t h')
          (λ u t' g _. remove_if-Leaves sent.done m.swap_id t' g)

pub deliver-Leaves :
    (w : World) (id : String) (e : EventType) (context : Option PeerMessage) (s : Service)
    → NoRequest context
    → IsExclusive s.active
    → Leaves Any (deliver w id e context s)
unfolding deliver
deliver-Leaves w id e context s r h =
    and_then-Leaves (λ m t. SameChannel id m t.active) Any (active_swap id s) _
      (active-Leaves id s h) (λ m t g c. drive-Leaves w id m e context t r c g)

notify-Leaves :
    (w : World) (id : String) (m : SwapStateMachine) (e : EventType) (s : Service)
    → SameChannel id m s.active
    → IsExclusive s.active
    → Leaves Any (notify w id m e s)
unfolding notify
notify-Leaves w id m e s c h =
    and_then-Leaves (Stays id) Any (send w id m e none s) _ (send-Leaves w id m e none s tt c h)
      λ sent t h' _.
        if_rule (λ (f : Serving (Unit {0})). Leaves Any (f t)) (is_rejection sent.error) _ _
          (λ _. (h', tt))
          λ _.
            and_then-Leaves Any Any (check sent.error t) _ (check-Leaves sent.error t h')
              (λ u t' g _. remove_if-Leaves sent.done m.swap_id t' g)

pub payment-Leaves :
    (w : World) (text : String) (type : InvoiceType) (s : Service)
    → IsExclusive s.active
    → Leaves Any (on_payment w text type s)
unfolding on_payment
payment-Leaves w text invoice_fee s h =
    result_rule (λ (f : Serving (Unit {0})). Leaves Any (f s)) (parse_swap_id (codes text)) _ _
      (λ _ _. (h, tt))
      (λ id _.
        logged-Leaves (on_fee_invoice_notification w (swap_id_text id)) s
          (deliver-Leaves w (swap_id_text id) on_fee_invoice_paid none s tt h))
payment-Leaves w text invoice_claim s h =
    result_rule (λ (f : Serving (Unit {0})). Leaves Any (f s)) (parse_swap_id (codes text)) _ _
      (λ _ _. (h, tt))
      (λ id _.
        logged-Leaves (on_claim_invoice_notification w (swap_id_text id)) s
          (deliver-Leaves w (swap_id_text id) on_claim_invoice_paid none s tt h))

remove_if-on :
    (b : Bool) (id j : String) (m : SwapStateMachine) (s : Service)
    → SameChannel id m s.active
    → IsExclusive s.active
    → Leaves (λ (u : Unit {0}) t. SameChannel id m t.active) (remove_if b j s)
unfolding remove_if
remove_if-on true id j m s c h =
    (remove-IsExclusive j s.active h, SameChannel-remove id j m s.active c)
remove_if-on false id j m s c h = (h, c)

failed-Leaves :
    (w : World) (id : String) (m : SwapStateMachine) (s : Service)
    → SameChannel id m s.active
    → IsExclusive s.active
    → Leaves (λ n t. SameChannel id n t.active) (confirmation_failed w id m s)
unfolding confirmation_failed get_scid
failed-Leaves w id m s c h =
    let failed : SwapStateMachine = record m { swap = record (m.swap) { last_err = none } } in
    and_then-Leaves (Stays id) (λ n t. SameChannel id n t.active)
      (send w id failed action_failed none s) _
      (send-Leaves w id failed action_failed none s tt c h)
      λ sent t h' c'.
        and_then-Leaves (λ u t'. SameChannel id sent.machine t'.active)
          (λ n t'. SameChannel id n t'.active) (remove_if sent.done m.swap_id t) _
          (remove_if-on sent.done id m.swap_id sent.machine t c' h') (λ u t' g c''. (g, c''))

pub confirmed-Leaves :
    (w w' : World) (id tx_hex : String) (e : Option Error) (s : Service)
    → IsExclusive s.active
    → Leaves Any (on_tx_confirmed w w' id tx_hex e s)
unfolding on_tx_confirmed get_scid
confirmed-Leaves w w' id tx_hex e s h =
    and_then-Leaves (λ m t. SameChannel id m t.active) Any (active_swap id s) _
      (active-Leaves id s h)
      λ m t g c.
        and_then-Leaves (λ n t'. SameChannel id n t'.active) Any _ _
          (option_rule
            (λ (f : Serving SwapStateMachine). Leaves (λ n t'. SameChannel id n t'.active) (f t)) e
            _ _ (λ _. (g, c)) (λ _ _. failed-Leaves w id m t c g))
          (λ n t' g' c'.
            notify-Leaves w' id (record n { swap = record (n.swap) { opening_tx_hex = tx_hex } })
              EventType.on_tx_confirmed t' c' g')

pub csv-Leaves :
    (w : World) (id : String) (s : Service)
    → IsExclusive s.active
    → Leaves Any (on_csv_passed w id s)
unfolding on_csv_passed
csv-Leaves w id s h =
    result_rule (Leaves Any) (get_active_swap id s.active) _ _ (λ _ _. (h, tt))
      (λ m is. notify-Leaves w id m EventType.on_csv_passed s (found id s.active m is) h)

pub sender_confirmed-Leaves :
    (w : World) (id : String) (s : Service)
    → IsExclusive s.active
    → Leaves Any (sender_on_tx_confirmed w id s)
unfolding sender_on_tx_confirmed
sender_confirmed-Leaves w id s h =
    and_then-Leaves (λ m t. SameChannel id m t.active) Any (active_swap id s) _
      (active-Leaves id s h)
      λ m t g c.
        and_then-Leaves (Stays id) Any (send w id m EventType.on_tx_confirmed none t) _
          (send-Leaves w id m EventType.on_tx_confirmed none t tt c g)
          λ sent t' h' _.
            and_then-Leaves Any Any (check sent.error t') _ (check-Leaves sent.error t' h')
              (λ u t'' g' _. remove-Leaves m.swap_id t'' g')

pub timeout-Leaves :
    (w : World) (id : String) (s : Service)
    → IsExclusive s.active
    → Leaves Any (timeout_callback w id s)
unfolding timeout_callback get_scid
timeout-Leaves w id s h =
    result_rule (Leaves Any) (get_active_swap id s.active) _ _ (λ _ _. (h, tt))
      λ m is.
        let late : SwapStateMachine = record m { swap = record (m.swap) { to_cancel = false } } in
        logged-Leaves (notify w id late EventType.on_timeout) s
          (notify-Leaves w id late EventType.on_timeout s (found id s.active m is) h)

after_end-Leaves :
    (id : String) (m : SwapStateMachine) (e : EventType) (p : Progress) (s : Service)
    → terms p.swap ≡ terms m.swap
    → SameChannel id m s.active
    → IsExclusive s.active
    → Leaves Any (after_end id m e p s)
after_end-Leaves id m e p s k c h =
    let n : SwapStateMachine = record m { swap = p.swap } in
    let there = moved id m n s.active (scid_of_terms p.swap m.swap k) c in
    let kept = put-IsExclusive id n s.active there h in
    if_rule (Leaves Any) (e == action_failed) _ _ (λ _. check-Leaves p.swap.last_err _ kept)
      (λ _. (kept, tt))

sent_again-Leaves :
    (id : String) (m : SwapStateMachine) (r : Flow EventType) (s : Service)
    → KeepsFlow (λ p. terms p.swap ≡ terms m.swap) r
    → SameChannel id m s.active
    → IsExclusive s.active
    → Leaves Any (after_message id m r s)
sent_again-Leaves id m (next e p) s k c h = after_end-Leaves id m e p s k c h
sent_again-Leaves id m (stop e p) s k c h = after_end-Leaves id m e p s k.1 c h
sent_again-Leaves id m (panic p) s k c h = h

pub resend-Leaves :
    (services : SwapServices) (id : String) (s : Service)
    → IsExclusive s.active
    → Leaves Any (resend_last_message services id s)
unfolding resend_last_message
resend-Leaves services id s h =
    and_then-Leaves (λ m t. SameChannel id m t.active) Any (active_swap id s) _
      (active-Leaves id s h)
      (λ m t g c.
        sent_again-Leaves id m _ t
          ((send_kept every_call (Same-Allows (terms m.swap)) refl services).at
            (record { swap = m.swap; effects = [] }) refl)
          c g)
