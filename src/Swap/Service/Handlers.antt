-- ===== src/Swap/Service/Handlers.antt =====
-- The handlers of swap/service.go that hand a message, a callback of a watcher, a payment or a
-- timeout to the state machine of an active swap.
use peerswap.Prelude.{
  ℕ, ◌/◌, ◌%◌, List, [], ◌∷◌, ◌++◌, true, false, Bool, Option, none, some, if◌then◌else◌,
}
use peerswap.Prelude.Equality.{◌==◌, string_eq}
use peerswap.Prelude.Text.{String, codes, concat, hex_text}
use peerswap.Swap.Error.{Error, ok, err}
use peerswap.Swap.Hex.{parse_swap_id}
use peerswap.Swap.Message.{
  PeerMessage, SwapInAgreementMessage, SwapOutAgreementMessage, OpeningTxBroadcastedMessage,
  CancelMessage, CoopCloseMessage,
}
use peerswap.Swap.State.{
  EventType, action_failed, on_fee_invoice_paid, on_claim_invoice_paid, on_fee_invoice_received,
  swap_in_sender_on_agreement_received, event_eq,
}
use peerswap.Swap.Services.{SwapServices, InvoiceType, invoice_claim, invoice_fee}
use peerswap.Swap.Flow.{Progress, Flow}
use peerswap.Swap.Action.Send.{send_message_action}
use peerswap.Swap.Machine.{SwapStateMachine, World}
use peerswap.Swap.Service.{get_active_swap}
use peerswap.Swap.Service.Serving.{
  Service, served, crashed, Serving, ◌>>=◌, ◌>>◌, give, check, active_swap, remove, remove_if, send,
  put_swap, logged,
}

-- `SwapId.String` as a text.
abbrev pub swap_id_text : List ℕ → String
swap_id_text [] = ""
swap_id_text (b ∷ rest) = concat (hex_text (b / 16) ∷ hex_text (b % 16) ∷ swap_id_text rest ∷ [])

-- `SendEvent`, then the error goes back, or a finished swap leaves the active ones.
unfoldable pub drive :
    World → String → SwapStateMachine → EventType → Option PeerMessage → Serving (Unit {0})
unfolding send remove_if
drive w id m event context = do
  sent ← send w id m event context
  check sent.error
  remove_if sent.done m.swap_id

-- The handlers of a message or a payment for an active swap.
unfoldable pub deliver : World → String → EventType → Option PeerMessage → Serving (Unit {0})
unfolding drive
deliver w id event context = do m ← active_swap id; drive w id m event context

unfoldable pub on_swap_in_agreement_received : World → SwapInAgreementMessage → Serving (Unit {0})
unfolding deliver
on_swap_in_agreement_received w msg =
    deliver w msg.swap_id swap_in_sender_on_agreement_received
      (some (PeerMessage.swap_in_agreement msg))

unfoldable pub on_swap_out_agreement_received : World → SwapOutAgreementMessage → Serving (Unit {0})
unfolding deliver
on_swap_out_agreement_received w msg =
    deliver w msg.swap_id on_fee_invoice_received (some (PeerMessage.swap_out_agreement msg))

unfoldable pub on_tx_opened_message : World → OpeningTxBroadcastedMessage → Serving (Unit {0})
unfolding deliver
on_tx_opened_message w msg =
    deliver w msg.swap_id EventType.on_tx_opened_message
      (some (PeerMessage.opening_tx_broadcasted msg))

unfoldable pub on_cancel_received : World → CancelMessage → Serving (Unit {0})
unfolding deliver
on_cancel_received w msg =
    deliver w msg.swap_id EventType.on_cancel_received (some (PeerMessage.cancel msg))

unfoldable pub on_coop_close_received : World → CoopCloseMessage → Serving (Unit {0})
unfolding deliver
on_coop_close_received w msg =
    deliver w msg.swap_id EventType.on_coop_close_received (some (PeerMessage.coop_close msg))

unfoldable pub on_fee_invoice_notification : World → String → Serving (Unit {0})
unfolding deliver
on_fee_invoice_notification w id = deliver w id on_fee_invoice_paid none

unfoldable pub on_claim_invoice_notification : World → String → Serving (Unit {0})
unfolding deliver
on_claim_invoice_notification w id = deliver w id on_claim_invoice_paid none

-- A payment of an invoice; an error is logged.
unfoldable pub on_payment : World → String → InvoiceType → Serving (Unit {0})
unfolding on_fee_invoice_notification on_claim_invoice_notification
on_payment w text invoice_fee = elim (parse_swap_id (codes text)) [
  | err e ↦ give tt
  | ok id ↦ logged (on_fee_invoice_notification w (swap_id_text id))
]
on_payment w text invoice_claim = elim (parse_swap_id (codes text)) [
  | err e ↦ give tt
  | ok id ↦ logged (on_claim_invoice_notification w (swap_id_text id))
]

-- Whether the error is that the table has no such event.
abbrev pub is_rejection : Option Error → Bool
is_rejection (some Error.event_rejected) = true
is_rejection _ = false

-- The same, where an event that the table does not have is no error.
unfoldable pub notify : World → String → SwapStateMachine → EventType → Serving (Unit {0})
unfolding send remove_if
notify w id m event = do
  sent ← send w id m event none
  if is_rejection sent.error then give tt else do check sent.error; remove_if sent.done m.swap_id

-- A failed confirmation: the error that is stored is the one of the lookup, which is nil.
unfoldable pub confirmation_failed : World → String → SwapStateMachine → Serving SwapStateMachine
unfolding send remove_if
confirmation_failed w id m = do
  let failed : SwapStateMachine = record m { swap = record (m.swap) { last_err = none } }
  sent ← send w id failed action_failed none
  remove_if sent.done m.swap_id
  give sent.machine

-- The callback of the watcher goes on after a failure. The two events see different worlds.
unfoldable pub on_tx_confirmed : World → World → String → String → Option Error → Serving (Unit {0})
unfolding notify confirmation_failed
on_tx_confirmed w w' id tx_hex got_err = do
  m ← active_swap id
  seen ← elim got_err [ none ↦ give m | some e ↦ confirmation_failed w id m ]
  notify w' id (record seen { swap = record (seen.swap) { opening_tx_hex = tx_hex } })
      EventType.on_tx_confirmed

-- A swap that is not active any more is no error.
unfoldable pub on_csv_passed : World → String → Serving (Unit {0})
unfolding notify get_active_swap
on_csv_passed w id s = elim (get_active_swap id s.active) [
  | err e ↦ served tt s
  | ok m ↦ notify w id m EventType.on_csv_passed s
]

unfoldable pub sender_on_tx_confirmed : World → String → Serving (Unit {0})
unfolding send remove
sender_on_tx_confirmed w id = do
  m ← active_swap id
  sent ← send w id m EventType.on_tx_confirmed none
  check sent.error
  remove m.swap_id

-- `createTimeoutCallback`: an error of the event is logged.
unfoldable pub timeout_callback : World → String → Serving (Unit {0})
unfolding notify get_active_swap
timeout_callback w id s = elim (get_active_swap id s.active) [
  | err e ↦ served tt s
  | ok m ↦
      logged
        (notify w id (record m { swap = record (m.swap) { to_cancel = false } })
          EventType.on_timeout)
        s
]

-- The data and the calls of an action that was run outside of the machine, and its error.
abbrev pub after_end : String → SwapStateMachine → EventType → Progress → Serving (Unit {0})
after_end id m e p s =
    let t : Service = record s {
      active = put_swap id (record m { swap = p.swap }) s.active;
      effects = p.effects ++ s.effects;
    } in
    if e == action_failed then check p.swap.last_err t else served tt t

abbrev pub after_message : String → SwapStateMachine → Flow EventType → Serving (Unit {0})
after_message id m (Flow.next e p) s = after_end id m e p s
after_message id m (Flow.stop e p) s = after_end id m e p s
after_message id m (Flow.panic p) s = crashed s

-- `ResendLastMessage`.
unfoldable pub resend_last_message : SwapServices → String → Serving (Unit {0})
unfolding put_swap send_message_action
resend_last_message services id = do
  m ← active_swap id
  after_message id m (send_message_action services (record { swap = m.swap; effects = [] }))

-- `isMessageSenderExpectedPeer`.
unfoldable pub is_message_sender_expected_peer : String → String → Serving Bool
is_message_sender_expected_peer sender id = do
  m ← active_swap id
  give (m.swap.peer_node_id == sender)
