-- ===== src/Swap/Action/Send.antt =====
-- The actions that send, wait for nothing or end a swap (swap/actions.go).
use peerswap.Prelude.{none, some}
use peerswap.Prelude.Text.{String}
use peerswap.Swap.Error.{Error, error_text}
use peerswap.Swap.Message.{PeerMessage, message_type}
use peerswap.Swap.Data.{SwapData, get_id}
use peerswap.Swap.State.{EventType, done, action_succeeded}
use peerswap.Swap.Services.{SwapServices, sent, sender_added, sender_removed, marked_suspicious}
use peerswap.Swap.Flow.{
  Act, ◌>>=◌, ◌>>◌, return, read, modify, emit, emit_unless, fail, attempt, perform, if_set,
}
use peerswap.Swap.Action.Request.{set_next_message}

abbrev next_message : Act String
next_message = do
  d ← read (λ d. d)
  if_set d.next_message return (fail (Error.message "swap.NextMessage is nil"))

unfoldable pub send_message_action : SwapServices → Act EventType
send_message_action s = do
  bytes ← next_message
  d ← read (λ d. d)
  perform (s.send_message d.peer_node_id bytes d.next_message_type)
      (sent d.peer_node_id bytes d.next_message_type)
  return action_succeeded

-- The first of the repeated messages; the ticks that repeat it are not followed.
unfoldable pub send_message_with_retry_action : SwapServices → Act EventType
send_message_with_retry_action s = do
  bytes ← next_message
  d ← read (λ d. d)
  perform (s.add_sender (get_id d)) (sender_added (get_id d))
  emit_unless (s.send_message d.peer_node_id bytes d.next_message_type)
      (sent d.peer_node_id bytes d.next_message_type)
  return action_succeeded

unfoldable pub stop_send_message_with_retry_action : Act EventType → Act EventType
stop_send_message_with_retry_action rest = do id ← read get_id; emit (sender_removed id); rest

unfoldable pub send_cancel_message_action : SwapServices → Act EventType
send_cancel_message_action s = do
  d ← read (λ d. d)
  let m : PeerMessage =
      PeerMessage.cancel (record { swap_id = get_id d; message = d.cancel_message })
  bytes ← attempt (s.codec.marshal m)
  perform (s.send_message d.peer_node_id bytes (message_type m))
      (sent d.peer_node_id bytes (message_type m))
  return action_succeeded

unfoldable pub taker_send_privkey_action : SwapServices → Act EventType
taker_send_privkey_action s = do
  d ← read (λ d. d)
  set_next_message s (
      PeerMessage.coop_close
        (record { swap_id = get_id d; message = d.cancel_message; privkey = d.privkey }))
  return action_succeeded

unfoldable pub no_op_done_action : Act EventType
no_op_done_action = do id ← read get_id; emit (sender_removed id); return done

abbrev pub with_last_err_string : SwapData → SwapData
with_last_err_string d = elim d.last_err [
  | none ↦ d
  | some e ↦ record d { last_err_string = error_text e }
]

unfoldable pub cancel_done_action : Act EventType
cancel_done_action = do modify with_last_err_string; return done

-- The peer goes on the list, or the failure is logged; the next action runs in both cases.
unfoldable pub add_suspicious_peer_action : SwapServices → Act EventType → Act EventType
add_suspicious_peer_action s rest = do
  d ← read (λ d. d)
  emit_unless (s.policy.add_to_suspicious_peer_list d.peer_node_id)
      (marked_suspicious d.peer_node_id)
  rest
