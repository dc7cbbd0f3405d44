-- ===== src/PeerSync/Sweep/Guarded.antt =====
-- To whom a round of polls sends.
use peerswap.Prelude.{ℕ, ◌≡◌, Bool, true, false, not, ◌&&◌, List, [], ◌∷◌, All, if_rule}
use peerswap.Prelude.Text.{String}
use peerswap.Swap.Error.{result_rule}
use peerswap.Bolt.{Bolt, Transactions, Answer, gives, fails}
use peerswap.PeerSync.{Peer}
use peerswap.PeerSync.Handler.{PeerJson}
use peerswap.Messages.{messagetype_request_poll}
use peerswap.PeerSync.Poller.{should_poll, allow_request}
use peerswap.PeerSync.Sweep.{
  Round, has_peer, Polling, poll_peer, poll_each, request_peer, request_each,
  request_unknown_connected_peers, poll_peers, connected_peers, is_none, get_all_peer_states,
  type_of, ids,
}

-- A message was sent: its receiver is not suspicious, and the messenger took it.
pub record IsGuarded (round : Round) (m : String × ℕ) : Type 0 where
  pub calm : round.suspects m.0 ≡ false
  pub taken : is_none (round.send m.0 m.1) ≡ true

module _ (b : Bolt) (tx : Transactions) (json : PeerJson) (round : Round) (force : Bool) where
  record Sends (st : Polling b tx json) : Type 0 where
    guarded : All (IsGuarded round) st.sent

  poll_peer-Sends :
      (p : Peer) (st : Polling b tx json) → Sends st → Sends (poll_peer b tx json round force p st)
  unfolding poll_peer
  poll_peer-Sends p st h =
      if_rule Sends (not force && not (should_poll round.now p)) _ _ (λ _. h)
        λ _.
          if_rule Sends (round.suspects p.id) _ _ (λ _. h)
            λ calm.
              if_rule Sends (is_none (round.send p.id (type_of b tx json round p))) _ _
                (λ taken. record { guarded = (record { calm = calm; taken = taken }, h.guarded) })
                (λ _. h)

  poll_each-Sends :
      (ps : List Peer) (st : Polling b tx json)
      → Sends st
      → Sends (poll_each b tx json round force ps st)
  poll_each-Sends [] st h = h
  poll_each-Sends (p ∷ ps) st h = poll_each-Sends ps _ (poll_peer-Sends p st h)

  request_peer-Sends :
      (known : List String) (peer : String) (st : Polling b tx json)
      → Sends st
      → Sends (request_peer b tx json round force known peer st)
  unfolding request_peer
  request_peer-Sends known peer st h =
      if_rule Sends (has_peer known peer) _ _ (λ _. h)
        λ _.
          if_rule Sends (round.suspects peer) _ _ (λ _. h)
            λ calm.
              if_rule Sends
                (not (allow_request round.request_interval peer round.now force st.times).0) _ _
                (λ _. h)
                λ _.
                  if_rule Sends (is_none (round.send peer messagetype_request_poll)) _ _
                    (λ taken. record {
                      guarded = (record { calm = calm; taken = taken }, h.guarded);
                    })
                    (λ _. record { guarded = h.guarded })

  request_each-Sends :
      (known ps : List String) (st : Polling b tx json)
      → Sends st
      → Sends (request_each b tx json round force known ps st)
  request_each-Sends known [] st h = h
  request_each-Sends known (p ∷ ps) st h =
      request_each-Sends known ps _ (request_peer-Sends known p st h)

  requested-Sends :
      (known : List String) (st : Polling b tx json)
      → Sends st
      → Sends (request_unknown_connected_peers b tx json round force known st)
  unfolding request_unknown_connected_peers
  requested-Sends known st h =
      result_rule Sends round.list_peers _ _ (λ e _. h)
        (λ connected _.
          request_each-Sends known (connected_peers connected) _ (record { guarded = h.guarded }))

  polled :
      (o : Answer (List Peer)) (st : Polling b tx json)
      → Sends st
      → Sends (elim o [
        | fails e ↦ st
        | gives peers ↦
            request_unknown_connected_peers b tx json round force
              (ids b tx json peers)
              (poll_each b tx json round force peers st)
      ])
  polled (fails e) st h = h
  polled (gives peers) st h = requested-Sends (ids b tx json peers) _ (poll_each-Sends peers st h)

-- A round of polls, forced or not, sends only to peers that are not suspicious, whether the store knows
-- them or not.
pub poll_peers-IsGuarded :
    (b : Bolt) (tx : Transactions) (json : PeerJson) (round : Round) (force : Bool)
    (st : Polling b tx json)
    → All (IsGuarded round) st.sent
    → All (IsGuarded round) (poll_peers b tx json round force st).sent
unfolding poll_peers
poll_peers-IsGuarded b tx json round force st h =
    (polled b tx json round force (get_all_peer_states b tx json round st.store) st
      (record { guarded = h })).guarded
