-- ===== src/Swap/Machine/Liveness.antt =====
-- Every event and every restart of a swap's life comes to an end.
use peerswap.Prelude.{
  ◌≤◌, ◌≡◌, refl, true, List, [], ◌∷◌, Option, none, arith, if_rule, option_rule, inl, inr, ◌⊎◌,
}
use peerswap.Swap.Message.{PeerMessage}
use peerswap.Swap.Data.{SwapType, SwapRole, swap_in, swap_out, no_type, sender, receiver}
use peerswap.Swap.State.{EventType, state_eq, no_op}
use peerswap.Swap.Services.{Effect, stored}
use peerswap.Swap.Action.Execute.{execute}
use peerswap.Swap.Action.Execute.Finish.{execute-Ends}
use peerswap.Swap.Table.{States, lookup}
use peerswap.Swap.Machine.{SwapStateMachine, World, send_event, recover, later, after_recovery}
use peerswap.Swap.Machine.Start.{from_store, states_of}
use peerswap.Swap.Machine.History.{Reaches, start, event, restart}
use peerswap.Swap.Machine.Roles.{IsMaker, IsTaker, table}
use peerswap.Swap.Machine.Termination.{
  IsRanked, IsOver, is_over, conclude-IsOver, send_event-IsOver,
}

after_recovery-IsOver :
    (w : World) (m : SwapStateMachine) (es : List Effect) (e : EventType)
    → IsRanked m.states
    → m.retries ≤ 20
    → IsOver (after_recovery w m es e)
after_recovery-IsOver w m es no_op c r = (refl, r, c)
after_recovery-IsOver w m es _ c r = send_event-IsOver (later w) m _ none c r

recover-IsOver :
    (w : World) (m : SwapStateMachine) → IsRanked m.states → m.retries ≤ 20 → IsOver (recover w m)
unfolding recover
recover-IsOver w m c r =
    option_rule IsOver (lookup m.current m.states) _ _ (λ _. (refl, r, c))
      λ st found.
        option_rule IsOver st.action _ _ (λ _. (refl, r, c))
          λ a acts.
            if_rule IsOver st.fail_on_recover _ _
              (λ _. send_event-IsOver w m EventType.action_failed none c r)
              λ _.
                conclude-IsOver _ _ (execute (w 0) a (record { swap = m.swap; effects = [] }))
                  (λ event p i.
                    option_rule IsOver (w 0).update_data _ _
                      (λ _.
                        after_recovery-IsOver w (record m { swap = p.swap })
                          (stored m.current p.swap ∷ p.effects) event c r)
                      (λ _ _. (refl, r, c)))
                  (λ p. (refl, r, c)) ((execute-Ends (w 0) a).at _)

stored-IsRanked :
    (a : SwapType) (b : SwapRole) (t : States) → IsRanked t → IsRanked (states_of a b t)
stored-IsRanked swap_in sender t h = refl
stored-IsRanked swap_in receiver t h = refl
stored-IsRanked swap_out sender t h = refl
stored-IsRanked swap_out receiver t h = refl
stored-IsRanked no_type b t h = h

history-ready :
    (m : SwapStateMachine)
    → IsRanked m.states
    → m.retries ≤ 20
    → (n : SwapStateMachine) (es : List Effect) → Reaches m n es
    → (n.retries ≤ 20) × IsRanked n.states
history-ready m c r n es start = (r, c)
history-ready m c r n es (event n' es' h w e x) =
    let (r', c') = history-ready m c r n' es' h in
    let over = send_event-IsOver w n' e x c' r' in (over.1, over.2)
history-ready m c r n es (restart n' es' h w) =
    let (r', c') = history-ready m c r n' es' h in
    let stored_c = stored-IsRanked n'.swap_type n'.role n'.states c' in
    let over = recover-IsOver w (from_store n') stored_c (omega arith) in (over.1, over.2)

table-IsRanked : (t u : States) → t ≡ u → IsRanked u → IsRanked t
table-IsRanked t u p h = cc

role-IsRanked : (m : SwapStateMachine) → IsMaker m ⊎ IsTaker m → IsRanked m.states
role-IsRanked m (inl (inl h)) = table-IsRanked m.states (table swap_in sender) h.states_are refl
role-IsRanked m (inl (inr h)) = table-IsRanked m.states (table swap_out receiver) h.states_are refl
role-IsRanked m (inr (inl h)) = table-IsRanked m.states (table swap_out sender) h.states_are refl
role-IsRanked m (inr (inr h)) = table-IsRanked m.states (table swap_in receiver) h.states_are refl

-- In the life of a swap of any role every event, with or without a message, is processed to its
-- end: after finitely many actions `SendEvent` returns, or an action panics, and so does `Recover`
-- after a restart.
pub life-is_over :
    (m : SwapStateMachine)
    → IsMaker m ⊎ IsTaker m
    → m.retries ≤ 20
    → (n : SwapStateMachine) (es : List Effect) → Reaches m n es
    → (w : World) (e : EventType) (context : Option PeerMessage)
    → (is_over (send_event w n e context).verdict ≡ true)
      × (is_over (recover w (from_store n)).verdict ≡ true)
life-is_over m h r n es reach w e x =
    let (r', c) = history-ready m (role-IsRanked m h) r n es reach in
    (
      (send_event-IsOver w n e x c r').0,
      (recover-IsOver w (from_store n) (stored-IsRanked n.swap_type n.role n.states c)
          (omega arith)).0,
    )
