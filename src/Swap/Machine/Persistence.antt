-- ===== src/Swap/Machine/Persistence.antt =====
-- What the store holds when `SendEvent` returns.
use peerswap.Prelude.{
  ℕ, zero, suc, ◌+◌, ◌≡◌, refl, false, List, [], ◌∷◌, Option, none, some, ltb, if_rule, option_rule,
  arith,
}
use peerswap.Prelude.Equality.{◌==◌}
use peerswap.Swap.Error.{Error, result_rule}
use peerswap.Swap.Message.{PeerMessage}
use peerswap.Swap.State.{EventType, event_eq, no_op, done, on_retry}
use peerswap.Swap.Services.{Effect, stored}
use peerswap.Swap.Flow.{Progress, Flow, next, stop, panic}
use peerswap.Swap.Action.Execute.{execute}
use peerswap.Swap.Context.{validate, apply}
use peerswap.Swap.Machine.{
  SwapStateMachine, World, Run, returned, panicked, out_of_fuel, enter, conclude, after_event,
  after_action, event_loop, loop_fuel, store_and_loop, send_event, get_next_state, action_of,
}

-- Where there is no error, the last call stored the state and the data that the machine has.
abbrev pub IsStored : Run → Type 0
IsStored r = elim r.verdict [
  | returned b e ↦ elim e [
    | none ↦ (es : List Effect) × (r.effects ≡ stored r.machine.current r.machine.swap ∷ es)
    | some x ↦ Unit
  ]
  | panicked ↦ Unit
  | out_of_fuel ↦ Unit
]

module _ (rest : SwapStateMachine → List Effect → EventType → Run)
    (goes_on : (m : SwapStateMachine) (es : List Effect) (e : EventType)
      → IsStored (rest m es e)) where
  after_event-IsStored :
      (m : SwapStateMachine) (es : List Effect) (e : EventType)
      → IsStored (after_event rest m (stored m.current m.swap ∷ es) e)
  unfolding after_event
  after_event-IsStored m es done = (es, refl)
  after_event-IsStored m es no_op = (es, refl)
  after_event-IsStored m es on_retry =
      if_rule IsStored (ltb 20 (m.retries + 1)) _ _ (λ _. (es, refl)) (λ _. goes_on _ _ _)
  after_event-IsStored m es _ = goes_on m _ _

  after_action-IsStored :
      (o : Option Error) (m : SwapStateMachine) (es : List Effect) (e : EventType)
      → IsStored (after_action rest o m es e)
  unfolding after_action
  after_action-IsStored (some x) m es e = tt
  after_action-IsStored none m es e = after_event-IsStored m es e

conclude-IsStored :
    (f : EventType → Progress → Run) (g : Progress → Run) (r : Flow EventType)
    → ((e : EventType) (p : Progress) → IsStored (f e p))
    → ((p : Progress) → IsStored (g p))
    → IsStored (conclude f g r)
conclude-IsStored f g (next e p) hf hg = hf e p
conclude-IsStored f g (stop e p) hf hg = hf e p
conclude-IsStored f g (panic p) hf hg = hg p

event_loop-IsStored :
    (w : World) (fuel n : ℕ) (m : SwapStateMachine) (es : List Effect) (e : EventType)
    → IsStored (event_loop w fuel n m es e)
unfolding event_loop
event_loop-IsStored w zero n m es e = tt
event_loop-IsStored w (suc fuel) n m es e =
    result_rule IsStored (get_next_state m e) _ _ (λ _ _. tt)
      λ s _.
        option_rule IsStored (action_of m s) _ _ (λ _. tt)
          λ a _.
            conclude-IsStored _ _
              (execute (w n) a (record { swap = (enter m s).swap; effects = es }))
              (λ event p.
                after_action-IsStored (event_loop w fuel (suc n))
                  (λ m' es' e'. event_loop-IsStored w fuel (suc n) m' es' e') (w n).update_data
                  (record (enter m s) { swap = p.swap }) p.effects event)
              (λ p. tt)

store_and_loop-IsStored :
    (w : World) (m : SwapStateMachine) (e : EventType) → IsStored (store_and_loop w m e)
unfolding store_and_loop
store_and_loop-IsStored w m e =
    option_rule IsStored (w 0).update_data _ _
      (λ _. event_loop-IsStored w loop_fuel 1 m (stored m.current m.swap ∷ []) e) (λ _ _. tt)

-- When `SendEvent` returns without an error for an event other than the end of an action, the last
-- thing it did was to store the state and the data that the machine then has: a swap that waits is
-- never ahead of its store.
pub send_event-IsStored :
    (w : World) (m : SwapStateMachine) (e : EventType) (context : Option PeerMessage)
    → (e == done) ≡ false
    → IsStored (send_event w m e context)
unfolding send_event
send_event-IsStored w m e context other =
    if_rule IsStored (e == done) _ _ (λ is. ground arith)
      λ _.
        option_rule IsStored context _ _ (λ _. store_and_loop-IsStored w m e)
          λ msg _.
            result_rule IsStored (validate m.swap msg) _ _
              (λ _ _. store_and_loop-IsStored w m EventType.on_invalid_message)
              λ _ _.
                result_rule IsStored (apply m.swap msg) _ _ (λ _ _. tt)
                  (λ d _. store_and_loop-IsStored w (record m { swap = d }) e)
