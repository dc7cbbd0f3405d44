-- ===== src/Swap/Machine/Terms.antt =====
-- An event without a message, or a restart, leaves the terms of a swap: the peers, the role, the key
-- and the requests.
use peerswap.Prelude.{
  ℕ, zero, suc, ◌+◌, ◌≡◌, refl, true, List, [], ◌∷◌, Option, none, some, ltb, if_rule, option_rule,
  Bool,
}
use peerswap.Prelude.Equality.{◌==◌}
use peerswap.Swap.Error.{Error, result_rule}
use peerswap.Swap.State.{state_eq, EventType, event_eq, no_op, done, on_retry}
use peerswap.Swap.Services.{Effect, stored}
use peerswap.Swap.Flow.{Progress, Flow, next, stop, panic}
use peerswap.Swap.Flow.Keeps.{KeepsFlow}
use peerswap.Swap.Action.Execute.{execute}
use peerswap.Swap.Action.Execute.Kinds.{Kind, Terms, terms, Made, Allows, allows}
use peerswap.Swap.Action.{
  Action, check_premium_amount, set_blinding_key, stop_send_message_with_retry, add_suspicious_peer,
  check_request,
}
use peerswap.Swap.Action.Execute.Calls.{execute-Keeps}
use peerswap.Swap.Table.{lookup}
use peerswap.Swap.Machine.{
  SwapStateMachine, World, Run, enter, conclude, after_event, after_action, event_loop, loop_fuel,
  store_and_loop, send_event, get_next_state, action_of, recover, later, after_recovery,
}

abbrev pub every_call : Kind → Bool
every_call k = true

module _ (c : Terms) where
  abbrev pub Same : Terms → List Effect → Type 0
  Same t es = t ≡ c

  pub Same-Allows : Allows every_call Same
  Same-Allows = record { adds = λ t es e g h. h }

  every_action : (a : Action) → allows every_call a ≡ true
  every_action (check_premium_amount a) = every_action a
  every_action (set_blinding_key a) = every_action a
  every_action (stop_send_message_with_retry a) = every_action a
  every_action (add_suspicious_peer a) = every_action a
  every_action (check_request a) = every_action a
  every_action _ = refl

  pub record RunHas (r : Run) : Type 0 where
    pub holds : terms r.machine.swap ≡ c

  module _ (rest : SwapStateMachine → List Effect → EventType → Run)
      (goes_on : (m : SwapStateMachine) (es : List Effect) (e : EventType)
        → terms m.swap ≡ c
        → RunHas (rest m es e)) where
    after_event-RunHas :
        (m : SwapStateMachine) (es : List Effect) (e : EventType)
        → terms m.swap ≡ c
        → RunHas (after_event rest m es e)
    unfolding after_event
    after_event-RunHas m es done h = record { holds = h }
    after_event-RunHas m es no_op h = record { holds = h }
    after_event-RunHas m es on_retry h =
        if_rule RunHas (ltb 20 (m.retries + 1)) _ _ (λ _. record { holds = h })
          (λ _. goes_on (record m { retries = m.retries + 1 }) es on_retry h)
    after_event-RunHas m es _ h = goes_on m es _ h

    after_action-RunHas :
        (o : Option Error) (m : SwapStateMachine) (es : List Effect) (e : EventType)
        → terms m.swap ≡ c
        → RunHas (after_action rest o m es e)
    unfolding after_action
    after_action-RunHas (some x) m es e h = record { holds = h }
    after_action-RunHas none m es e h = after_event-RunHas m (stored m.current m.swap ∷ es) e h

  conclude-RunHas :
      (f : EventType → Progress → Run) (g : Progress → Run) (r : Flow EventType)
      → ((e : EventType) (p : Progress) → Made Same p → RunHas (f e p))
      → ((p : Progress) → Made Same p → RunHas (g p))
      → KeepsFlow (Made Same) r
      → RunHas (conclude f g r)
  conclude-RunHas f g (next e p) hf hg h = hf e p h
  conclude-RunHas f g (stop e p) hf hg h = hf e p h.1
  conclude-RunHas f g (panic p) hf hg h = hg p h

  event_loop-RunHas :
      (w : World) (fuel n : ℕ) (m : SwapStateMachine) (es : List Effect) (e : EventType)
      → terms m.swap ≡ c
      → RunHas (event_loop w fuel n m es e)
  unfolding event_loop
  event_loop-RunHas w zero n m es e h = record { holds = h }
  event_loop-RunHas w (suc fuel) n m es e h =
      result_rule RunHas (get_next_state m e) _ _ (λ _ _. record { holds = h })
        λ s _.
          option_rule RunHas (action_of m s) _ _ (λ _. record { holds = h })
            λ a _.
              conclude-RunHas _ _
                (execute (w n) a (record { swap = (enter m s).swap; effects = es }))
                (λ event p made.
                  after_action-RunHas (event_loop w fuel (suc n))
                    (λ m' es' e'. event_loop-RunHas w fuel (suc n) m' es' e') (w n).update_data
                    (record (enter m s) { swap = p.swap }) p.effects event made)
                (λ p made. record { holds = made })
                ((execute-Keeps every_call Same-Allows refl (w n) a (every_action a)).at _ h)

  pub store_and_loop-RunHas :
      (w : World) (m : SwapStateMachine) (e : EventType)
      → terms m.swap ≡ c
      → RunHas (store_and_loop w m e)
  unfolding store_and_loop
  store_and_loop-RunHas w m e h =
      option_rule RunHas (w 0).update_data _ _
        (λ _. event_loop-RunHas w loop_fuel 1 m (stored m.current m.swap ∷ []) e h)
        (λ _ _. record { holds = h })

  -- An event without a message.
  pub plain_event-RunHas :
      (w : World) (m : SwapStateMachine) (e : EventType)
      → terms m.swap ≡ c
      → RunHas (send_event w m e none)
  unfolding send_event
  plain_event-RunHas w m e h =
      if_rule RunHas (e == done) _ _ (λ _. record { holds = h })
        (λ _. store_and_loop-RunHas w m e h)

  after_recovery-RunHas :
      (w : World) (m : SwapStateMachine) (es : List Effect) (e : EventType)
      → terms m.swap ≡ c
      → RunHas (after_recovery w m es e)
  after_recovery-RunHas w m es no_op h = record { holds = h }
  after_recovery-RunHas w m es _ h = record { holds = (plain_event-RunHas (later w) m _ h).holds }

  pub recover-RunHas : (w : World) (m : SwapStateMachine) → terms m.swap ≡ c → RunHas (recover w m)
  unfolding recover
  recover-RunHas w m h =
      option_rule RunHas (lookup m.current m.states) _ _ (λ _. record { holds = h })
        λ st found.
          option_rule RunHas st.action _ _ (λ _. record { holds = h })
            λ a acts.
              if_rule RunHas st.fail_on_recover _ _
                (λ _. plain_event-RunHas w m EventType.action_failed h)
                λ _.
                  conclude-RunHas _ _ (execute (w 0) a (record { swap = m.swap; effects = [] }))
                    (λ event p made.
                      option_rule RunHas (w 0).update_data _ _
                        (λ _.
                          after_recovery-RunHas w (record m { swap = p.swap })
                            (stored m.current p.swap ∷ p.effects) event made)
                        (λ _ _. record { holds = made }))
                    (λ p made. record { holds = made })
                    ((execute-Keeps every_call Same-Allows refl (w 0) a (every_action a)).at _ h)
