-- ===== src/Swap/Machine/Steps.antt =====
-- A set of states and kinds of call that a table closes, followed through `send_event` and
-- `recover`, whatever the events, the messages and the answers of the services are.
use peerswap.Prelude.{
  ℕ, zero, suc, ◌+◌, ◌≡◌, refl, Bool, true, List, [], ◌∷◌, ◌++◌, Option, none, some, arith, all,
  ltb, both_left, both_right, if_rule, option_rule,
}
use peerswap.Prelude.Equality.{◌==◌}
use peerswap.Swap.Error.{Error, result_rule}
use peerswap.Swap.Message.{PeerMessage}
use peerswap.Swap.State.{StateType, EventType, state_eq, event_eq, no_op, done, on_retry}
use peerswap.Swap.Services.{Effect, stored}
use peerswap.Swap.Flow.{Progress, Flow, next, stop, panic}
use peerswap.Swap.Flow.Keeps.{KeepsFlow}
use peerswap.Swap.Action.Execute.{execute}
use peerswap.Swap.Action.Execute.Kinds.{Kind, common, kind, AllOf, Made, Terms, Allows}
use peerswap.Swap.Action.Execute.Calls.{execute-Keeps}
use peerswap.Swap.Table.{lookup}
use peerswap.Swap.Context.{validate, apply}
use peerswap.Swap.Machine.{
  SwapStateMachine, World, Run, enter, conclude, after_event, after_action, event_loop, loop_fuel,
  store_and_loop, behind, later, after_recovery, send_event, recover, get_next_state, action_of,
}
use peerswap.Swap.Machine.Start.{from_store}
use peerswap.Swap.Machine.Region.{IsClosed, next-region, action-allows}

pub AllOf-append :
    (k : Kind → Bool) (xs ys : List Effect) → AllOf k xs → AllOf k ys → AllOf k (xs ++ ys)
AllOf-append k [] ys h g = g
AllOf-append k (x ∷ xs) ys h g =
    let rest = AllOf-append k xs ys (both_right (k (kind x)) _ h) g in
    ground (arith, both_left _ (all (λ e. k (kind e)) xs) h)

-- A statement on the calls alone.
abbrev Calls : (Kind → Bool) → Terms → List Effect → Type 0
Calls k t es = AllOf k es

Calls-Allows : (k : Kind → Bool) → Allows k (Calls k)
Calls-Allows k = record { adds = λ t es e g h. ground arith }

-- The table that the machine has, and the one that it has after a restart, close the set.
abbrev pub ClosedFor : (StateType → Bool) → (Kind → Bool) → SwapStateMachine → Type 0
ClosedFor region k m = IsClosed m.states region k × IsClosed (from_store m).states region k

-- The machine is in the set, its table does not leave the set, and its calls are of the kinds.
pub record Stays (region : StateType → Bool) (k : Kind → Bool) (m : SwapStateMachine)
    (es : List Effect) : Type 0 where
  pub closed : ClosedFor region k m
  pub here : region m.current ≡ true
  pub calls : AllOf k es

module _ (region : StateType → Bool) (k : Kind → Bool) where
  abbrev pub RunStays : Run → Type 0
  RunStays r = Stays region k r.machine r.effects

  module _ (rest : SwapStateMachine → List Effect → EventType → Run)
      (goes_on : (m : SwapStateMachine) (es : List Effect) (e : EventType)
        → Stays region k m es
        → RunStays (rest m es e)) where
    after_event-Stays :
        (m : SwapStateMachine) (es : List Effect) (e : EventType)
        → Stays region k m es
        → RunStays (after_event rest m es e)
    unfolding after_event
    after_event-Stays m es done h = h
    after_event-Stays m es no_op h = h
    after_event-Stays m es on_retry h =
        if_rule RunStays (ltb 20 (m.retries + 1)) _ _
          (λ _. record { closed = h.closed; here = h.here; calls = h.calls })
          (λ _.
            goes_on (record m { retries = m.retries + 1 }) es on_retry
              (record { closed = h.closed; here = h.here; calls = h.calls }))
    after_event-Stays m es _ h = goes_on m es _ h

    after_action-Stays :
        (o : Option Error) (m : SwapStateMachine) (es : List Effect) (e : EventType)
        → k common ≡ true
        → Stays region k m es
        → RunStays (after_action rest o m es e)
    unfolding after_action
    after_action-Stays (some x) m es e u h = h
    after_action-Stays none m es e u h =
        after_event-Stays m (stored m.current m.swap ∷ es) e
          (record { closed = h.closed; here = h.here; calls = ground (arith, h.calls, u) })

  conclude-Stays :
      (P : Progress → Type 0) (f : EventType → Progress → Run) (g : Progress → Run)
      (r : Flow EventType)
      → ((e : EventType) (p : Progress) → P p → RunStays (f e p))
      → ((p : Progress) → P p → RunStays (g p))
      → KeepsFlow P r
      → RunStays (conclude f g r)
  conclude-Stays P f g (next e p) hf hg h = hf e p h
  conclude-Stays P f g (stop e p) hf hg h = hf e p h.1
  conclude-Stays P f g (panic p) hf hg h = hg p h

  module _ (usual : k common ≡ true) where
    -- The action of a state of the set, and what the machine does with its event.
    event_loop-Stays :
        (w : World) (fuel n : ℕ) (m : SwapStateMachine) (es : List Effect) (e : EventType)
        → Stays region k m es
        → RunStays (event_loop w fuel n m es e)
    unfolding event_loop
    event_loop-Stays w zero n m es e h = h
    event_loop-Stays w (suc fuel) n m es e h =
        result_rule RunStays (get_next_state m e) _ _ (λ _ _. h)
          λ s next_s.
            option_rule RunStays (action_of m s) _ _ (λ _. h)
              λ a acts.
                let there = next-region region k m e s h.closed.0 h.here next_s in
                let may = action-allows region k m s a h.closed.0 there acts in
                conclude-Stays (Made (Calls k)) _ _
                  (execute (w n) a (record { swap = (enter m s).swap; effects = es }))
                  (λ event p made.
                    after_action-Stays (event_loop w fuel (suc n))
                      (λ m' es' e'. event_loop-Stays w fuel (suc n) m' es' e') (w n).update_data
                      (record (enter m s) { swap = p.swap }) p.effects event usual
                      (record { closed = h.closed; here = there; calls = made }))
                  (λ p made. record { closed = h.closed; here = there; calls = made })
                  ((execute-Keeps k (Calls-Allows k) usual (w n) a may).at _ h.calls)

    pub store_and_loop-Stays :
        (w : World) (m : SwapStateMachine) (e : EventType)
        → ClosedFor region k m
        → region m.current ≡ true
        → RunStays (store_and_loop w m e)
    unfolding store_and_loop
    store_and_loop-Stays w m e c r =
        option_rule RunStays (w 0).update_data _ _
          (λ _.
            event_loop-Stays w loop_fuel 1 m (stored m.current m.swap ∷ []) e
              (record { closed = c; here = r; calls = ground (arith, usual) }))
          (λ x _. record { closed = c; here = r; calls = refl })

    pub send_event-Stays :
        (w : World) (m : SwapStateMachine) (e : EventType) (context : Option PeerMessage)
        → ClosedFor region k m
        → region m.current ≡ true
        → RunStays (send_event w m e context)
    unfolding send_event
    send_event-Stays w m e context c r =
        if_rule RunStays (e == done) _ _ (λ _. record { closed = c; here = r; calls = refl })
          λ _.
            option_rule RunStays context _ _ (λ _. store_and_loop-Stays w m e c r)
              λ msg _.
                result_rule RunStays (validate m.swap msg) _ _
                  (λ _ _. store_and_loop-Stays w m EventType.on_invalid_message c r)
                  λ _ _.
                    result_rule RunStays (apply m.swap msg) _ _
                      (λ _ _. record { closed = c; here = r; calls = refl })
                      (λ d _. store_and_loop-Stays w (record m { swap = d }) e c r)

    behind-Stays : (es : List Effect) (r : Run) → AllOf k es → RunStays r → RunStays (behind es r)
    behind-Stays es r h g = record {
      closed = g.closed;
      here = g.here;
      calls = AllOf-append k r.effects es g.calls h;
    }

    after_recovery-Stays :
        (w : World) (m : SwapStateMachine) (es : List Effect) (e : EventType)
        → Stays region k m es
        → RunStays (after_recovery w m es e)
    after_recovery-Stays w m es no_op h = h
    after_recovery-Stays w m es _ h =
        behind-Stays es (send_event (later w) m _ none) h.calls
          (send_event-Stays (later w) m _ none h.closed h.here)

    -- A restart takes up the action of the state again.
    pub recover-Stays :
        (w : World) (m : SwapStateMachine)
        → ClosedFor region k m
        → region m.current ≡ true
        → RunStays (recover w m)
    unfolding recover action_of
    recover-Stays w m c r =
        let same : Stays region k m [] = record { closed = c; here = r; calls = refl } in
        option_rule RunStays (lookup m.current m.states) _ _ (λ _. same)
          λ st found.
            option_rule RunStays st.action _ _ (λ _. same)
              λ a acts.
                if_rule RunStays st.fail_on_recover _ _
                  (λ _. send_event-Stays w m EventType.action_failed none c r)
                  λ _.
                    let may =
                      action-allows region k m m.current a c.0 r (ground (arith, found, acts)) in
                    conclude-Stays (Made (Calls k)) _ _
                      (execute (w 0) a (record { swap = m.swap; effects = [] }))
                      (λ event p made.
                        option_rule RunStays (w 0).update_data _ _
                          (λ _.
                            after_recovery-Stays w (record m { swap = p.swap })
                              (stored m.current p.swap ∷ p.effects) event
                              (record {
                                closed = c;
                                here = r;
                                calls = ground (arith, usual, made);
                              }))
                          (λ _ _. record { closed = c; here = r; calls = made }))
                      (λ p made. record { closed = c; here = r; calls = made })
                      ((execute-Keeps k (Calls-Allows k) usual (w 0) a may).at _ refl)
