-- ===== src/Swap/Machine/Termination.antt =====
-- `SendEvent` comes to an end: along the edges that the loop itself takes a state's rank falls, and
-- an action is tried again at most twenty times.
use peerswap.Prelude.{
  ℕ, zero, suc, ◌+◌, ◌≤◌, ◌≡◌, refl, Bool, true, false, List, [], ◌∷◌, Option, none, some, arith,
  all, ltb, leb, inl, inr, Option-cases, if_rule, option_rule,
}
use peerswap.Prelude.Equality.{◌==◌}
use peerswap.Swap.Error.{Error, ok, result_rule}
use peerswap.Swap.Message.{PeerMessage}
use peerswap.Swap.State.{
  StateType, EventType, state_eq, event_eq, no_op, done, on_retry, action_succeeded, action_failed,
  on_tx_confirmed,
}
use peerswap.Swap.Services.{Effect, stored}
use peerswap.Swap.Flow.{Progress, Flow, next, stop, panic}
use peerswap.Swap.Flow.Keeps.{is_internal}
use peerswap.Swap.Flow.Ends.{EndsFlow}
use peerswap.Swap.Action.Execute.{execute}
use peerswap.Swap.Action.Execute.Finish.{execute-Ends}
use peerswap.Swap.Context.{validate, apply}
use peerswap.Swap.Table.{State, States, lookup}
use peerswap.Swap.Machine.{
  SwapStateMachine, World, Run, Verdict, out_of_fuel, enter, conclude, after_event, after_action,
  event_loop, store_and_loop, send_event, get_next_state, action_of,
}
use peerswap.Swap.Machine.Region.{lookup-all}

-- No edge that the loop takes leads up.
abbrev rank : StateType → ℕ
rank StateType.swap_in_receiver_create_swap = 6
rank StateType.swap_in_receiver_send_agreement = 5
rank StateType.swap_out_sender_pay_fee_invoice = 5
rank StateType.swap_out_sender_await_tx_confirmation = 5
rank StateType.swap_in_receiver_await_tx_confirmation = 5
rank StateType.swap_out_receiver_create_swap = 4
rank StateType.swap_out_sender_await_tx_broadcasted_message = 4
rank StateType.swap_in_receiver_await_tx_broadcasted_message = 4
rank StateType.swap_out_sender_validate_tx_and_pay_claim_invoice = 4
rank StateType.swap_in_receiver_validate_tx_and_pay_claim_invoice = 4
rank StateType.swap_out_sender_create_swap = 3
rank StateType.swap_in_sender_create_swap = 3
rank StateType.swap_out_sender_send_privkey = 3
rank StateType.swap_in_receiver_send_privkey = 3
rank StateType.swap_out_receiver_send_fee_invoice = 3
rank StateType.swap_out_receiver_broadcast_opening_tx = 3
rank StateType.swap_in_sender_broadcast_opening_tx = 3
rank StateType.swap_out_sender_send_request = 2
rank StateType.swap_in_sender_send_request = 2
rank StateType.swap_out_sender_send_coop_close = 2
rank StateType.swap_in_receiver_send_coop_close = 2
rank StateType.swap_out_receiver_await_fee_invoice_payment = 2
rank StateType.swap_out_receiver_send_tx_broadcasted_message = 2
rank StateType.swap_in_sender_send_tx_broadcasted_message = 2
rank StateType.swap_out_receiver_claim_swap_coop = 2
rank StateType.swap_in_sender_claim_swap_coop = 2
rank StateType.default = 0
rank StateType.swap_canceled = 0
rank StateType.claimed_csv = 0
rank StateType.claimed_preimage = 0
rank StateType.claimed_coop = 0
rank _ = 1

rank_le : (s : StateType) → rank s ≤ 6
rank_le StateType.default = omega arith
rank_le _ = omega arith

abbrev descends : StateType → EventType → StateType → Bool
descends s action_succeeded t = ltb (rank t) (rank s)
descends s action_failed t = ltb (rank t) (rank s)
descends s on_tx_confirmed t = ltb (rank t) (rank s)
descends s on_retry t = leb (rank t) (rank s)
descends s _ t = true

abbrev entry_descends : StateType → State → Bool
entry_descends s st = all (λ edge. descends s edge.0 edge.1) st.events

abbrev pub IsRanked : States → Type 0
IsRanked t = all (λ x. entry_descends x.0 x.1) t ≡ true

next-descends :
    (m : SwapStateMachine) (e : EventType) (s : StateType)
    → IsRanked m.states
    → get_next_state m e ≡ ok s
    → descends m.current e s ≡ true
unfolding get_next_state
next-descends m e s c h = elim (Option-cases (lookup m.current m.states)) [
  | inl n ↦ ground arith
  | inr (st, g) ↦ elim (Option-cases (lookup e st.events)) [
    | inl n ↦ ground arith
    | inr (t, f) ↦
        let edges = lookup-all entry_descends m.current st m.states c g in
        ground (arith, lookup-all (descends m.current) e t st.events edges f)
  ]
]

abbrev pub is_over : Verdict → Bool
is_over out_of_fuel = false
is_over _ = true

-- The run is over, and its machine can take the next event.
abbrev pub IsOver : Run → Type 0
IsOver r = (is_over r.verdict ≡ true) × (r.machine.retries ≤ 20) × IsRanked r.machine.states

-- The fuel is enough for the states that the event can lead to.
abbrev HasFuel : ℕ → SwapStateMachine → EventType → Type 0
HasFuel fuel m e = (s : StateType) → get_next_state m e ≡ ok s → rank s + 21 ≤ fuel + m.retries

pub conclude-IsOver :
    (f : EventType → Progress → Run) (g : Progress → Run) (r : Flow EventType)
    → ((e : EventType) (p : Progress) → is_internal e ≡ true → IsOver (f e p))
    → ((p : Progress) → IsOver (g p))
    → EndsFlow r
    → IsOver (conclude f g r)
conclude-IsOver f g (next e p) hf hg h = hf e p h
conclude-IsOver f g (stop e p) hf hg h = hf e p h
conclude-IsOver f g (panic p) hf hg h = hg p

module _ (rest : SwapStateMachine → List Effect → EventType → Run) where
  -- The state that was entered has fuel for every event that its action may end with.
  after_event-IsOver :
      (fuel : ℕ) (m : SwapStateMachine) (es : List Effect) (e : EventType)
      → IsRanked m.states
      → m.retries ≤ 20
      → rank m.current + 21 ≤ suc fuel + m.retries
      → ((n : SwapStateMachine) (e : EventType)
          → IsRanked n.states
          → n.retries ≤ 20
          → HasFuel fuel n e
          → IsOver (rest n es e))
      → is_internal e ≡ true
      → IsOver (after_event rest m es e)
  unfolding after_event
  after_event-IsOver fuel m es done c r b go i = (refl, r, c)
  after_event-IsOver fuel m es no_op c r b go i = (refl, r, c)
  after_event-IsOver fuel m es on_retry c r b go i =
      if_rule IsOver (ltb 20 (m.retries + 1)) _ _ (λ _. (refl, omega arith, c))
        λ below.
          go (record m { retries = m.retries + 1 }) on_retry c (ground arith)
            λ s n.
              ground (arith, next-descends (record m { retries = m.retries + 1 }) on_retry s c n)
  after_event-IsOver fuel m es action_succeeded c r b go i =
      go m action_succeeded c r λ s n. ground (arith, next-descends m action_succeeded s c n)
  after_event-IsOver fuel m es action_failed c r b go i =
      go m action_failed c r λ s n. ground (arith, next-descends m action_failed s c n)
  after_event-IsOver fuel m es on_tx_confirmed c r b go i =
      go m on_tx_confirmed c r λ s n. ground (arith, next-descends m on_tx_confirmed s c n)
  after_event-IsOver fuel m es _ c r b go i = ground arith

  after_action-IsOver :
      (fuel : ℕ) (o : Option Error) (m : SwapStateMachine) (es : List Effect) (e : EventType)
      → IsRanked m.states
      → m.retries ≤ 20
      → rank m.current + 21 ≤ suc fuel + m.retries
      → ((n : SwapStateMachine) (e : EventType)
          → IsRanked n.states
          → n.retries ≤ 20
          → HasFuel fuel n e
          → IsOver (rest n (stored m.current m.swap ∷ es) e))
      → is_internal e ≡ true
      → IsOver (after_action rest o m es e)
  unfolding after_action
  after_action-IsOver fuel (some x) m es e c r b go i = (refl, r, c)
  after_action-IsOver fuel none m es e c r b go i =
      after_event-IsOver fuel m (stored m.current m.swap ∷ es) e c r b go i

event_loop-IsOver :
    (w : World) (fuel n : ℕ) (m : SwapStateMachine) (es : List Effect) (e : EventType)
    → IsRanked m.states
    → m.retries ≤ 20
    → HasFuel fuel m e
    → IsOver (event_loop w (suc fuel) n m es e)
unfolding event_loop
event_loop-IsOver w zero n m es e c r b =
    result_rule IsOver (get_next_state m e) _ _ (λ _ _. (refl, r, c))
      λ s next_s. ground (arith, b s next_s, r)
event_loop-IsOver w (suc fuel) n m es e c r b =
    result_rule IsOver (get_next_state m e) _ _ (λ _ _. (refl, r, c))
      λ s next_s.
        option_rule IsOver (action_of m s) _ _ (λ _. (refl, r, c))
          λ a acts.
            conclude-IsOver _ _ (execute (w n) a (record { swap = (enter m s).swap; effects = es }))
              (λ event p i.
                after_action-IsOver (event_loop w (suc fuel) (suc n)) fuel (w n).update_data
                  (record (enter m s) { swap = p.swap }) p.effects event c r (b s next_s)
                  (λ m' e' c' r' b'.
                    event_loop-IsOver w fuel (suc n) m' (stored s p.swap ∷ p.effects) e' c' r' b')
                  i)
              (λ p. (refl, r, c)) ((execute-Ends (w n) a).at _)

store_and_loop-IsOver :
    (w : World) (m : SwapStateMachine) (e : EventType)
    → IsRanked m.states
    → m.retries ≤ 20
    → IsOver (store_and_loop w m e)
unfolding store_and_loop
store_and_loop-IsOver w m e c r =
    option_rule IsOver (w 0).update_data _ _
      (λ _.
        event_loop-IsOver w 63 1 m (stored m.current m.swap ∷ []) e c r
          (λ s _. omega (arith, rank_le s)))
      (λ _ _. (refl, r, c))

pub send_event-IsOver :
    (w : World) (m : SwapStateMachine) (e : EventType) (context : Option PeerMessage)
    → IsRanked m.states
    → m.retries ≤ 20
    → IsOver (send_event w m e context)
unfolding send_event
send_event-IsOver w m e context c r =
    if_rule IsOver (e == done) _ _ (λ _. (refl, r, c))
      λ _.
        option_rule IsOver context _ _ (λ _. store_and_loop-IsOver w m e c r)
          λ msg _.
            result_rule IsOver (validate m.swap msg) _ _
              (λ _ _. store_and_loop-IsOver w m EventType.on_invalid_message c r)
              λ _ _.
                result_rule IsOver (apply m.swap msg) _ _ (λ _ _. (refl, r, c))
                  (λ d _. store_and_loop-IsOver w (record m { swap = d }) e c r)
