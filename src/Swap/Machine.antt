-- ===== src/Swap/Machine.antt =====
-- The state machine of a swap (swap/fsm.go): `SendEvent`, with the loop that runs the actions, and
-- `Recover`. The lock that keeps events apart is not modelled: events come one after the other.
pub mod Region
pub mod Steps
pub mod Start
pub mod History
pub mod Roles
pub mod Safety
pub mod Termination
pub mod Liveness
pub mod Finished
pub mod Persistence
pub mod Terms
pub mod SameSwap
use peerswap.Prelude.{
  ℕ, zero, suc, ◌+◌, Bool, true, false, List, [], ◌∷◌, ◌++◌, Option, none, some, ltb, if◌then◌else◌,
}
use peerswap.Prelude.Equality.{◌==◌}
use peerswap.Prelude.Text.{String, concat}
use peerswap.Swap.StateText.{state_text}
use peerswap.Swap.Error.{Error, Result, ok, err}
use peerswap.Swap.Message.{PeerMessage}
use peerswap.Swap.Data.{SwapData, SwapType, SwapRole}
use peerswap.Swap.State.{
  StateType, swap_canceled, claimed_csv, claimed_preimage, claimed_coop, state_eq, EventType, no_op,
  done, on_retry, action_failed, on_invalid_message, on_swap_out_started,
  swap_in_sender_on_swap_in_requested, event_eq,
}
use peerswap.Swap.Services.{SwapServices, Effect, stored}
use peerswap.Swap.Flow.{Progress, Flow, next, stop, panic}
use peerswap.Swap.Action.{Action}
use peerswap.Swap.Action.Execute.{execute}
use peerswap.Swap.Context.{validate, apply}
use peerswap.Swap.Table.{States, lookup}

pub record SwapStateMachine : Type 0 where
  pub swap_id : String
  pub swap : SwapData
  pub swap_type : SwapType
  pub role : SwapRole
  pub previous : StateType
  pub current : StateType
  pub states : States
  pub retries : ℕ

-- The states that `IsFinished` names.
abbrev pub is_terminal : StateType → Bool
is_terminal claimed_csv = true
is_terminal swap_canceled = true
is_terminal claimed_preimage = true
is_terminal claimed_coop = true
is_terminal _ = false

-- What `SendEvent` returns; a panic; or the fuel of the model is spent.
pub data Verdict : Type 0 where
  returned : Bool → Option Error → Verdict
  panicked out_of_fuel : Verdict

-- A machine with the calls it made, newest first, and its verdict.
pub record Run : Type 0 where
  pub machine : SwapStateMachine
  pub effects : List Effect
  pub verdict : Verdict

-- The answers of the services while the k-th action runs.
abbrev pub World : Type 0
World = ℕ → SwapServices

unfoldable pub get_next_state : SwapStateMachine → EventType → Result StateType
unfolding lookup
get_next_state m event = elim (lookup m.current m.states) [
  | none ↦ err Error.event_rejected
  | some st ↦ elim (lookup event st.events) [ none ↦ err Error.event_rejected | some s ↦ ok s ]
]

-- The action of a state, if the table has the state and the state has one.
unfoldable pub action_of : SwapStateMachine → StateType → Option Action
unfolding lookup
action_of m s = elim (lookup s m.states) [ none ↦ none | some st ↦ st.action ]

unfoldable pub event_is_valid : SwapStateMachine → EventType → Bool
unfolding get_next_state action_of
event_is_valid m event = elim (get_next_state m event) [
  | err e ↦ false
  | ok s ↦ elim (action_of m s) [ none ↦ false | some a ↦ true ]
]

abbrev pub finish : SwapStateMachine → List Effect → Bool → Option Error → Run
finish m es b e = record { machine = m; effects = es; verdict = returned b e }

-- The transition to the next state.
abbrev pub enter : SwapStateMachine → StateType → SwapStateMachine
enter m s = record m { swap = record (m.swap) { fsm_state = s }; previous = m.current; current = s }

-- The end of an action, by its event or by a panic.
abbrev pub conclude : (EventType → Progress → Run) → (Progress → Run) → Flow EventType → Run
conclude f g (next e p) = f e p
conclude f g (stop e p) = f e p
conclude f g (panic p) = g p

-- The switch on the event that the action returned.
unfoldable pub after_event :
    (SwapStateMachine → List Effect → EventType → Run)
    → SwapStateMachine
    → List Effect
    → EventType
    → Run
after_event rest m es done = finish m es true none
after_event rest m es no_op = finish m es false none
after_event rest m es on_retry =
    if ltb 20 (m.retries + 1)
    then finish (record m { retries = 0 }) es false none
    else rest (record m { retries = m.retries + 1 }) es on_retry
after_event rest m es event = rest m es event

-- What follows an action: the swap is stored, and its event decides.
unfoldable pub after_action :
    (SwapStateMachine → List Effect → EventType → Run)
    → Option Error
    → SwapStateMachine
    → List Effect
    → EventType
    → Run
unfolding after_event
after_action rest (some e) m es event = finish m es false (some e)
after_action rest none m es event = after_event rest m (stored m.current m.swap ∷ es) event

-- The loop of `SendEvent`: one round for each action. The machine takes `retries` over the rounds.
unfoldable pub event_loop : World → ℕ → ℕ → SwapStateMachine → List Effect → EventType → Run
unfolding get_next_state action_of after_action
event_loop w zero k m es event = record { machine = m; effects = es; verdict = out_of_fuel }
event_loop w (suc fuel) k m es event = elim (get_next_state m event) [
  | err e ↦ finish m es false (some Error.event_rejected)
  | ok s ↦ elim (action_of m s) [
    | none ↦ finish m es false (some Error.fsm_config)
    | some a ↦
        conclude
          (λ event' p.
            after_action (event_loop w fuel (suc k)) (w k).update_data
              (record (enter m s) { swap = p.swap }) p.effects event')
          (λ p. record {
            machine = record (enter m s) { swap = p.swap };
            effects = p.effects;
            verdict = panicked;
          })
          (execute (w k) a (record { swap = (enter m s).swap; effects = es }))
  ]
]

-- More rounds than any event can cause.
abbrev pub loop_fuel : ℕ
loop_fuel = 64

-- The store before the loop.
unfoldable pub store_and_loop : World → SwapStateMachine → EventType → Run
unfolding event_loop
store_and_loop w m event = elim (w 0).update_data [
  | some e ↦ finish m [] false (some e)
  | none ↦ event_loop w loop_fuel 1 m (stored m.current m.swap ∷ []) event
]

abbrev starts_swap : EventType → Bool
starts_swap on_swap_out_started = true
starts_swap swap_in_sender_on_swap_in_requested = true
starts_swap _ = false

-- The part of `SendEvent` that checks the message and adds it to the swap.
unfoldable pub with_context : World → SwapStateMachine → EventType → PeerMessage → Run
unfolding store_and_loop
with_context w m event msg = elim (validate m.swap msg) [
  | err e ↦ store_and_loop w m on_invalid_message
  | ok _ ↦ elim (apply m.swap msg) [
    | err e ↦ finish m [] (starts_swap event) (some e)
    | ok d ↦ store_and_loop w (record m { swap = d }) event
  ]
]

unfoldable pub send_event : World → SwapStateMachine → EventType → Option PeerMessage → Run
unfolding with_context
send_event w m event context =
    if event == done
    then finish m [] true none
    else elim context [ none ↦ store_and_loop w m event | some msg ↦ with_context w m event msg ]

-- The service at the next moment.
abbrev pub later : World → World
later w k = w (suc k)

-- The calls of a run behind calls made before.
abbrev pub behind : List Effect → Run → Run
behind es r = record r { effects = r.effects ++ es }

abbrev pub after_recovery : World → SwapStateMachine → List Effect → EventType → Run
after_recovery w m es no_op = finish m es false none
after_recovery w m es event = behind es (send_event (later w) m event none)

unfoldable pub recover : World → SwapStateMachine → Run
unfolding lookup send_event
recover w m = elim (lookup m.current m.states) [
  | none ↦ finish m [] false (
      some (
        Error.message
          (concat ("unknown state: " ∷ state_text m.current ∷ " for swap " ∷ m.swap_id ∷ []))))
  | some st ↦ elim st.action [
    | none ↦ finish m [] false (some Error.fsm_config)
    | some a ↦
        if st.fail_on_recover
        then send_event w m action_failed none
        else conclude
            (λ event p. elim (w 0).update_data [
              | some e ↦ finish (record m { swap = p.swap }) p.effects false (some e)
              | none ↦
                  after_recovery w (record m { swap = p.swap })
                    (stored m.current p.swap ∷ p.effects) event
            ])
            (λ p. record {
              machine = record m { swap = p.swap };
              effects = p.effects;
              verdict = panicked;
            })
            (execute (w 0) a (record { swap = m.swap; effects = [] }))
  ]
]

unfoldable pub is_finished : SwapStateMachine → Bool
is_finished m = is_terminal m.current
