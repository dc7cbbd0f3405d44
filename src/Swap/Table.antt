-- ===== src/Swap/Table.antt =====
-- The table of a state machine (`States`, `State` and `Events` of swap/fsm.go): one for each role.
pub mod SwapOutSender
pub mod SwapOutReceiver
pub mod SwapInSender
pub mod SwapInReceiver
use peerswap.Prelude.{Bool, List, [], ◌∷◌, Option, none, some, if◌then◌else◌}
use peerswap.Prelude.Equality.{Eq, ◌==◌}
use peerswap.Swap.State.{StateType, EventType}
use peerswap.Swap.Action.{Action}

pub record State : Type 0 where
  pub action : Option Action
  pub events : List (EventType × StateType)
  pub fail_on_recover : Bool

abbrev pub state : Option Action → List (EventType × StateType) → Bool → State
state a es f = record { action = a; events = es; fail_on_recover = f }

abbrev pub States : Type 0
States = List (StateType × State)

-- A Go map with literal keys, as the list of its entries.
unfoldable pub lookup : {K V : Type 0} ⦃e : Eq K⦄ → K → List (K × V) → Option V
lookup k [] = none
lookup k ((j, v) ∷ rest) = if j == k then some v else lookup k rest
