-- ===== src/Swap/Machine/Roles.antt =====
-- The four roles of a machine, and how a check of a role's table serves a machine of the role.
use peerswap.Prelude.{◌≡◌, refl, Bool, [], ◌⊎◌, inl, inr}
use peerswap.Swap.State.{StateType}
use peerswap.Swap.Data.{SwapType, SwapRole, swap_in, swap_out, no_type, sender, receiver}
use peerswap.Swap.Action.Execute.Kinds.{Kind}
use peerswap.Swap.Table.{States}
use peerswap.Swap.Machine.{SwapStateMachine}
use peerswap.Swap.Machine.Start.{states_of}
use peerswap.Swap.Machine.Region.{IsClosed}
use peerswap.Swap.Machine.Steps.{ClosedFor}

-- The table of a role.
abbrev pub table : SwapType → SwapRole → States
table a b = states_of a b []

pub record IsOf (a : SwapType) (b : SwapRole) (m : SwapStateMachine) : Type 0 where
  pub type_is : m.swap_type ≡ a
  pub role_is : m.role ≡ b
  pub states_are : m.states ≡ table a b

-- A maker funds the swap, a taker pays for it over Lightning.
abbrev pub IsMaker : SwapStateMachine → Type 0
IsMaker m = IsOf swap_in sender m ⊎ IsOf swap_out receiver m

abbrev pub IsTaker : SwapStateMachine → Type 0
IsTaker m = IsOf swap_out sender m ⊎ IsOf swap_in receiver m

table_of_table :
    (a : SwapType) (b : SwapRole) (t : States) → t ≡ table a b → states_of a b t ≡ table a b
table_of_table swap_in sender t h = refl
table_of_table swap_in receiver t h = refl
table_of_table swap_out sender t h = refl
table_of_table swap_out receiver t h = refl
table_of_table no_type b t h = h

module _ (region : StateType → Bool) (k : Kind → Bool) where
  IsClosed-at : (t u : States) → t ≡ u → IsClosed u region k → IsClosed t region k
  IsClosed-at t u p h = cc

  pub role_closed :
      (a : SwapType) (b : SwapRole) (m : SwapStateMachine)
      → IsOf a b m
      → IsClosed (table a b) region k
      → ClosedFor region k m
  role_closed a b m h c = (
    IsClosed-at m.states (table a b) h.states_are c,
    IsClosed-at (states_of m.swap_type m.role m.states) (table a b)
        (cc (table_of_table a b m.states h.states_are)) c,
  )

  pub two_roles :
      (a b : SwapType) (x y : SwapRole) (m : SwapStateMachine)
      → IsOf a x m ⊎ IsOf b y m
      → IsClosed (table a x) region k
      → IsClosed (table b y) region k
      → ClosedFor region k m
  two_roles a b x y m (inl h) c d = role_closed a x m h c
  two_roles a b x y m (inr h) c d = role_closed b y m h d
