-- ===== src/Swap/Machine/Finished.antt =====
-- A finished swap stays as it is.
use peerswap.Prelude.{◌≡◌, refl, Bool, true, false, List, ◌⊎◌, inl, inr, arith}
use peerswap.Swap.State.{
  StateType, state_eq, state_beq, state_beq_iff, claimed_csv, claimed_preimage, claimed_coop,
  swap_canceled,
}
use peerswap.Swap.Data.{SwapType, SwapRole, swap_in, swap_out, no_type, sender, receiver}
use peerswap.Swap.Services.{Effect}
use peerswap.Swap.Action.Execute.Kinds.{Kind, common, AllOf}
use peerswap.Swap.Machine.{SwapStateMachine, is_terminal, is_finished}
use peerswap.Swap.Machine.History.{Reaches, history-Stays}
use peerswap.Swap.Machine.Steps.{ClosedFor}
use peerswap.Swap.Machine.Region.{IsClosed}
use peerswap.Swap.Machine.Roles.{IsMaker, IsTaker, table, two_roles}

abbrev pub common_call : Kind → Bool
common_call common = true
common_call _ = false

abbrev only : StateType → StateType → Bool
only s t = state_beq t s

terminal-IsClosed :
    (a : SwapType) (b : SwapRole) (s : StateType)
    → is_terminal s ≡ true
    → IsClosed (table a b) (only s) common_call
unfolding state_beq
terminal-IsClosed swap_in sender claimed_csv h = refl
terminal-IsClosed swap_in sender claimed_preimage h = refl
terminal-IsClosed swap_in sender claimed_coop h = refl
terminal-IsClosed swap_in sender swap_canceled h = refl
terminal-IsClosed swap_in receiver claimed_csv h = refl
terminal-IsClosed swap_in receiver claimed_preimage h = refl
terminal-IsClosed swap_in receiver claimed_coop h = refl
terminal-IsClosed swap_in receiver swap_canceled h = refl
terminal-IsClosed swap_out sender claimed_csv h = refl
terminal-IsClosed swap_out sender claimed_preimage h = refl
terminal-IsClosed swap_out sender claimed_coop h = refl
terminal-IsClosed swap_out sender swap_canceled h = refl
terminal-IsClosed swap_out receiver claimed_csv h = refl
terminal-IsClosed swap_out receiver claimed_preimage h = refl
terminal-IsClosed swap_out receiver claimed_coop h = refl
terminal-IsClosed swap_out receiver swap_canceled h = refl
terminal-IsClosed no_type b s h = refl
terminal-IsClosed _ _ _ h = ground arith

-- A finished swap of any role stays in its state and moves no money any more, whatever events and
-- restarts it sees.
pub finished-History :
    (m : SwapStateMachine)
    → IsMaker m ⊎ IsTaker m
    → is_finished m ≡ true
    → (n : SwapStateMachine) (es : List Effect) → Reaches m n es
    → (n.current ≡ m.current) × AllOf common_call es
unfolding is_finished
finished-History m h f n es r =
    let ok_at = λ (a : SwapType) (b : SwapRole). terminal-IsClosed a b m.current f in
    let c : ClosedFor (only m.current) common_call m = elim h [
      | inl maker ↦
          two_roles (only m.current) common_call swap_in swap_out sender receiver m maker
            (ok_at swap_in sender) (ok_at swap_out receiver)
      | inr taker ↦
          two_roles (only m.current) common_call swap_out swap_in sender receiver m taker
            (ok_at swap_out sender) (ok_at swap_in receiver)
    ] in
    let end =
      history-Stays (only m.current) common_call refl m c
        ((state_beq_iff m.current m.current).1 refl) n es r in
    ((state_beq_iff n.current m.current).0 end.here, end.calls)
