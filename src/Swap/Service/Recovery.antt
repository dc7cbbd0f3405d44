-- ===== src/Swap/Service/Recovery.antt =====
-- What swap/service.go does with the stored swaps: it lists those that are not finished, and takes
-- them up again after a restart. The goroutines of the restart run one after the other here, in the
-- order of the list; each has its own world. The store is an answer (swap/store.go).
use peerswap.Prelude.{ℕ, suc, Bool, true, false, not, List, [], ◌∷◌, if◌then◌else◌}
use peerswap.Swap.Error.{Result, ok, err}
use peerswap.Swap.Data.{get_scid}
use peerswap.Swap.Machine.{SwapStateMachine, World, recover, is_finished}
use peerswap.Swap.Machine.Start.{from_store}
use peerswap.Swap.Service.{lock_swap}
use peerswap.Swap.Service.Serving.{
  served, refused, Serving, ◌>>=◌, ◌>>◌, take_over, remove_if, logged, check,
}

-- The swaps of a list that are not finished.
unfoldable pub unfinished_swaps : List SwapStateMachine → List SwapStateMachine
unfolding is_finished
unfinished_swaps [] = []
unfinished_swaps (m ∷ swaps) =
    let rest = unfinished_swaps swaps in if is_finished m then rest else m ∷ rest

unfoldable pub list_active_swaps : Result (List SwapStateMachine) → Result (List SwapStateMachine)
unfolding unfinished_swaps
list_active_swaps (err e) = err e
list_active_swaps (ok swaps) = ok (unfinished_swaps swaps)

unfoldable pub any_unfinished : List SwapStateMachine → Bool
unfolding is_finished
any_unfinished [] = false
any_unfinished (m ∷ swaps) =
    let rest = any_unfinished swaps in if not (is_finished m) then true else rest

unfoldable pub has_active_swaps : Result (List SwapStateMachine) → Result Bool
unfolding any_unfinished
has_active_swaps (err e) = err e
has_active_swaps (ok swaps) = ok (any_unfinished swaps)

-- `Recover`, and what follows it.
abbrev pub recovered : World → SwapStateMachine → Serving (Unit {0})
recovered w m = do
  end ← take_over m.swap_id (recover w (from_store m))
  check end.error
  remove_if end.done m.swap_id

-- One goroutine: an error is logged, a panic ends the program.
unfoldable pub recover_swap : World → SwapStateMachine → Serving (Unit {0})
unfolding is_finished lock_swap recover remove_if
recover_swap w m s =
    if is_finished m
    then served tt s
    else elim (lock_swap m.swap_id (get_scid m.swap) (from_store m) s.active) [
      | err e ↦ served tt s
      | ok swaps ↦ logged (recovered w m) (record s { active = swaps })
    ]

unfoldable pub recover_from : (ℕ → World) → ℕ → List SwapStateMachine → Serving (Unit {0})
unfolding recover_swap
recover_from w k [] s = served tt s
recover_from w k (m ∷ swaps) s = (recover_swap (w k) m >> recover_from w (suc k) swaps) s

unfoldable pub recover_swaps : (ℕ → World) → Result (List SwapStateMachine) → Serving (Unit {0})
unfolding recover_from
recover_swaps w (err e) s = refused e s
recover_swaps w (ok swaps) s = recover_from w 0 swaps s
