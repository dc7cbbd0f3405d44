-- ===== src/Swap/Service/Exclusive/Serve.antt =====
-- All that can happen to the service keeps the active swaps one to a channel.
use peerswap.Prelude.{ℕ, suc, refl, List, [], ◌∷◌, inr, if_rule}
use peerswap.Prelude.Equality.{string_eq, nat_eq}
use peerswap.Swap.Error.{ok, err, result_rule}
use peerswap.Swap.Data.{get_scid}
use peerswap.Swap.Action.Execute.Kinds.{terms}
use peerswap.Swap.Machine.{SwapStateMachine, World, recover, is_finished}
use peerswap.Swap.Machine.Start.{from_store}
use peerswap.Swap.Machine.Terms.{recover-RunHas}
use peerswap.Swap.Service.{lock_swap}
use peerswap.Swap.Service.Serving.{
  Service, Served, served, refused, crashed, unfinished, check, take_over, after_run,
}
use peerswap.Swap.Service.Recovery.{recovered, recover_swap, recover_from}
use peerswap.Swap.Service.Calls.{
  Call, message, payment, tx_confirmed, csv_passed, sender_tx_confirmed, timeout, resend,
  start_swap_out, start_swap_in, restart, perform, serve, continue_with,
}
use peerswap.Swap.Service.Exclusive.{IsExclusive, scid_of_terms}
use peerswap.Swap.Service.Exclusive.Rules.{
  Leaves, Any, and_then-Leaves, check-Leaves, remove_if-Leaves, logged-Leaves, outcome-Any,
}
use peerswap.Swap.Service.Exclusive.Events.{
  payment-Leaves, confirmed-Leaves, csv-Leaves, sender_confirmed-Leaves, timeout-Leaves,
  resend-Leaves,
}
use peerswap.Swap.Service.Exclusive.Start.{IsLockedFor, lock_swap-IsLockedFor, placed}
use peerswap.Swap.Service.Exclusive.Orders.{Keeps, swap_out-Preserves, swap_in-Preserves}
use peerswap.Swap.Service.Exclusive.Messages.{message-Preserves}

-- A swap that is taken up again is on its channel.
recovered-Leaves :
    (w : World) (m : SwapStateMachine) (s : Service)
    → IsLockedFor m.swap_id (get_scid m.swap) s.active
    → Leaves Any (recovered w m s)
recovered-Leaves w m s l =
    let r = recover w (from_store m) in
    let same = scid_of_terms _ _ (recover-RunHas (terms m.swap) w (from_store m) refl).holds in
    and_then-Leaves Any Any (take_over m.swap_id r s) _
      (outcome-Any r.machine r.verdict (after_run m.swap_id r s)
        (placed m.swap_id (get_scid m.swap) r.machine s.active l (inr same)))
      λ end t h _.
        and_then-Leaves Any Any (check end.error t) _ (check-Leaves end.error t h)
          (λ u t' g _. remove_if-Leaves end.done m.swap_id t' g)

recover_swap-Keeps : (w : World) (m : SwapStateMachine) → Keeps (recover_swap w m)
unfolding recover_swap
recover_swap-Keeps w m s h =
    if_rule (Leaves Any) (is_finished m) _ _ (λ _. (h, tt))
      λ _.
        result_rule (Leaves Any) (lock_swap m.swap_id (get_scid m.swap) (from_store m) s.active) _ _
          (λ _ _. (h, tt))
          λ swaps l.
            logged-Leaves (recovered w m) (record s { active = swaps })
              (recovered-Leaves w m (record s { active = swaps })
                (lock_swap-IsLockedFor m.swap_id (get_scid m.swap) (from_store m) s.active swaps h
                  l))

recover_from-Keeps :
    (w : ℕ → World) (k : ℕ) (stored : List SwapStateMachine) → Keeps (recover_from w k stored)
unfolding recover_from
recover_from-Keeps w k [] s h = (h, tt)
recover_from-Keeps w k (m ∷ stored) s h =
    and_then-Leaves Any Any (recover_swap (w k) m s) _ (recover_swap-Keeps (w k) m s h)
      (λ u t g _. recover_from-Keeps w (suc k) stored t g)

perform-Keeps : (c : Call) → Keeps (perform c)
unfolding perform
perform-Keeps (message w fresh json peer type payload) s h =
    (message-Preserves w fresh json peer type payload).at s h
perform-Keeps (payment w text type) s h = payment-Leaves w text type s h
perform-Keeps (tx_confirmed w w' id tx_hex e) s h = confirmed-Leaves w w' id tx_hex e s h
perform-Keeps (csv_passed w id) s h = csv-Leaves w id s h
perform-Keeps (sender_tx_confirmed w id) s h = sender_confirmed-Leaves w id s h
perform-Keeps (timeout w id) s h = timeout-Leaves w id s h
perform-Keeps (resend services id) s h = resend-Leaves services id s h
perform-Keeps (start_swap_out w fresh o) s h = (swap_out-Preserves w fresh o).at s h
perform-Keeps (start_swap_in w fresh o) s h = (swap_in-Preserves w fresh o).at s h
perform-Keeps (restart w (err e)) s h = h
perform-Keeps (restart w (ok stored)) s h = recover_from-Keeps w 0 stored s h

goes_on :
    (o : Served (Unit {0})) (k : Service → Service)
    → Leaves Any o
    → ((t : Service) → IsExclusive t.active → IsExclusive (k t).active)
    → IsExclusive (continue_with k o).active
goes_on (served u t) k h g = g t h.0
goes_on (refused e t) k h g = g t h
goes_on (crashed t) k h g = h
goes_on (unfinished t) k h g = h

-- If each call runs to its end before the next begins, the requests of no two active swaps ever name
-- their channel with the same text, when none did at first (a swap without a request names none): for
-- messages of any peer, payments, confirmations, timeouts, orders of the operator and restarts, in
-- any order and with any answers of the other components.
pub serve-IsExclusive :
    (calls : List Call) (s : Service) → IsExclusive s.active → IsExclusive (serve calls s).active
unfolding serve
serve-IsExclusive [] s h = h
serve-IsExclusive (c ∷ calls) s h =
    goes_on (perform c s) (serve calls) (perform-Keeps c s h) (λ t g. serve-IsExclusive calls t g)
