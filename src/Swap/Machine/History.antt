-- ===== src/Swap/Machine/History.antt =====
-- The life of a swap: events, one after the other, and restarts of the program between them.
use peerswap.Prelude.{◌≡◌, Bool, true, List, [], ◌++◌, Option, refl}
use peerswap.Swap.Message.{PeerMessage}
use peerswap.Swap.State.{StateType, EventType}
use peerswap.Swap.Data.{SwapType, SwapRole, no_type, swap_in, swap_out, sender, receiver}
use peerswap.Swap.Table.{States}
use peerswap.Swap.Services.{Effect}
use peerswap.Swap.Action.Execute.Kinds.{Kind, common}
use peerswap.Swap.Machine.{SwapStateMachine, World, send_event, recover}
use peerswap.Swap.Machine.Start.{from_store, states_of}
use peerswap.Swap.Machine.Region.{IsClosed}
use peerswap.Swap.Machine.Steps.{ClosedFor, Stays, AllOf-append, send_event-Stays, recover-Stays}

-- From a machine to the one that it becomes, with all the calls made on the way, newest first.
pub data Reaches (m : SwapStateMachine) : SwapStateMachine → List Effect → Type 0 where
  start : Reaches m m []
  event :
      (n : SwapStateMachine) (es : List Effect)
      → Reaches m n es
      → (w : World) (e : EventType) (context : Option PeerMessage)
      → Reaches m (send_event w n e context).machine ((send_event w n e context).effects ++ es)
  restart :
      (n : SwapStateMachine) (es : List Effect)
      → Reaches m n es
      → (w : World)
      → Reaches m (recover w (from_store n)).machine ((recover w (from_store n)).effects ++ es)

module _ (region : StateType → Bool) (k : Kind → Bool) where
  store-twice :
      (a : SwapType) (b : SwapRole) (t : States)
      → IsClosed (states_of a b t) region k
      → IsClosed (states_of a b (states_of a b t)) region k
  store-twice swap_in sender t h = h
  store-twice swap_in receiver t h = h
  store-twice swap_out sender t h = h
  store-twice swap_out receiver t h = h
  store-twice no_type b t h = h

  module _ (usual : k common ≡ true) where
    -- What the table closes holds all through the life of a swap.
    pub history-Stays :
        (m : SwapStateMachine)
        → ClosedFor region k m
        → region m.current ≡ true
        → (n : SwapStateMachine) (es : List Effect) → Reaches m n es
        → Stays region k n es
    history-Stays m c r n es start = record { closed = c; here = r; calls = refl }
    history-Stays m c r n es (event n' es' h w e x) =
        let old = history-Stays m c r n' es' h in
        let new = send_event-Stays region k usual w n' e x old.closed old.here in
        record {
          closed = new.closed;
          here = new.here;
          calls = AllOf-append k (send_event w n' e x).effects es' new.calls old.calls;
        }
    history-Stays m c r n es (restart n' es' h w) =
        let old = history-Stays m c r n' es' h in
        let again = store-twice n'.swap_type n'.role n'.states old.closed.1 in
        let new = recover-Stays region k usual w (from_store n') (old.closed.1, again) old.here in
        record {
          closed = new.closed;
          here = new.here;
          calls = AllOf-append k (recover w (from_store n')).effects es' new.calls old.calls;
        }
