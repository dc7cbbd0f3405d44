-- ===== src/Swap/Service/Serving.antt =====
-- The methods of `SwapService` (swap/service.go) as a monad: they read and change the active swaps,
-- make calls outside, and may return an error early. A swap is a pointer in the map, so what
-- `SendEvent` does to the machine shows under its id.
use peerswap.Prelude.{Bool, List, [], ◌∷◌, ◌++◌, Option, none, some, if◌then◌else◌}
use peerswap.Prelude.Equality.{◌==◌, string_eq}
use peerswap.Prelude.Text.{String}
use peerswap.Swap.Error.{Error, Result, ok, err}
use peerswap.Swap.Message.{PeerMessage}
use peerswap.Swap.State.{EventType}
use peerswap.Swap.Services.{Effect}
use peerswap.Swap.Machine.{
  SwapStateMachine, World, Verdict, Run, returned, panicked, out_of_fuel, send_event,
}
use peerswap.Swap.Service.{ActiveSwaps, get_active_swap, remove_active_swap, lock_swap}

-- The active swaps, and the calls made so far, newest first.
pub record Service : Type 0 where
  pub active : ActiveSwaps
  pub effects : List Effect

-- A method goes on with a value, or returns an error, or a nil pointer is followed; or the fuel of
-- the model is spent.
pub data Served (A : Type 0) : Type 0 where
  served : A → Service → Served A
  refused : Error → Service → Served A
  crashed : Service → Served A
  unfinished : Service → Served A

abbrev pub Serving : Type 0 → Type 0
Serving A = Service → Served A

abbrev pub and_then : {A B : Type 0} → Served A → (A → Serving B) → Served B
and_then (served a s) f = f a s
and_then (refused e s) f = refused e s
and_then (crashed s) f = crashed s
and_then (unfinished s) f = unfinished s

infixl 5 ◌>>=◌ ◌>>◌
abbrev pub ◌>>=◌ : {A B : Type 0} → Serving A → (A → Serving B) → Serving B
◌>>=◌ m f s = and_then (m s) f

abbrev pub ◌>>◌ : {B : Type 0} → Serving (Unit {0}) → Serving B → Serving B
m >> k = m >>= λ _. k

abbrev pub give : {A : Type 0} → A → Serving A
give a s = served a s

abbrev pub refuse : {A : Type 0} → Error → Serving A
refuse e s = refused e s

abbrev pub crash : {A : Type 0} → Serving A
crash s = crashed s

abbrev pub answer : {A : Type 0} → Result A → Serving A
answer (ok a) s = served a s
answer (err e) s = refused e s

-- An error that may be nil.
abbrev pub check : Option Error → Serving (Unit {0})
check none s = served tt s
check (some e) s = refused e s

-- `GetActiveSwap`.
abbrev pub active_swap : String → Serving SwapStateMachine
active_swap id s = answer (get_active_swap id s.active) s

-- `RemoveActiveSwap`.
unfoldable pub remove : String → Serving (Unit {0})
remove id s = served tt (record s { active = remove_active_swap id s.active })

unfoldable pub lock : String → String → SwapStateMachine → Serving (Unit {0})
lock id channel m s = elim (lock_swap id channel m s.active) [
  | ok swaps ↦ served tt (record s { active = swaps })
  | err e ↦ refused e s
]

-- The first entry under the id, which is the one that is found, has become another machine.
unfoldable pub put_swap : String → SwapStateMachine → ActiveSwaps → ActiveSwaps
put_swap id m [] = []
put_swap id m ((i, old) ∷ swaps) =
    if i == id then (i, m) ∷ swaps else (i, old) ∷ put_swap id m swaps

-- The service after a run of the machine under the id.
abbrev pub after_run : String → Run → Service → Service
after_run id r s = record {
  active = put_swap id r.machine s.active;
  effects = r.effects ++ s.effects;
}

-- What `SendEvent` gives back, with the machine that the pointer then shows.
pub record Sent : Type 0 where
  pub machine : SwapStateMachine
  pub done : Bool
  pub error : Option Error

abbrev pub outcome : SwapStateMachine → Verdict → Serving Sent
outcome m (returned b e) s = served (record { machine = m; done = b; error = e }) s
outcome m panicked s = crashed s
outcome m out_of_fuel s = unfinished s

-- What a run does to the service.
abbrev pub take_over : String → Run → Serving Sent
take_over id r s = outcome r.machine r.verdict (after_run id r s)

-- `swap.SendEvent` on an active swap, or on one that was locked just now.
unfoldable pub send :
    World → String → SwapStateMachine → EventType → Option PeerMessage → Serving Sent
unfolding put_swap
send w id m event context = take_over id (send_event w m event context)

-- A finished swap leaves the active ones.
unfoldable pub remove_if : Bool → String → Serving (Unit {0})
unfolding remove
remove_if b id = if b then remove id else give tt

-- The caller logs the error and goes on.
abbrev pub logged : Serving (Unit {0}) → Serving (Unit {0})
logged m s = elim (m s) [
  | served u t ↦ served tt t
  | refused e t ↦ served tt t
  | crashed t ↦ crashed t
  | unfinished t ↦ unfinished t
]
