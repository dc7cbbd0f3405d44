-- ===== src/Swap/Flow.antt =====
-- The body of an action as a monad: it reads and writes the swap's data, makes calls outside, and
-- may return its event early. Following a nil pointer is a panic.
pub mod Keeps
pub mod Ends
pub mod At
use peerswap.Prelude.{Bool, true, false, List, ◌∷◌, Option, none, some}
use peerswap.Swap.Error.{Error, Result, ok, err}
use peerswap.Swap.Data.{SwapData, handle_error}
use peerswap.Swap.Services.{Effect}
use peerswap.Swap.State.{EventType, action_failed}

-- The data, and the calls made so far, newest first.
pub record Progress : Type 0 where
  pub swap : SwapData
  pub effects : List Effect

pub data Flow (A : Type 0) : Type 0 where
  next : A → Progress → Flow A
  stop : EventType → Progress → Flow A
  panic : Progress → Flow A

abbrev pub Act : Type 0 → Type 0
Act A = Progress → Flow A

unfoldable pub return : {A : Type 0} → A → Act A
return a p = next a p

unfoldable pub read : {A : Type 0} → (SwapData → A) → Act A
read f p = next (f p.swap) p

unfoldable pub modify : (SwapData → SwapData) → Act (Unit {0})
modify f p = next tt (record p { swap = f p.swap })

unfoldable pub emit : Effect → Act (Unit {0})
emit e p = next tt (record p { effects = e ∷ p.effects })

-- The call happens if it gives no error; an error is dropped.
unfoldable pub emit_unless : Option Error → Effect → Act (Unit {0})
unfolding emit return
emit_unless none x = emit x
emit_unless (some e) x = return tt

-- Leave the action with an event.
unfoldable pub leave : {A : Type 0} → (SwapData → SwapData) → EventType → Act A
leave f e p = stop e (record p { swap = f p.swap })

-- `return swap.HandleError(err)`, where the error may be nil.
unfoldable pub fail_with : {A : Type 0} → Option Error → Act A
unfolding leave
fail_with e = leave (λ d. handle_error d e) action_failed

unfoldable pub fail : {A : Type 0} → Error → Act A
unfolding fail_with
fail e = fail_with (some e)

-- A call that may fail, with what is done about its error.
unfoldable pub attempt_or : {A : Type 0} → (Error → Act A) → Result A → Act A
unfolding return
attempt_or handle (ok a) = return a
attempt_or handle (err e) = handle e

-- The same, where the error goes to `HandleError`.
unfoldable pub attempt : {A : Type 0} → Result A → Act A
unfolding attempt_or fail
attempt r = attempt_or fail r

-- The same for a call that returns an error alone, and changes something where it succeeds.
unfoldable pub perform : Option Error → Effect → Act (Unit {0})
unfolding emit fail
perform none x = emit x
perform (some e) x = fail e

unfoldable pub when : Bool → Act (Unit {0}) → Act (Unit {0})
unfolding return
when true m = m
when false m = return tt

unfoldable pub require : Bool → Error → Act (Unit {0})
unfolding fail return
require true e = return tt
require false e = fail e

unfoldable pub deref : {A : Type 0} → Option A → Act A
unfolding return
deref none = panic
deref (some a) = return a

-- A branch on a pointer.
unfoldable pub if_set : {A B : Type 0} → Option A → (A → Act B) → Act B → Act B
if_set none f m = m
if_set (some a) f m = f a

-- What follows a step that does not leave.
abbrev pub after : {A B : Type 0} → Flow A → (A → Act B) → Flow B
after (next a q) f = f a q
after (stop e q) f = stop e q
after (panic q) f = panic q

infixl 5 ◌>>=◌ ◌>>◌
-- Opening this opens all that is above.
unfoldable pub ◌>>=◌ : {A B : Type 0} → Act A → (A → Act B) → Act B
unfolding read modify emit_unless attempt perform when require deref if_set
◌>>=◌ m f p = after (m p) f

abbrev pub ◌>>◌ : {B : Type 0} → Act (Unit {0}) → Act B → Act B
m >> k = m >>= λ _. k
