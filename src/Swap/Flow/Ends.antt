-- ===== src/Swap/Flow/Ends.antt =====
-- The events with which an action ends, on every path: one rule for each way to build an action.
use peerswap.Prelude.{◌≡◌, refl, Bool, true, false, Option, none, some, if◌then◌else◌}
use peerswap.Swap.Error.{Error}
use peerswap.Swap.Data.{SwapData}
use peerswap.Swap.Services.{Effect}
use peerswap.Swap.State.{EventType, action_failed}
use peerswap.Swap.Flow.{
  Progress, Flow, next, stop, panic, Act, return, leave, fail_with, fail, if_set, after, ◌>>=◌,
}
use peerswap.Swap.Flow.Keeps.{
  is_internal, Keeps, KeepsFlow, KeepsData, KeepsCall, KeepsErrors, keeps_rules,
}

abbrev pub EndsFlow : Flow EventType → Type 0
EndsFlow (next e q) = is_internal e ≡ true
EndsFlow (stop e q) = is_internal e ≡ true
EndsFlow (panic q) = Unit

-- The action ends with an internal event, or with a panic.
pub record Ends (m : Act EventType) : Type 0 where
  pub at : (p : Progress) → EndsFlow (m p)

-- No condition on the progress.
abbrev pub Anything : Progress → Type 0
Anything p = Unit

pub Anything-data : (f : SwapData → SwapData) → KeepsData Anything f
Anything-data f p h = tt

pub Anything-call : (e : Effect) → KeepsCall Anything e
Anything-call e p h = tt

pub Anything-errors : KeepsErrors Anything
Anything-errors e p h = tt

pub Ends-return : (e : EventType) → is_internal e ≡ true → Ends (return e)
unfolding return
Ends-return e h = record { at = λ p. h }

pub Ends-leave : (f : SwapData → SwapData) (e : EventType) → is_internal e ≡ true → Ends (leave f e)
unfolding leave
Ends-leave f e h = record { at = λ p. h }

pub Ends-fail_with : (e : Option Error) → Ends (fail_with e)
unfolding fail_with
Ends-fail_with e = Ends-leave _ action_failed refl

pub Ends-fail : (e : Error) → Ends (fail e)
unfolding fail
Ends-fail e = Ends-fail_with (some e)

pub Ends-if : (b : Bool) (m n : Act EventType) → Ends m → Ends n → Ends (if b then m else n)
Ends-if true m n h k = h
Ends-if false m n h k = k

pub Ends-if_set :
    {A : Type 0} (o : Option A) (f : A → Act EventType) (m : Act EventType)
    → ((a : A) → Ends (f a))
    → Ends m
    → Ends (if_set o f m)
unfolding if_set
Ends-if_set none f m h k = k
Ends-if_set (some a) f m h k = h a

EndsFlow-bind :
    {A : Type 0} (f : A → Act EventType) (r : Flow A)
    → ((a : A) → Ends (f a))
    → KeepsFlow Anything r
    → EndsFlow (after r f)
EndsFlow-bind f (next a q) h k = (h a).at q
EndsFlow-bind f (stop e q) h k = k.0
EndsFlow-bind f (panic q) h k = tt

pub Ends-bind :
    {A : Type 0} (m : Act A) (f : A → Act EventType)
    → Keeps Anything m
    → ((a : A) → Ends (f a))
    → Ends (m >>= f)
unfolding ◌>>=◌
Ends-bind m f h k = record { at = λ p. EndsFlow-bind f (m p) k (h.at p tt) }

pub ruleset ends_rules = (
  keeps_rules, Anything-data, Anything-call, Anything-errors, Ends-return, Ends-leave,
  Ends-fail_with, Ends-fail, Ends-if, Ends-if_set, Ends-bind,
)
