-- ===== src/Swap/Flow/Keeps.antt =====
-- What an action keeps on every path, and the events with which it can end: one rule for each way
-- to build an action.
use peerswap.Prelude.{◌≡◌, refl, Bool, true, false, ◌∷◌, Option, none, some, if◌then◌else◌}
use peerswap.Swap.Error.{Error, Result, ok, err}
use peerswap.Swap.Data.{SwapData, handle_error}
use peerswap.Swap.Services.{Effect}
use peerswap.Swap.State.{
  EventType, no_op, done, on_retry, action_succeeded, action_failed, on_tx_confirmed,
}
use peerswap.Swap.Flow.{
  Progress, Flow, next, stop, panic, Act, return, read, modify, emit, emit_unless, leave, fail_with,
  fail, attempt_or, attempt, perform, when, require, deref, if_set, after, ◌>>=◌,
}

-- The events that an action may return: those that go on inside the loop, and the two that end it.
abbrev pub is_internal : EventType → Bool
is_internal no_op = true
is_internal done = true
is_internal on_retry = true
is_internal action_succeeded = true
is_internal action_failed = true
is_internal on_tx_confirmed = true
is_internal _ = false

abbrev pub KeepsFlow : {A : Type 0} → (Progress → Type 0) → Flow A → Type 0
KeepsFlow P (next a q) = P q
KeepsFlow P (stop e q) = (is_internal e ≡ true) × P q
KeepsFlow P (panic q) = P q

-- `m` keeps `P` on every path, and where it leaves early its event is internal.
pub record Keeps {A : Type 0} (P : Progress → Type 0) (m : Act A) : Type 0 where
  pub at : (p : Progress) → P p → KeepsFlow P (m p)

-- The change of the data, or the call, that a step makes keeps `P`.
abbrev pub KeepsData : (Progress → Type 0) → (SwapData → SwapData) → Type 0
KeepsData P f = (p : Progress) → P p → P (record p { swap = f p.swap })

abbrev pub KeepsCall : (Progress → Type 0) → Effect → Type 0
KeepsCall P e = (p : Progress) → P p → P (record p { effects = e ∷ p.effects })

module _ {P : Progress → Type 0} where
  pub Keeps-modify : (f : SwapData → SwapData) → KeepsData P f → Keeps P (modify f)
  unfolding modify
  Keeps-modify f h = record { at = h }

  pub Keeps-emit : (e : Effect) → KeepsCall P e → Keeps P (emit e)
  unfolding emit
  Keeps-emit e h = record { at = h }

  pub Keeps-emit_unless :
      (o : Option Error) (e : Effect) → KeepsCall P e → Keeps P (emit_unless o e)
  unfolding emit_unless
  Keeps-emit_unless none e h = record { at = h }
  Keeps-emit_unless (some x) e h = record { at = λ p k. k }

  pub Keeps-when : (b : Bool) (m : Act (Unit {0})) → (b ≡ true → Keeps P m) → Keeps P (when b m)
  unfolding when
  Keeps-when true m h = h refl
  Keeps-when false m h = record { at = λ p k. k }

module _ {A : Type 0} {P : Progress → Type 0} where
  pub Keeps-return : (a : A) → Keeps P (return a)
  unfolding return
  Keeps-return a = record { at = λ p h. h }

  pub Keeps-read : (f : SwapData → A) → Keeps P (read f)
  unfolding read
  Keeps-read f = record { at = λ p h. h }

  pub Keeps-leave :
      (f : SwapData → SwapData) (e : EventType)
      → is_internal e ≡ true
      → KeepsData P f
      → Keeps P (leave {A = A} f e)
  unfolding leave
  Keeps-leave f e i h = record { at = λ p k. (i, h p k) }

  pub Keeps-fail_with :
      (e : Option Error) → KeepsData P (λ d. handle_error d e) → Keeps P (fail_with {A = A} e)
  unfolding fail_with
  Keeps-fail_with e h = record { at = λ p k. (refl, h p k) }

  pub Keeps-attempt_or :
      (f : Error → Act A) (r : Result A) → ((e : Error) → Keeps P (f e)) → Keeps P (attempt_or f r)
  unfolding attempt_or
  Keeps-attempt_or f (ok a) h = record { at = λ p k. k }
  Keeps-attempt_or f (err e) h = h e

  pub Keeps-deref : (o : Option A) → Keeps P (deref o)
  unfolding deref
  Keeps-deref none = record { at = λ p h. h }
  Keeps-deref (some a) = record { at = λ p h. h }

  pub Keeps-if :
      (b : Bool) (m n : Act A)
      → (b ≡ true → Keeps P m)
      → (b ≡ false → Keeps P n)
      → Keeps P (if b then m else n)
  Keeps-if true m n h k = h refl
  Keeps-if false m n h k = k refl

-- What the steps that hand an error on need of `P`.
abbrev pub KeepsErrors : (Progress → Type 0) → Type 0
KeepsErrors P = (e : Error) → KeepsData P (λ d. handle_error d (some e))

module _ {A : Type 0} {P : Progress → Type 0} (errors : KeepsErrors P) where
  pub Keeps-fail : (e : Error) → Keeps P (fail {A = A} e)
  unfolding fail
  Keeps-fail e = Keeps-fail_with (some e) (errors e)

  pub Keeps-attempt : (r : Result A) → Keeps P (attempt r)
  unfolding attempt
  Keeps-attempt r = Keeps-attempt_or fail r (Keeps-fail)

module _ {P : Progress → Type 0} (errors : KeepsErrors P) where
  pub Keeps-perform : (o : Option Error) (e : Effect) → KeepsCall P e → Keeps P (perform o e)
  unfolding perform
  Keeps-perform none e h = record { at = h }
  Keeps-perform (some x) e h = Keeps-fail errors x

  pub Keeps-require : (b : Bool) (e : Error) → Keeps P (require b e)
  unfolding require
  Keeps-require true e = record { at = λ p h. h }
  Keeps-require false e = Keeps-fail errors e

module _ {A B : Type 0} {P : Progress → Type 0} where
  pub Keeps-if_set :
      (o : Option A) (f : A → Act B) (m : Act B)
      → ((a : A) → o ≡ some a → Keeps P (f a))
      → Keeps P m
      → Keeps P (if_set o f m)
  unfolding if_set
  Keeps-if_set none f m h k = k
  Keeps-if_set (some a) f m h k = h a refl

  KeepsFlow-bind :
      (f : A → Act B) (r : Flow A)
      → ((a : A) → Keeps P (f a))
      → KeepsFlow P r
      → KeepsFlow P (after r f)
  KeepsFlow-bind f (next a q) h k = (h a).at q k
  KeepsFlow-bind f (stop e q) h k = k
  KeepsFlow-bind f (panic q) h k = k

  pub Keeps-bind :
      (m : Act A) (f : A → Act B) → Keeps P m → ((a : A) → Keeps P (f a)) → Keeps P (m >>= f)
  unfolding ◌>>=◌
  Keeps-bind m f h k = record { at = λ p i. KeepsFlow-bind f (m p) k (h.at p i) }

pub ruleset keeps_rules = (
  Keeps-modify, Keeps-emit, Keeps-emit_unless, Keeps-when, Keeps-return, Keeps-read, Keeps-leave,
  Keeps-fail_with, Keeps-attempt_or, Keeps-deref, Keeps-if, Keeps-fail, Keeps-attempt,
  Keeps-perform, Keeps-require, Keeps-if_set, Keeps-bind,
)
