-- ===== src/Swap/Flow/At.antt =====
-- What an action leads to from one progress: a rule for each step that can end it.
use peerswap.Prelude.{◌≡◌, refl, sym, subst, Bool, true, false, Option, none, some, arith}
use peerswap.Swap.Error.{Error, Result, ok, err}
use peerswap.Swap.Data.{handle_error}
use peerswap.Swap.State.{EventType}
use peerswap.Swap.Flow.{
  Progress, Flow, next, stop, panic, Act, attempt, deref, require, if_set, after, ◌>>=◌,
}

abbrev pub LeadsTo : {A : Type 0} → (Progress → Type 0) → Flow A → Type 0
LeadsTo P (next a q) = P q
LeadsTo P (stop e q) = P q
LeadsTo P (panic q) = P q

module _ {A B : Type 0} (P : Progress → Type 0) where
  pub at-attempt :
      (r : Result A) (f : A → Act B) (p : Progress)
      → ((e : Error) → P (record p { swap = handle_error p.swap (some e) }))
      → ((a : A) → r ≡ ok a → LeadsTo P (f a p))
      → LeadsTo P ((attempt r >>= f) p)
  unfolding ◌>>=◌
  at-attempt (ok a) f p g h = h a refl
  at-attempt (err e) f p g h = g e

  pub at-deref :
      (o : Option A) (f : A → Act B) (p : Progress)
      → P p
      → ((a : A) → o ≡ some a → LeadsTo P (f a p))
      → LeadsTo P ((deref o >>= f) p)
  unfolding ◌>>=◌
  at-deref none f p g h = g
  at-deref (some a) f p g h = h a refl

module _ {B : Type 0} (P : Progress → Type 0) where
  pub at-require :
      (b : Bool) (e : Error) (f : Unit {0} → Act B) (p : Progress)
      → P (record p { swap = handle_error p.swap (some e) })
      → (b ≡ true → LeadsTo P (f tt p))
      → LeadsTo P ((require b e >>= f) p)
  unfolding ◌>>=◌
  at-require true e f p g h = h refl
  at-require false e f p g h = g

-- A step within a step, and the two ends of a step.
module _ {A B C : Type 0} (P : Progress → Type 0) where
  regroup :
      (r : Flow A) (g : A → Act B) (f : B → Act C)
      → LeadsTo P (after r (λ a. g a >>= f))
      → LeadsTo P (after (after r g) f)
  unfolding ◌>>=◌
  regroup (next a q) g f h = h
  regroup (stop e q) g f h = h
  regroup (panic q) g f h = h

  pub at-group :
      (m : Act A) (g : A → Act B) (f : B → Act C) (p : Progress)
      → LeadsTo P ((m >>= λ a. g a >>= f) p)
      → LeadsTo P (((m >>= g) >>= f) p)
  unfolding ◌>>=◌
  at-group m g f p h = regroup (m p) g f h

module _ {A B : Type 0} (P : Progress → Type 0) (m : Act A) (f : A → Act B) (p : Progress) where
  pub at-next :
      (a : A) (q : Progress) → m p ≡ next a q → LeadsTo P (f a q) → LeadsTo P ((m >>= f) p)
  unfolding ◌>>=◌
  at-next a q is h = subst (λ r. LeadsTo P (after r f)) (sym is) h

  pub at-stop : (e : EventType) (q : Progress) → m p ≡ stop e q → P q → LeadsTo P ((m >>= f) p)
  unfolding ◌>>=◌
  at-stop e q is h = subst (λ r. LeadsTo P (after r f)) (sym is) h

-- What holds where a run goes on to its end; a run that leaves early, or panics, is let go.
abbrev pub Succeeds : {A : Type 0} → (A → Progress → Type 0) → Flow A → Type 0
Succeeds P (next a q) = P a q
Succeeds P (stop e q) = Unit
Succeeds P (panic q) = Unit

module _ {A B : Type 0} (P : B → Progress → Type 0) where
  pub ok-attempt :
      (r : Result A) (f : A → Act B) (p : Progress)
      → ((a : A) → r ≡ ok a → Succeeds P (f a p))
      → Succeeds P ((attempt r >>= f) p)
  unfolding ◌>>=◌
  ok-attempt (ok a) f p h = h a refl
  ok-attempt (err e) f p h = tt

  pub ok-deref :
      (o : Option A) (f : A → Act B) (p : Progress)
      → ((a : A) → o ≡ some a → Succeeds P (f a p))
      → Succeeds P ((deref o >>= f) p)
  unfolding ◌>>=◌
  ok-deref none f p h = tt
  ok-deref (some a) f p h = h a refl

  pub ok-unset :
      (o : Option A) (f : A → Act B) (m : Act B) (p : Progress)
      → o ≡ none
      → Succeeds P (m p)
      → Succeeds P (if_set o f m p)
  unfolding if_set
  ok-unset none f m p h g = g
  ok-unset (some a) f m p h g = ground arith

  pub ok-attempt_in :
      {C : Type 0} (r : Result C) (g : C → Act A) (f : A → Act B) (p : Progress)
      → ((c : C) → r ≡ ok c → Succeeds P ((g c >>= f) p))
      → Succeeds P (((attempt r >>= g) >>= f) p)
  unfolding ◌>>=◌
  ok-attempt_in (ok c) g f p h = h c refl
  ok-attempt_in (err e) g f p h = tt
