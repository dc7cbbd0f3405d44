-- ===== src/Swap/Service/Exclusive/Rules.antt =====
-- The rules by which a method keeps the active swaps one to a channel.
use peerswap.Prelude.{
  ◌≡◌, refl, ◌∙◌, true, false, [], ◌∷◌, Option, none, some, ◌⊎◌, inl, inr, arith, Bool-cases, Bool,
  sym, subst, Option-cases,
}
use peerswap.Prelude.Equality.{◌==◌, string_eq}
use peerswap.Prelude.Text.{String}
use peerswap.Swap.Error.{Error, Result, ok, err}
use peerswap.Swap.Message.{PeerMessage}
use peerswap.Swap.State.{EventType}
use peerswap.Swap.Data.{get_scid}
use peerswap.Swap.Table.{lookup}
use peerswap.Swap.Action.Execute.Kinds.{terms}
use peerswap.Swap.Machine.{
  SwapStateMachine, World, Run, Verdict, returned, panicked, out_of_fuel, send_event,
}
use peerswap.Swap.Machine.SameSwap.{NoRequest, send_event-terms}
use peerswap.Swap.Service.{ActiveSwaps, remove_active_swap, get_active_swap}
use peerswap.Swap.Service.Channels.{gone}
use peerswap.Swap.Service.Serving.{
  Service, Served, served, refused, crashed, unfinished, Serving, and_then, check, remove,
  remove_if, send, take_over, logged, outcome, after_run, Sent, answer,
}
use peerswap.Swap.Service.Exclusive.{
  IsExclusive, SameChannel, remove-IsExclusive, put-IsExclusive, SameChannel-put, scid_of_terms,
}

-- The active swaps stay one to a channel, and where the method goes on, `Q` holds.
abbrev pub Leaves : {A : Type 0} → (A → Service → Type 0) → Served A → Type 0
Leaves Q (served a s) = IsExclusive s.active × Q a s
Leaves Q (refused e s) = IsExclusive s.active
Leaves Q (crashed s) = IsExclusive s.active
Leaves Q (unfinished s) = IsExclusive s.active

abbrev pub Any : {A : Type 0} → A → Service → Type 0
Any a s = Unit

pub and_then-Leaves :
    {A B : Type 0} (Q : A → Service → Type 0) (R : B → Service → Type 0) (o : Served A)
    (f : A → Serving B)
    → Leaves Q o
    → ((a : A) (t : Service) → IsExclusive t.active → Q a t → Leaves R (f a t))
    → Leaves R (and_then o f)
and_then-Leaves Q R (served a s) f h g = g a s h.0 h.1
and_then-Leaves Q R (refused e s) f h g = h
and_then-Leaves Q R (crashed s) f h g = h
and_then-Leaves Q R (unfinished s) f h g = h

pub check-Leaves : (o : Option Error) (s : Service) → IsExclusive s.active → Leaves Any (check o s)
check-Leaves none s h = (h, tt)
check-Leaves (some e) s h = h

pub remove-Leaves : (id : String) (s : Service) → IsExclusive s.active → Leaves Any (remove id s)
unfolding remove
remove-Leaves id s h = (remove-IsExclusive id s.active h, tt)

pub remove_if-Leaves :
    (b : Bool) (id : String) (s : Service) → IsExclusive s.active → Leaves Any (remove_if b id s)
unfolding remove_if
remove_if-Leaves true id s h = remove-Leaves id s h
remove_if-Leaves false id s h = (h, tt)

pub logged-Leaves :
    (m : Serving (Unit {0})) (s : Service) → Leaves Any (m s) → Leaves Any (logged m s)
logged-Leaves m s h = logged_end (m s) h
  where
    logged_end :
        (o : Served (Unit {0}))
        → Leaves Any o
        → Leaves Any (elim o [
          | served u t ↦ served tt t
          | refused e t ↦ served tt t
          | crashed t ↦ crashed t
          | unfinished t ↦ unfinished t
        ])
    logged_end (served u t) h = (h.0, tt)
    logged_end (refused e t) h = (h, tt)
    logged_end (crashed t) h = h
    logged_end (unfinished t) h = h

-- The machine that a run leaves is on the channel of the entry under the id.
abbrev pub Stays : String → Sent → Service → Type 0
Stays id sent t = SameChannel id sent.machine t.active

outcome-Leaves :
    (id : String) (m : SwapStateMachine) (v : Verdict) (s : Service)
    → IsExclusive s.active
    → SameChannel id m s.active
    → Leaves (Stays id) (outcome m v s)
outcome-Leaves id m (returned b e) s h g = (h, g)
outcome-Leaves id m panicked s h g = h
outcome-Leaves id m out_of_fuel s h g = h

pub moved :
    (id : String) (m n : SwapStateMachine) (swaps : ActiveSwaps)
    → get_scid n.swap ≡ get_scid m.swap
    → SameChannel id m swaps
    → SameChannel id n swaps
moved id m n swaps p (inl h) = inl h
moved id m n swaps p (inr (old, is, h)) = inr (old, is, p ∙ h)

pub take_over-Leaves :
    (id : String) (m : SwapStateMachine) (r : Run) (s : Service)
    → terms r.machine.swap ≡ terms m.swap
    → SameChannel id m s.active
    → IsExclusive s.active
    → Leaves (Stays id) (take_over id r s)
take_over-Leaves id m r s p c h =
    let there = moved id m r.machine s.active (scid_of_terms _ _ p) c in
    outcome-Leaves id r.machine r.verdict (after_run id r s)
      (put-IsExclusive id r.machine s.active there h)
      (SameChannel-put id r.machine r.machine s.active refl)

-- A run whose machine may stand under the id.
pub outcome-Any :
    (m : SwapStateMachine) (v : Verdict) (s : Service)
    → IsExclusive s.active
    → Leaves Any (outcome m v s)
outcome-Any m (returned b e) s h = (h, tt)
outcome-Any m panicked s h = h
outcome-Any m out_of_fuel s h = h

-- An event for a machine that is on the channel of the entry.
pub send-Leaves :
    (w : World) (id : String) (m : SwapStateMachine) (e : EventType) (context : Option PeerMessage)
    (s : Service)
    → NoRequest context
    → SameChannel id m s.active
    → IsExclusive s.active
    → Leaves (Stays id) (send w id m e context s)
unfolding send
send-Leaves w id m e context s r c h =
    take_over-Leaves id m (send_event w m e context) s (send_event-terms w m e context r) c h

pub found :
    (id : String) (swaps : ActiveSwaps) (m : SwapStateMachine)
    → get_active_swap id swaps ≡ ok m
    → SameChannel id m swaps
unfolding get_active_swap
found id swaps m h = elim (Option-cases (lookup id swaps)) [
  | inl gone ↦ inl gone
  | inr (old, is) ↦ inr (old, is, ground arith)
]

answer-Leaves :
    (id : String) (r : Result SwapStateMachine) (s : Service)
    → ((m : SwapStateMachine) → r ≡ ok m → SameChannel id m s.active)
    → IsExclusive s.active
    → Leaves (λ m t. SameChannel id m t.active) (answer r s)
answer-Leaves id (ok m) s g h = (h, g m refl)
answer-Leaves id (err e) s g h = h

-- The active swap under an id.
pub active-Leaves :
    (id : String) (s : Service)
    → IsExclusive s.active
    → Leaves (λ m t. SameChannel id m t.active) (answer (get_active_swap id s.active) s)
active-Leaves id s h =
    answer-Leaves id (get_active_swap id s.active) s (λ m is. found id s.active m is) h

lookup-remove :
    (id j : String) (swaps : ActiveSwaps)
    → (lookup id (remove_active_swap j swaps) ≡ none)
      ⊎ (lookup id (remove_active_swap j swaps) ≡ lookup id swaps)
unfolding lookup remove_active_swap
lookup-remove id j [] = inl refl
lookup-remove id j ((i, m) ∷ swaps) = elim (Bool-cases (i == j)) [
  | inl t ↦ elim (Bool-cases (i == id)) [
    | inl u ↦
        let p : i ≡ j = (string_eq.agrees i j).0 t in
        let q : i ≡ id = (string_eq.agrees i id).0 u in
        let r : j ≡ id = sym p ∙ q in
        inl (
          rw t (subst (λ k. lookup id (remove_active_swap k swaps) ≡ none) (sym r) (gone id swaps)))
    | inr u ↦ rw (t, u) (lookup-remove id j swaps)
  ]
  | inr f ↦ elim (Bool-cases (i == id)) [
    | inl u ↦ inr (rw (f, u) (ground (arith, u)))
    | inr u ↦ elim (lookup-remove id j swaps) [
      | inl h ↦ inl (ground arith)
      | inr h ↦ inr (ground arith)
    ]
  ]
]

pub SameChannel-remove :
    (id j : String) (m : SwapStateMachine) (swaps : ActiveSwaps)
    → SameChannel id m swaps
    → SameChannel id m (remove_active_swap j swaps)
SameChannel-remove id j m swaps c = elim (lookup-remove id j swaps) [
  | inl h ↦ inl h
  | inr h ↦ elim c [ inl g ↦ inl (h ∙ g) | inr (old, is, g) ↦ inr (old, h ∙ is, g) ]
]
