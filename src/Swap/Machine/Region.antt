-- ===== src/Swap/Machine/Region.antt =====
-- What a table of states says of every step of its machine: a set of states that the table's edges
-- do not leave, and the kinds of call that the actions of those states make.
use peerswap.Prelude.{
  ◌≡◌, Bool, true, false, ◌&&◌, not, ◌||◌, List, [], ◌∷◌, Option, none, some, arith, all, sym, ap,
  ◌∙◌, inl, inr, both_left, both_right, Bool-cases, Option-cases, if◌then◌else◌,
}
use peerswap.Prelude.Equality.{Eq}
use peerswap.Swap.Error.{ok}
use peerswap.Swap.State.{StateType, EventType, state_eq, event_eq}
use peerswap.Swap.Action.{Action}
use peerswap.Swap.Action.Execute.Kinds.{Kind, allows}
use peerswap.Swap.Table.{State, States, lookup}
use peerswap.Swap.Machine.{SwapStateMachine, get_next_state, action_of}

-- What holds of every entry of a table holds of the entry that is found.
pub lookup-all :
    {K V : Type 0} ⦃e : Eq K⦄ (p : K → V → Bool) (k : K) (v : V) (l : List (K × V))
    → all (λ x. p x.0 x.1) l ≡ true
    → lookup k l ≡ some v
    → p k v ≡ true
unfolding lookup
lookup-all p k v [] h g = ground arith
lookup-all ⦃e⦄ p k v ((j, w) ∷ rest) h g = elim (Bool-cases (e.equal j k)) [
  | inl t ↦ ground (arith, (e.agrees j k).0 t)
  | inr f ↦
      lookup-all p k v rest (both_right (p j w) _ h)
        (sym (ap (λ b. if b then some w else lookup k rest) f) ∙ g)
]

pub implied : (a b : Bool) → (not a || b) ≡ true → a ≡ true → b ≡ true
implied true b h g = h
implied false b h g = ground arith

abbrev may_act : (Kind → Bool) → Option Action → Bool
may_act k none = true
may_act k (some a) = allows k a

-- The edges of a state of the set lead into the set, and its action makes calls of the kinds only.
abbrev entry_stays : (StateType → Bool) → (Kind → Bool) → StateType → State → Bool
entry_stays region k s st =
    not (region s) || (all (λ edge. region edge.1) st.events && may_act k st.action)

abbrev pub IsClosed : States → (StateType → Bool) → (Kind → Bool) → Type 0
IsClosed t region k = all (λ x. entry_stays region k x.0 x.1) t ≡ true

module _ (region : StateType → Bool) (k : Kind → Bool) where
  entry_of :
      (t : States) (s : StateType) (st : State)
      → IsClosed t region k
      → region s ≡ true
      → lookup s t ≡ some st
      → (all (λ edge. region edge.1) st.events && may_act k st.action) ≡ true
  entry_of t s st c r h =
      implied (region s) (all (λ edge. region edge.1) st.events && may_act k st.action)
        (lookup-all (entry_stays region k) s st t c h) r

  pub next-region :
      (m : SwapStateMachine) (e : EventType) (s : StateType)
      → IsClosed m.states region k
      → region m.current ≡ true
      → get_next_state m e ≡ ok s
      → region s ≡ true
  unfolding get_next_state
  next-region m e s c r h = elim (Option-cases (lookup m.current m.states)) [
    | inl n ↦ ground arith
    | inr (st, g) ↦ elim (Option-cases (lookup e st.events)) [
      | inl n ↦ ground arith
      | inr (s', f) ↦
          let edges = both_left _ (may_act k st.action) (entry_of m.states m.current st c r g) in
          ground (arith, lookup-all (λ e' t. region t) e s' st.events edges f)
    ]
  ]

  pub action-allows :
      (m : SwapStateMachine) (s : StateType) (a : Action)
      → IsClosed m.states region k
      → region s ≡ true
      → action_of m s ≡ some a
      → allows k a ≡ true
  unfolding action_of
  action-allows m s a c r h = elim (Option-cases (lookup s m.states)) [
    | inl n ↦ ground arith
    | inr (st, g) ↦
        let acts =
          both_right (all (λ edge. region edge.1) st.events) _ (entry_of m.states s st c r g) in
        ground (arith, acts)
  ]
