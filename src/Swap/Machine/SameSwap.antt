-- ===== src/Swap/Machine/SameSwap.antt =====
-- What stays of a swap through its life: no event, message or restart changes the peers, the role, the
-- key, or a request that is there.
use peerswap.Prelude.{
  Bool, true, false, subst, ◌≡◌, refl, ◌∙◌, List, Option, none, some, ◌⊎◌, inl, inr, if_rule,
  Option-cases, arith,
}
use peerswap.Prelude.Equality.{◌==◌}
use peerswap.Swap.Error.{ok, result_rule}
use peerswap.Swap.Message.{PeerMessage}
use peerswap.Swap.State.{state_eq, EventType, event_eq, done, on_invalid_message}
use peerswap.Swap.Data.{SwapData}
use peerswap.Swap.Services.{Effect}
use peerswap.Swap.Action.Execute.Kinds.{terms, Terms}
use peerswap.Swap.Context.{validate, apply}
use peerswap.Swap.Machine.{SwapStateMachine, World, Run, store_and_loop, send_event}
use peerswap.Swap.Machine.Start.{from_store}
use peerswap.Swap.Machine.History.{Reaches, start, event, restart}
use peerswap.Swap.Machine.Terms.{plain_event-RunHas, recover-RunHas, store_and_loop-RunHas}

-- What was there is still there.
abbrev pub StillThere {ℓ} : {A : Type ℓ} → Option A → Option A → Type ℓ
StillThere a b = (a ≡ none) ⊎ (b ≡ a)

-- The second is a later state of the first.
pub record IsSameSwap (a b : SwapData) : Type 0 where
  pub peer_is : b.peer_node_id ≡ a.peer_node_id
  pub initiator_is : b.initiator_node_id ≡ a.initiator_node_id
  pub role_is : b.role ≡ a.role
  pub key_is : b.privkey ≡ a.privkey
  pub swap_in_request : StillThere a.swap_in_request b.swap_in_request
  pub swap_out_request : StillThere a.swap_out_request b.swap_out_request

of_terms : (a b : SwapData) → terms b ≡ terms a → IsSameSwap a b
of_terms a b h = record {
  peer_is = cc;
  initiator_is = cc;
  role_is = cc;
  key_is = cc;
  swap_in_request = inr (cc);
  swap_out_request = inr (cc);
}

StillThere-trans :
    {A : Type 0} (a b c : Option A) → StillThere a b → StillThere b c → StillThere a c
StillThere-trans a b c (inl h) g = inl h
StillThere-trans a b c (inr h) (inl g) = inl (cc)
StillThere-trans a b c (inr h) (inr g) = inr (cc)

pub IsSameSwap-trans : (a b c : SwapData) → IsSameSwap a b → IsSameSwap b c → IsSameSwap a c
IsSameSwap-trans a b c h g = record {
  peer_is = g.peer_is ∙ h.peer_is;
  initiator_is = g.initiator_is ∙ h.initiator_is;
  role_is = g.role_is ∙ h.role_is;
  key_is = g.key_is ∙ h.key_is;
  swap_in_request = StillThere-trans _ _ _ h.swap_in_request g.swap_in_request;
  swap_out_request = StillThere-trans _ _ _ h.swap_out_request g.swap_out_request;
}

-- A message that is accepted adds to the swap.
pub apply-IsSameSwap :
    (d : SwapData) (msg : PeerMessage) (d' : SwapData) → apply d msg ≡ ok d' → IsSameSwap d d'
unfolding apply
apply-IsSameSwap d (PeerMessage.swap_in_request msg) d' h = elim (Option-cases d.swap_in_request) [
  | inl free ↦
      let is : record d { swap_in_request = some msg } ≡ d' = ground arith in
      subst (IsSameSwap d) is (record {
        peer_is = refl;
        initiator_is = refl;
        role_is = refl;
        key_is = refl;
        swap_in_request = inl free;
        swap_out_request = inr refl;
      })
  | inr (old, taken) ↦ ground arith
]
apply-IsSameSwap d (PeerMessage.swap_out_request msg) d' h =
    elim (Option-cases d.swap_out_request) [
      | inl free ↦
          let is : record d { swap_out_request = some msg } ≡ d' = ground arith in
          subst (IsSameSwap d) is (record {
            peer_is = refl;
            initiator_is = refl;
            role_is = refl;
            key_is = refl;
            swap_in_request = inr refl;
            swap_out_request = inl free;
          })
      | inr (old, taken) ↦ ground arith
    ]
apply-IsSameSwap d (PeerMessage.cancel msg) d' h = of_terms d d' (ground arith)
apply-IsSameSwap d _ d' h = of_terms d d' (ground arith)

record RunContinues (d : SwapData) (r : Run) : Type 0 where
  continues : IsSameSwap d r.machine.swap

loop-Continues :
    (w : World) (m : SwapStateMachine) (e : EventType) (d : SwapData)
    → IsSameSwap d m.swap
    → RunContinues d (store_and_loop w m e)
loop-Continues w m e d h = record {
  continues =
      IsSameSwap-trans d m.swap _ h
        (of_terms m.swap _ (store_and_loop-RunHas (terms m.swap) w m e refl).holds);
}

with_message :
    (w : World) (m : SwapStateMachine) (e : EventType) (msg : PeerMessage)
    → RunContinues m.swap (send_event w m e (some msg))
unfolding send_event
with_message w m e msg =
    let same = of_terms m.swap m.swap refl in
    if_rule (RunContinues m.swap) (e == done) _ _ (λ _. record { continues = same })
      λ _.
        result_rule (RunContinues m.swap) (validate m.swap msg) _ _
          (λ _ _. loop-Continues w m on_invalid_message m.swap same)
          λ _ _.
            result_rule (RunContinues m.swap) (apply m.swap msg) _ _
              (λ _ _. record { continues = same })
              (λ d is.
                loop-Continues w (record m { swap = d }) e m.swap
                  (apply-IsSameSwap m.swap msg d is))

pub send_event-IsSameSwap :
    (w : World) (m : SwapStateMachine) (e : EventType) (context : Option PeerMessage)
    → IsSameSwap m.swap (send_event w m e context).machine.swap
send_event-IsSameSwap w m e none = of_terms _ _ (plain_event-RunHas (terms m.swap) w m e refl).holds
send_event-IsSameSwap w m e (some msg) = (with_message w m e msg).continues

-- In the life of a swap its peers, its role and its key stay, and so does a request once it is there.
pub history-IsSameSwap :
    (m n : SwapStateMachine) (es : List Effect) → Reaches m n es → IsSameSwap m.swap n.swap
history-IsSameSwap m n es start = of_terms m.swap m.swap refl
history-IsSameSwap m n es (event n' es' h w e context) =
    IsSameSwap-trans m.swap n'.swap _ (history-IsSameSwap m n' es' h)
      (send_event-IsSameSwap w n' e context)
history-IsSameSwap m n es (restart n' es' h w) =
    IsSameSwap-trans m.swap n'.swap _ (history-IsSameSwap m n' es' h)
      (of_terms n'.swap _ (recover-RunHas (terms n'.swap) w (from_store n') refl).holds)

-- Whether a message is a request.
abbrev pub is_request : PeerMessage → Bool
is_request (PeerMessage.swap_in_request m) = true
is_request (PeerMessage.swap_out_request m) = true
is_request _ = false

apply-terms :
    (d : SwapData) (msg : PeerMessage) (d' : SwapData)
    → is_request msg ≡ false
    → apply d msg ≡ ok d'
    → terms d' ≡ terms d
unfolding apply
apply-terms d (PeerMessage.swap_in_request msg) d' r h = ground arith
apply-terms d (PeerMessage.cancel msg) d' r h = ground arith
apply-terms d _ d' r h = ground arith

-- Where the terms after a message come from: the machine, or the data with the message.
abbrev pub TermsFrom : SwapData → PeerMessage → Terms → Type 0
TermsFrom d msg t = (t ≡ terms d) ⊎ ((d' : SwapData) × (apply d msg ≡ ok d') × (t ≡ terms d'))

record RunFrom (d : SwapData) (msg : PeerMessage) (r : Run) : Type 0 where
  from : TermsFrom d msg (terms r.machine.swap)

with_message-RunFrom :
    (w : World) (m : SwapStateMachine) (e : EventType) (msg : PeerMessage)
    → RunFrom m.swap msg (send_event w m e (some msg))
unfolding send_event
with_message-RunFrom w m e msg =
    if_rule (RunFrom m.swap msg) (e == done) _ _ (λ _. record { from = inl refl })
      λ _.
        result_rule (RunFrom m.swap msg) (validate m.swap msg) _ _
          (λ _ _. record {
            from = inl (store_and_loop-RunHas (terms m.swap) w m on_invalid_message refl).holds;
          })
          λ _ _.
            result_rule (RunFrom m.swap msg) (apply m.swap msg) _ _
              (λ _ _. record { from = inl refl })
              (λ d is. record {
                from = inr (
                  d,
                  is,
                  (store_and_loop-RunHas (terms d) w (record m { swap = d }) e refl).holds,
                );
              })

pub message-TermsFrom :
    (w : World) (m : SwapStateMachine) (e : EventType) (msg : PeerMessage)
    → TermsFrom m.swap msg (terms (send_event w m e (some msg)).machine.swap)
message-TermsFrom w m e msg = (with_message-RunFrom w m e msg).from

-- A message that is no request.
abbrev pub NoRequest : Option PeerMessage → Type 0
NoRequest none = Unit
NoRequest (some msg) = is_request msg ≡ false

same_or_applied :
    (d : SwapData) (msg : PeerMessage) (t : Terms)
    → is_request msg ≡ false
    → TermsFrom d msg t
    → t ≡ terms d
same_or_applied d msg t r (inl h) = h
same_or_applied d msg t r (inr (d', is, h)) = h ∙ apply-terms d msg d' r is

pub send_event-terms :
    (w : World) (m : SwapStateMachine) (e : EventType) (context : Option PeerMessage)
    → NoRequest context
    → terms (send_event w m e context).machine.swap ≡ terms m.swap
send_event-terms w m e none h = (plain_event-RunHas (terms m.swap) w m e refl).holds
send_event-terms w m e (some msg) h = same_or_applied m.swap msg _ h (message-TermsFrom w m e msg)
