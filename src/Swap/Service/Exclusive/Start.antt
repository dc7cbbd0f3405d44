-- ===== src/Swap/Service/Exclusive/Start.antt =====
-- A swap that starts keeps the active swaps one to a channel.
use peerswap.Prelude.{◌≡◌, refl, ◌∙◌, sym, ◌∷◌, none, some, ◌⊎◌, inl, inr, arith, subst}
use peerswap.Prelude.Equality.{string_eq, nat_eq}
use peerswap.Prelude.Text.{String}
use peerswap.Swap.Error.{ok}
use peerswap.Swap.Message.{PeerMessage}
use peerswap.Swap.State.{EventType}
use peerswap.Swap.Data.{SwapData, get_scid}
use peerswap.Swap.Context.{apply}
use peerswap.Swap.Action.Execute.Kinds.{terms}
use peerswap.Swap.Machine.{SwapStateMachine, World, send_event}
use peerswap.Swap.Machine.SameSwap.{TermsFrom, message-TermsFrom}
use peerswap.Swap.Service.{ActiveSwaps, lock_swap, on_channel, remove_active_swap}
use peerswap.Swap.Service.Serving.{Service, send, check, put_swap, after_run}
use peerswap.Swap.Service.Channels.{locked}
use peerswap.Swap.Service.Handlers.{drive}
use peerswap.Swap.Service.Exclusive.{
  on_channel-remove, IsExclusive, IsFree, remove-IsExclusive, scid_of_terms,
}
use peerswap.Swap.Service.Exclusive.Rules.{
  Leaves, Any, and_then-Leaves, check-Leaves, remove_if-Leaves, outcome-Any,
}

-- A new machine stands in front, under its id, and its channel is free below.
pub record IsLockedFor (id channel : String) (swaps : ActiveSwaps) : Type 0 where
  pub first : SwapStateMachine
  pub below : ActiveSwaps
  pub is : swaps ≡ (id, first) ∷ below
  pub free : on_channel channel below ≡ none
  pub exclusive : IsExclusive below

pub lock_swap-IsLockedFor :
    (id channel : String) (m : SwapStateMachine) (swaps new : ActiveSwaps)
    → IsExclusive swaps
    → lock_swap id channel m swaps ≡ ok new
    → IsLockedFor id channel new
lock_swap-IsLockedFor id channel m swaps new h l =
    let (free, is) = locked id channel m swaps new l in
    record {
      first = m;
      below = remove_active_swap id swaps;
      is = is;
      free = on_channel-remove channel id swaps free;
      exclusive = remove-IsExclusive id swaps h;
    }

-- A machine without a request, or on the channel, may take the place.
pub placed :
    (id channel : String) (n : SwapStateMachine) (swaps : ActiveSwaps)
    → IsLockedFor id channel swaps
    → (get_scid n.swap ≡ "") ⊎ (get_scid n.swap ≡ channel)
    → IsExclusive (put_swap id n swaps)
unfolding put_swap
placed id channel n swaps l h =
    let here : IsFree (get_scid n.swap) l.below = elim h [
      | inl none_yet ↦ inl none_yet
      | inr on_it ↦ inr (subst (λ c. on_channel c l.below ≡ none) (sym on_it) l.free)
    ] in
    let self = (string_eq.agrees id id).1 refl in
    subst (λ xs. IsExclusive (put_swap id n xs)) (sym l.is) (rw self (here, l.exclusive))

-- The channel of a request.
abbrev pub channel_of : PeerMessage → String
channel_of (PeerMessage.swap_in_request msg) = msg.scid
channel_of (PeerMessage.swap_out_request msg) = msg.scid
channel_of _ = ""

applied-scid :
    (d : SwapData) (msg : PeerMessage) (d' : SwapData)
    → d.swap_in_request ≡ none
    → d.swap_out_request ≡ none
    → apply d msg ≡ ok d'
    → get_scid d' ≡ channel_of msg
unfolding apply get_scid
applied-scid d (PeerMessage.swap_in_request msg) d' p q h = ground arith
applied-scid d (PeerMessage.swap_out_request msg) d' p q h = ground arith
applied-scid d (PeerMessage.cancel msg) d' p q h = ground arith
applied-scid d _ d' p q h = ground arith

no_request-scid :
    (d : SwapData) → d.swap_in_request ≡ none → d.swap_out_request ≡ none → get_scid d ≡ ""
unfolding get_scid
no_request-scid d p q = ground arith

-- After its first event a new machine has no request, or it is on the channel of the request.
started-scid :
    (d : SwapData) (msg : PeerMessage) (n : SwapData)
    → d.swap_in_request ≡ none
    → d.swap_out_request ≡ none
    → TermsFrom d msg (terms n)
    → (get_scid n ≡ "") ⊎ (get_scid n ≡ channel_of msg)
started-scid d msg n p q (inl h) = inl (scid_of_terms n d h ∙ no_request-scid d p q)
started-scid d msg n p q (inr (d', is, h)) =
    inr (scid_of_terms n d' h ∙ applied-scid d msg d' p q is)

-- The machine of a new swap: it has no request yet.
pub record IsNew (m : SwapStateMachine) : Type 0 where
  pub no_swap_in : m.swap.swap_in_request ≡ none
  pub no_swap_out : m.swap.swap_out_request ≡ none

-- A new machine stands under its id, on no channel yet.
pub lock_swap-IsExclusive :
    (id channel : String) (m : SwapStateMachine) (swaps locked_swaps : ActiveSwaps)
    → IsNew m
    → IsExclusive swaps
    → lock_swap id channel m swaps ≡ ok locked_swaps
    → IsExclusive locked_swaps
lock_swap-IsExclusive id channel m swaps locked_swaps new h l =
    let (free, is) = locked id channel m swaps locked_swaps l in
    subst IsExclusive (sym is)
      (inl (no_request-scid m.swap new.no_swap_in new.no_swap_out), remove-IsExclusive id swaps h)

pub start-Leaves :
    (w : World) (m : SwapStateMachine) (e : EventType) (msg : PeerMessage) (s : Service)
    → IsNew m
    → IsLockedFor m.swap_id (channel_of msg) s.active
    → Leaves Any (send w m.swap_id m e (some msg) s)
unfolding send
start-Leaves w m e msg s new l =
    let r = send_event w m e (some msg) in
    outcome-Any r.machine r.verdict (after_run m.swap_id r s) (
      placed m.swap_id (channel_of msg) r.machine s.active l (
        started-scid m.swap msg r.machine.swap new.no_swap_in new.no_swap_out
          (message-TermsFrom w m e msg)))

pub drive_started-Leaves :
    (w : World) (m : SwapStateMachine) (e : EventType) (msg : PeerMessage) (s : Service)
    → IsNew m
    → IsLockedFor m.swap_id (channel_of msg) s.active
    → Leaves Any (drive w m.swap_id m e (some msg) s)
unfolding drive
drive_started-Leaves w m e msg s new l =
    and_then-Leaves Any Any (send w m.swap_id m e (some msg) s) _ (start-Leaves w m e msg s new l)
      λ sent t h _.
        and_then-Leaves Any Any (check sent.error t) _ (check-Leaves sent.error t h)
          (λ u t' g _. remove_if-Leaves sent.done m.swap_id t' g)
