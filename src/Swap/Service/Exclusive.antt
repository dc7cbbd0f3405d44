-- ===== src/Swap/Service/Exclusive.antt =====
-- No channel has two active swaps: how an operation on one machine keeps that.
pub mod Rules
pub mod Events
pub mod Start
pub mod Orders
pub mod Messages
pub mod Serve
use peerswap.Prelude.{
  ◌≡◌, refl, ap, sym, subst, true, false, [], ◌∷◌, none, some, ◌⊎◌, inl, inr, arith, Bool-cases,
  if_rule,
}
use peerswap.Prelude.Equality.{◌==◌, string_eq}
use peerswap.Prelude.Text.{String}
use peerswap.Swap.Data.{SwapData, get_scid}
use peerswap.Swap.Table.{lookup}
use peerswap.Swap.Action.Execute.Kinds.{Terms, terms}
use peerswap.Swap.Machine.{SwapStateMachine}
use peerswap.Swap.Service.{ActiveSwaps, on_channel, remove_active_swap}
use peerswap.Swap.Service.Serving.{put_swap}

-- The channel is none, or no swap of the list is on it.
abbrev pub IsFree : String → ActiveSwaps → Type 0
IsFree channel swaps = (channel ≡ "") ⊎ (on_channel channel swaps ≡ none)

-- No two swaps have the same text as their short channel id; a swap that has no request yet has none.
abbrev pub IsExclusive : ActiveSwaps → Type 0
IsExclusive [] = Unit
IsExclusive ((i, m) ∷ swaps) = IsFree (get_scid m.swap) swaps × IsExclusive swaps

-- The channel of a swap is one of its terms.
abbrev scid_of : Terms → String
scid_of (peer, initiator, role, key, swap_in, swap_out) = elim swap_in [
  | some msg ↦ msg.scid
  | none ↦ elim swap_out [ some msg ↦ msg.scid | none ↦ "" ]
]

pub scid_of_terms : (a b : SwapData) → terms a ≡ terms b → get_scid a ≡ get_scid b
unfolding get_scid
scid_of_terms a b h = ap scid_of h

pub on_channel-remove :
    (channel id : String) (swaps : ActiveSwaps)
    → on_channel channel swaps ≡ none
    → on_channel channel (remove_active_swap id swaps) ≡ none
unfolding on_channel remove_active_swap
on_channel-remove channel id [] h = refl
on_channel-remove channel id ((i, m) ∷ swaps) h = ground (arith, on_channel-remove channel id swaps)

IsFree-remove :
    (channel id : String) (swaps : ActiveSwaps)
    → IsFree channel swaps
    → IsFree channel (remove_active_swap id swaps)
IsFree-remove channel id swaps (inl h) = inl h
IsFree-remove channel id swaps (inr h) = inr (on_channel-remove channel id swaps h)

pub remove-IsExclusive :
    (id : String) (swaps : ActiveSwaps)
    → IsExclusive swaps
    → IsExclusive (remove_active_swap id swaps)
unfolding remove_active_swap
remove-IsExclusive id [] h = tt
remove-IsExclusive id ((i, m) ∷ swaps) h =
    let rest = remove-IsExclusive id swaps h.1 in
    if_rule IsExclusive (i == id) _ _ (λ _. rest)
      (λ _. (IsFree-remove (get_scid m.swap) id swaps h.0, rest))

-- The machine that is found under the id, if there is one, is on the same channel.
abbrev pub SameChannel : String → SwapStateMachine → ActiveSwaps → Type 0
SameChannel id m swaps =
    (lookup id swaps ≡ none)
    ⊎ ((old : SwapStateMachine) × (lookup id swaps ≡ some old)
        × (get_scid m.swap ≡ get_scid old.swap))

module _ (id i : String) (m old : SwapStateMachine) (swaps : ActiveSwaps)
    (s : SameChannel id m ((i, old) ∷ swaps)) where
  same_head : (i == id) ≡ true → get_scid m.swap ≡ get_scid old.swap
  unfolding lookup
  same_head here = elim s [ inl h ↦ ground arith | inr (found, is, h) ↦ ground arith ]

  same_tail : (i == id) ≡ false → SameChannel id m swaps
  unfolding lookup
  same_tail below = elim s [
    | inl h ↦ inl (ground arith)
    | inr (found, is, h) ↦ inr (found, ground arith, h)
  ]

on_channel-put :
    (channel id : String) (m : SwapStateMachine) (swaps : ActiveSwaps)
    → SameChannel id m swaps
    → on_channel channel swaps ≡ none
    → on_channel channel (put_swap id m swaps) ≡ none
unfolding on_channel put_swap
on_channel-put channel id m [] s h = refl
on_channel-put channel id m ((i, old) ∷ swaps) s h = elim (Bool-cases (i == id)) [
  | inl here ↦ ground (arith, same_head id i m old swaps s here)
  | inr below ↦
      let rest = on_channel-put channel id m swaps (same_tail id i m old swaps s below) in
      ground (arith, rest (ground arith))
]

IsFree-put :
    (channel id : String) (m : SwapStateMachine) (swaps : ActiveSwaps)
    → SameChannel id m swaps
    → IsFree channel swaps
    → IsFree channel (put_swap id m swaps)
IsFree-put channel id m swaps s (inl h) = inl h
IsFree-put channel id m swaps s (inr h) = inr (on_channel-put channel id m swaps s h)

IsFree-at : (a b : String) (swaps : ActiveSwaps) → a ≡ b → IsFree b swaps → IsFree a swaps
IsFree-at a b swaps p h = subst (λ c. IsFree c swaps) (sym p) h

pub put-IsExclusive :
    (id : String) (m : SwapStateMachine) (swaps : ActiveSwaps)
    → SameChannel id m swaps
    → IsExclusive swaps
    → IsExclusive (put_swap id m swaps)
unfolding put_swap
put-IsExclusive id m [] s h = tt
put-IsExclusive id m ((i, old) ∷ swaps) s h = elim (Bool-cases (i == id)) [
  | inl here ↦ rw here (
    IsFree-at (get_scid m.swap) (get_scid old.swap) swaps (same_head id i m old swaps s here) h.0,
    h.1,
  )
  | inr below ↦
      let tail = same_tail id i m old swaps s below in
      rw below
        (IsFree-put (get_scid old.swap) id m swaps tail h.0, put-IsExclusive id m swaps tail h.1)
]

-- After the machine was put it is found, if there was one.
pub SameChannel-put :
    (id : String) (m n : SwapStateMachine) (swaps : ActiveSwaps)
    → get_scid n.swap ≡ get_scid m.swap
    → SameChannel id n (put_swap id m swaps)
unfolding put_swap lookup
SameChannel-put id m n [] h = inl refl
SameChannel-put id m n ((i, old) ∷ swaps) h = elim (Bool-cases (i == id)) [
  | inl here ↦ inr (m, ground arith, h)
  | inr below ↦ rw below (rw below (SameChannel-put id m n swaps h))
]
