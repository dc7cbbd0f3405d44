-- ===== src/Swap/Service/Channels.antt =====
-- The lock of a channel. A channel is named by the text of its short channel id.
use peerswap.Prelude.{
  ◌≡◌, ◌≢◌, refl, [], ◌∷◌, none, some, All, arith, Bool-cases, Option-cases, sym, ap, ◌∙◌, inl, inr,
  false, subst,
}
use peerswap.Prelude.Equality.{◌==◌, string_eq}
use peerswap.Prelude.Text.{String}
use peerswap.Swap.Error.{Error, Result, ok, err}
use peerswap.Swap.Data.{get_scid}
use peerswap.Swap.Table.{lookup}
use peerswap.Swap.Machine.{SwapStateMachine}
use peerswap.Swap.Service.{ActiveSwaps, get_active_swap, remove_active_swap, on_channel, lock_swap}

pub gone : (id : String) (swaps : ActiveSwaps) → lookup id (remove_active_swap id swaps) ≡ none
unfolding lookup remove_active_swap
gone id [] = refl
gone id ((i, m) ∷ swaps) = elim (Bool-cases (i == id)) [
  | inl t ↦ ground (arith, gone id swaps, t)
  | inr f ↦ ground (arith, gone id swaps, f)
]

pub locked :
    (id channel : String) (m : SwapStateMachine) (swaps new : ActiveSwaps)
    → lock_swap id channel m swaps ≡ ok new
    → (on_channel channel swaps ≡ none) × (new ≡ (id, m) ∷ remove_active_swap id swaps)
unfolding lock_swap
locked id channel m swaps new l = elim (Option-cases (on_channel channel swaps)) [
  | inl free ↦ (free, ground arith)
  | inr (i, taken) ↦ ground arith
]

-- The swaps with another id stay when a swap is removed.
lookup-remove_other :
    (id j : String) (swaps : ActiveSwaps)
    → j ≢ id
    → lookup j (remove_active_swap id swaps) ≡ lookup j swaps
unfolding lookup remove_active_swap
lookup-remove_other id j [] h = refl
lookup-remove_other id j ((i, m) ∷ swaps) h =
    let rest = lookup-remove_other id j swaps h in
    elim (Bool-cases (i == id)) [
      | inl same ↦
          let apart : (i == j) ≡ false = elim (Bool-cases (i == j)) [
            | inl is ↦
                elim (h (sym ((string_eq.agrees i j).0 is) ∙ (string_eq.agrees i id).0 same)) [ ]
            | inr other ↦ other
          ] in
          rw (same, apart, rest)
      | inr other ↦ rw (other, rest)
    ]

-- An active swap with the short channel id.
pub data Holds (channel : String) (i : String) : ActiveSwaps → Type 0 where
  here :
      (m : SwapStateMachine) (swaps : ActiveSwaps)
      → get_scid m.swap ≡ channel
      → Holds channel i ((i, m) ∷ swaps)
  below :
      (j : String) (m : SwapStateMachine) (swaps : ActiveSwaps)
      → Holds channel i swaps
      → Holds channel i ((j, m) ∷ swaps)

-- What a lock gives, on either side of its test.
pub data IsLocked (id channel : String) (m : SwapStateMachine) (swaps : ActiveSwaps)
    : Result ActiveSwaps → Type 0 where
  admitted :
      (new : ActiveSwaps)
      → All (λ (e : String × SwapStateMachine). get_scid e.1.swap ≢ channel) swaps
      → get_active_swap id new ≡ ok m
      → ((j : String) → j ≢ id → get_active_swap j new ≡ get_active_swap j swaps)
      → get_active_swap id (remove_active_swap id new) ≡ err Error.swap_does_not_exist
      → IsLocked id channel m swaps (ok new)
  refused :
      (i : String)
      → Holds channel i swaps
      → IsLocked id channel m swaps (err (Error.active_swap channel i))

none-free :
    (channel : String) (swaps : ActiveSwaps)
    → on_channel channel swaps ≡ none
    → All (λ (e : String × SwapStateMachine). get_scid e.1.swap ≢ channel) swaps
unfolding on_channel
none-free channel [] h = tt
none-free channel ((i, m) ∷ swaps) h = elim (Bool-cases (get_scid m.swap == channel)) [
  | inl on ↦ ground (arith, h, on)
  | inr off ↦ (
    (λ same. cc (off, (string_eq.agrees (get_scid m.swap) channel).1 same)),
    none-free channel swaps (ground (arith, h, off)),
  )
]

some-Holds :
    (channel i : String) (swaps : ActiveSwaps)
    → on_channel channel swaps ≡ some i
    → Holds channel i swaps
unfolding on_channel
some-Holds channel i [] h = ground (arith, h)
some-Holds channel i ((j, m) ∷ swaps) h = elim (Bool-cases (get_scid m.swap == channel)) [
  | inl on ↦
      let same : j ≡ i = ground (arith, h, on) in
      subst (λ k. Holds channel i ((k, m) ∷ swaps)) (sym same)
        (Holds.here m swaps ((string_eq.agrees (get_scid m.swap) channel).0 on))
  | inr off ↦ Holds.below j m swaps (some-Holds channel i swaps (ground (arith, h, off)))
]

-- The entry at the front.
lookup-front :
    (id j : String) (m : SwapStateMachine) (swaps : ActiveSwaps)
    → j ≢ id
    → lookup j ((id, m) ∷ swaps) ≡ lookup j swaps
unfolding lookup
lookup-front id j m swaps h = elim (Bool-cases (id == j)) [
  | inl is ↦ elim (h (sym ((string_eq.agrees id j).0 is))) [ ]
  | inr other ↦ rw other
]

lock_swap-free :
    (id channel : String) (m : SwapStateMachine) (swaps : ActiveSwaps)
    → on_channel channel swaps ≡ none
    → lock_swap id channel m swaps ≡ ok ((id, m) ∷ remove_active_swap id swaps)
unfolding lock_swap
lock_swap-free id channel m swaps h = rw (h, lock_swap)

lock_swap-taken :
    (id channel i : String) (m : SwapStateMachine) (swaps : ActiveSwaps)
    → on_channel channel swaps ≡ some i
    → lock_swap id channel m swaps ≡ err (Error.active_swap channel i)
unfolding lock_swap
lock_swap-taken id channel i m swaps h = rw (h, lock_swap)

-- A lock is refused only with the name of an active swap that has the same text as its short channel
-- id. If it is granted no active swap has that text, the new swap is found under its id and all others
-- as before, and once it is removed nothing is found under its id.
pub lock_swap-IsLocked :
    (id channel : String) (m : SwapStateMachine) (swaps : ActiveSwaps)
    → IsLocked id channel m swaps (lock_swap id channel m swaps)
unfolding get_active_swap
lock_swap-IsLocked id channel m swaps = elim (Option-cases (on_channel channel swaps)) [
  | inl free ↦
      let entries : ActiveSwaps = (id, m) ∷ remove_active_swap id swaps in
      subst (IsLocked id channel m swaps) (sym (lock_swap-free id channel m swaps free)) (
        IsLocked.admitted entries (none-free channel swaps free)
          (cc ((string_eq.agrees id id).1 refl))
          (λ j other.
            ap (λ o. elim o [ none ↦ err Error.swap_does_not_exist | some n ↦ ok n ])
              (lookup-front id j m (remove_active_swap id swaps) other
                ∙ lookup-remove_other id j swaps other))
          (cc (gone id entries)))
  | inr (i, taken) ↦
      subst (IsLocked id channel m swaps) (sym (lock_swap-taken id channel i m swaps taken))
        (IsLocked.refused i (some-Holds channel i swaps taken))
]
