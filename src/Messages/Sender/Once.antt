-- ===== src/Messages/Sender/Once.antt =====
-- No sender is stopped twice.
use peerswap.Prelude.{
  ℕ, suc, ◌+◌, ◌≤◌, ◌≡◌, refl, Bool-cases, Option-cases, List, [], ◌∷◌, Option, some, inl, inr,
  false, ltb, arith,
}
use peerswap.Prelude.Equality.{◌==◌, nat_eq, string_eq}
use peerswap.Prelude.Text.{String}
use peerswap.Swap.Table.{lookup}
use peerswap.Messages.Sender.{
  Manager, new_manager, same, times_stopped, add_sender, delete, stop_sender, remove_sender, Use,
  add, remove, run,
}

-- How often a sender stands in the map.
unfoldable pub times_kept : ℕ → List (String × ℕ) → ℕ
times_kept x [] = 0
times_kept x ((i, s) ∷ rest) = same s x + times_kept x rest

-- Each sender stands in one place at most, the map or the stopped ones, and one that is not made
-- yet in none.
pub record IsSound (made : ℕ) (m : Manager) : Type 0 where
  pub once : (x : ℕ) → times_kept x m.messengers + times_stopped x m.stopped ≤ 1
  pub later : (x : ℕ) → made ≤ x → times_kept x m.messengers + times_stopped x m.stopped ≡ 0

times_kept-delete :
    (x : ℕ) (id : String) (ms : List (String × ℕ)) → times_kept x (delete id ms) ≤ times_kept x ms
unfolding times_kept delete
times_kept-delete x id [] = omega arith
times_kept-delete x id ((i, s) ∷ rest) = ground (arith, times_kept-delete x id rest)

times_kept-delete-lookup :
    (x sender : ℕ) (id : String) (ms : List (String × ℕ))
    → lookup id ms ≡ some sender
    → same sender x + times_kept x (delete id ms) ≤ times_kept x ms
unfolding times_kept delete lookup
times_kept-delete-lookup x sender id [] h = ground arith
times_kept-delete-lookup x sender id ((i, s) ∷ rest) h = elim (Bool-cases (i == id)) [
  | inl t ↦ ground (arith, times_kept-delete x id rest)
  | inr f ↦ ground (arith, times_kept-delete-lookup x sender id rest (ground arith))
]

-- One more sender is made; it stands nowhere yet.
more-IsSound : (made : ℕ) (m : Manager) → IsSound made m → IsSound (suc made) m
more-IsSound made m h = record { once = h.once; later = λ x le. h.later x (omega arith) }

added-IsSound :
    (made : ℕ) (id : String) (m : Manager)
    → IsSound made m
    → IsSound (suc made) (record m { messengers = (id, made) ∷ m.messengers })
unfolding times_kept
added-IsSound made id m h = record {
  once = λ x. ground (arith, h.once x, h.later x);
  later = λ x le. ground (arith, h.later x);
}

deleted-IsSound :
    (made : ℕ) (id : String) (m : Manager)
    → IsSound made m
    → IsSound made (record m { messengers = delete id m.messengers })
deleted-IsSound made id m h = record {
  once = λ x. ground (arith, h.once x, times_kept-delete x id m.messengers);
  later = λ x le. ground (arith, h.later x le, times_kept-delete x id m.messengers);
}

stopped-IsSound :
    (made sender : ℕ) (id : String) (m : Manager)
    → IsSound made m
    → lookup id m.messengers ≡ some sender
    → IsSound made (record { messengers = delete id m.messengers; stopped = sender ∷ m.stopped })
unfolding times_stopped
stopped-IsSound made sender id m h is = record {
  once = λ x. ground (arith, h.once x, times_kept-delete-lookup x sender id m.messengers is);
  later =
      λ x le. ground (arith, h.later x le, times_kept-delete-lookup x sender id m.messengers is);
}

not_stopped :
    (made sender : ℕ) (id : String) (m : Manager)
    → IsSound made m
    → lookup id m.messengers ≡ some sender
    → ltb 0 (times_stopped sender m.stopped) ≡ false
not_stopped made sender id m h is =
    ground (arith, h.once sender, times_kept-delete-lookup sender sender id m.messengers is)

removed :
    (made : ℕ) (id : String) (m : Manager)
    → IsSound made m
    → (after : Manager) × (remove_sender id m ≡ some after) × IsSound made after
unfolding remove_sender stop_sender
removed made id m h = elim (Option-cases (lookup id m.messengers)) [
  | inl free ↦ (_, ground arith, deleted-IsSound made id m h)
  | inr (sender, is) ↦
      (_, ground (arith, not_stopped made sender id m h is), stopped-IsSound made sender id m h is)
]

-- What came of a run.
abbrev pub StopsOnce : Option Manager → Type 0
StopsOnce r =
    (m : Manager) × (r ≡ some m)
    × ((x : ℕ) → times_kept x m.messengers + times_stopped x m.stopped ≤ 1)

run_from : (uses : List Use) (made : ℕ) (m : Manager) → IsSound made m → StopsOnce (run uses made m)
unfolding run add_sender
run_from [] made m h = (m, refl, h.once)
run_from (add id ∷ uses) made m h = elim (Option-cases (lookup id m.messengers)) [
  | inl free ↦
      let (end, ends, once) = run_from uses (suc made) _ (added-IsSound made id m h) in
      (end, ground (arith, ends), once)
  | inr (other, taken) ↦
      let (end, ends, once) = run_from uses (suc made) m (more-IsSound made m h) in
      (end, ground (arith, ends), once)
]
run_from (remove id ∷ uses) made m h =
    let (after, is, sound) = removed made id m h in
    let (end, ends, once) = run_from uses made after sound in (end, cc, once)

-- Whatever the actions do with the manager, it never panics, and in the end each sender that was
-- made stands once at most in the map and the stopped ones together.
pub run-StopsOnce : (uses : List Use) → StopsOnce (run uses 0 new_manager)
unfolding times_kept times_stopped
run-StopsOnce uses =
    run_from uses 0 new_manager (record { once = λ x. omega arith; later = λ x le. refl })
