-- ===== src/Messages/Sender.antt =====
-- The manager of messages/sender.go, which keeps the sender that repeats a message of each swap. A
-- sender is a pointer, here a number; its loop on a ticker is not followed. To stop a sender closes
-- its channel, which panics the second time.
pub mod Once
use peerswap.Prelude.{ℕ, suc, ◌+◌, Bool, List, [], ◌∷◌, Option, none, some, ltb, if◌then◌else◌}
use peerswap.Prelude.Equality.{◌==◌, nat_eq, string_eq}
use peerswap.Prelude.Text.{String}
use peerswap.Swap.Table.{lookup}

-- The map, a list of entries, and the senders that were stopped.
pub record Manager : Type 0 where
  pub messengers : List (String × ℕ)
  pub stopped : List ℕ

abbrev pub new_manager : Manager
new_manager = record { messengers = []; stopped = [] }

-- Whether two numbers are the same, as a number.
abbrev pub same : ℕ → ℕ → ℕ
same a b = if a == b then 1 else 0

unfoldable pub times_stopped : ℕ → List ℕ → ℕ
times_stopped x [] = 0
times_stopped x (s ∷ rest) = same s x + times_stopped x rest

-- `AddSender`: the manager after it, or none where the id has a sender already.
unfoldable pub add_sender : String → ℕ → Manager → Option Manager
unfolding lookup
add_sender id sender m = elim (lookup id m.messengers) [
  | some other ↦ none
  | none ↦ some (record m { messengers = (id, sender) ∷ m.messengers })
]

-- `delete`.
unfoldable pub delete : String → List (String × ℕ) → List (String × ℕ)
delete id [] = []
delete id ((i, s) ∷ rest) = let kept = delete id rest in if i == id then kept else (i, s) ∷ kept

-- `Stop`: none is the panic.
unfoldable pub stop_sender : ℕ → Manager → Option Manager
unfolding times_stopped
stop_sender sender m =
    if ltb 0 (times_stopped sender m.stopped)
    then none
    else some (record m { stopped = sender ∷ m.stopped })

-- `RemoveSender`: none is the panic of `Stop`.
unfoldable pub remove_sender : String → Manager → Option Manager
unfolding lookup stop_sender delete
remove_sender id m = elim (lookup id m.messengers) [
  | none ↦ some (record m { messengers = delete id m.messengers })
  | some sender ↦ elim (stop_sender sender m) [
    | none ↦ none
    | some after ↦ some (record after { messengers = delete id m.messengers })
  ]
]

-- What the actions do with the manager: they add a sender that they have just made, or remove one.
pub data Use : Type 0 where
  add remove : String → Use

-- The uses one after the other, where `made` senders were made before. A sender that is not added is
-- dropped. None is a panic.
unfoldable pub run : List Use → ℕ → Manager → Option Manager
unfolding add_sender remove_sender
run [] made m = some m
run (add id ∷ uses) made m = elim (add_sender id made m) [
  | some after ↦ run uses (suc made) after
  | none ↦ run uses (suc made) m
]
run (remove id ∷ uses) made m = elim (remove_sender id m) [
  | some after ↦ run uses made after
  | none ↦ none
]
