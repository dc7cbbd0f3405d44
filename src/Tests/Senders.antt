-- ===== src/Tests/Senders.antt =====
-- The manager of the senders on concrete uses.
use peerswap.Prelude.{◌≡◌, refl, List, [], ◌∷◌, some}
use peerswap.Messages.Sender.{new_manager, add, remove, run, Use}
use peerswap.Messages.Sender.Once.{StopsOnce, run-StopsOnce}

-- The second sender of a swap is refused, and the first is stopped once.
abbrev uses : List Use
uses = add "a" ∷ add "a" ∷ add "b" ∷ remove "a" ∷ remove "a" ∷ []

runs : run uses 0 new_manager ≡ some (record { messengers = ("b", 2) ∷ []; stopped = 0 ∷ [] })
unfolding run
runs = refl

run-StopsOnce_example : StopsOnce (run uses 0 new_manager)
run-StopsOnce_example = run-StopsOnce uses
