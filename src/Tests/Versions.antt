-- ===== src/Tests/Versions.antt =====
-- The theorems on versions, on concrete texts.
use peerswap.Prelude.{◌≡◌, refl, true, [], ◌∷◌, arith}
use peerswap.Prelude.Text.{codes}
use peerswap.Swap.Error.{ok}
use peerswap.Swap.Machine.{is_finished}
use peerswap.Swap.Service.Recovery.{has_active_swaps}
use peerswap.Bolt.{fails, active_swaps}
use peerswap.Version.{version, version_key, safe_upgrade}
use peerswap.Version.Compare.{find_numbers, value, compare_version_strings}
use peerswap.Version.Order.{at_least, numbers, compare_version_strings-exact}
use peerswap.Version.Upgrade.{IsSafe, safe_upgrade-IsSafe}
use peerswap.Tests.World.{finished_maker, waiting_maker}
use peerswap.Tests.Stores.{Entries, bucket, bucket-IsBolt, tx}

compare_version_strings-exact_example :
    compare_version_strings (codes "v22.11rc1") (codes "v0.1.2")
    ≡ ok (at_least (numbers (codes "v22.11rc1")) (numbers (codes "v0.1.2")))
unfolding find_numbers value
compare_version_strings-exact_example =
    compare_version_strings-exact (codes "v22.11rc1") (codes "v0.1.2") (omega arith) (omega arith)

abbrev upgraded : Entries
upgraded = (version_key, version) ∷ []

safe_upgrade-IsSafe_example : IsSafe bucket bucket-IsBolt tx (ok (finished_maker ∷ [])) [] upgraded
unfolding safe_upgrade has_active_swaps is_finished
safe_upgrade-IsSafe_example =
    safe_upgrade-IsSafe bucket tx (ok (finished_maker ∷ [])) [] upgraded bucket-IsBolt refl

-- A swap that goes on keeps an old database.
old_stays :
    safe_upgrade bucket tx
      (has_active_swaps (ok (waiting_maker ∷ [])))
      ((version_key, codes "v0.1") ∷ [])
    ≡ fails (active_swaps (codes "v0.1"))
unfolding safe_upgrade has_active_swaps is_finished
old_stays = refl

-- A missing part counts as 0, and v22.11 is after v22.9.
parts_run : compare_version_strings (codes "v22.11") (codes "v22.9.1") ≡ ok true
unfolding compare_version_strings value
parts_run = refl
