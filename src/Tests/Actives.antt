-- ===== src/Tests/Actives.antt =====
-- The theorems on the active swaps, on concrete ones.
use peerswap.Prelude.{◌≤◌, ◌↔◌, refl, [], ◌∷◌, arith}
use peerswap.Swap.Error.{Error, err}
use peerswap.Swap.Data.{get_scid}
use peerswap.Swap.Service.{lock_swap, estimate_maximum_swap_amount_sat}
use peerswap.Swap.Service.Channels.{IsLocked, lock_swap-IsLocked}
use peerswap.Swap.Service.Maximum.{maximum_within_balance_iff}
use peerswap.Tests.World.{services, agreed_maker}

lock_swap-IsLocked_example :
    IsLocked "other" "1x2x3" agreed_maker
      (("swap", agreed_maker) ∷ [])
      (err (Error.active_swap "1x2x3" "swap"))
unfolding lock_swap get_scid
lock_swap-IsLocked_example =
    lock_swap-IsLocked "other" "1x2x3" agreed_maker (("swap", agreed_maker) ∷ [])

maximum_within_balance_iff_example : (4900000 ≤ 5000000) ↔ (100000 ≤ 5000000)
unfolding estimate_maximum_swap_amount_sat
maximum_within_balance_iff_example =
    maximum_within_balance_iff services 5000000 100000 4900000 refl refl (omega arith) (omega arith)
      refl
