-- ===== src/Tests/Served.antt =====
-- Runs of the service, computed.
use peerswap.Prelude.{◌≡◌, refl, [], ◌∷◌}
use peerswap.Swap.Error.{Result, ok, err}
use peerswap.Swap.Hex.{hex_value}
use peerswap.Messages.Hex.{peerswap_custom_message_type}
use peerswap.Swap.Data.{get_scid, new_swap_data}
use peerswap.Swap.Service.{ActiveSwaps, get_active_swap, lock_swap}
use peerswap.Swap.Service.Serving.{crashed}
use peerswap.Swap.Service.Receive.{on_message_received, with_message}
use peerswap.Tests.World.{world, paid_out_sender, new_out_sender}
use peerswap.Tests.Services.{json, fresh, cancel_type, waiting_service}

-- The payload `null` of a cancel ends the program, whoever sends it.
null_crashes :
    on_message_received world fresh json "mallory" cancel_type [] waiting_service
    ≡ crashed waiting_service
unfolding on_message_received with_message hex_value peerswap_custom_message_type
null_crashes = refl

abbrev locked : Result ActiveSwaps → ActiveSwaps
locked (ok swaps) = swaps
locked (err e) = []

-- Locking a free channel under the id of an active swap puts the new machine in its place.
id_taken :
    get_active_swap "swap"
      (locked (lock_swap "swap" "4x5x6" paid_out_sender (waiting_service.active)))
    ≡ ok paid_out_sender
unfolding get_active_swap lock_swap get_scid
id_taken = refl

-- A swap that has no request yet is on no channel: the same channel is locked a second time.
not_locked_yet :
    lock_swap "other" "1x2x3" paid_out_sender (("swap", new_out_sender) ∷ [])
    ≡ ok (("other", paid_out_sender) ∷ ("swap", new_out_sender) ∷ [])
unfolding lock_swap get_scid new_swap_data
not_locked_yet = refl
