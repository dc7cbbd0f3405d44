-- ===== src/Swap/Service.antt =====
-- The active swaps of the service (swap/service.go): the map from swap ids to machines with the
-- lock of a channel, and the largest amount that a swap-in may have. The mutex lets one operation
-- in at a time. A Go map is a list of entries with different keys; where the code goes through the
-- map in no fixed order, the first entry of the list is taken.
pub mod Channels
pub mod Maximum
pub mod Serving
pub mod Handlers
pub mod Requests
pub mod Initiate
pub mod Receive
pub mod Recovery
pub mod Calls
pub mod Exclusive
pub mod Heard
pub mod Screen
use peerswap.Prelude.{ℕ, Bool, not, List, [], ◌∷◌, Option, none, some, if◌then◌else◌}
use peerswap.Prelude.Equality.{◌==◌, string_eq}
use peerswap.Prelude.Text.{String}
use peerswap.Prelude.Words.{sub64}
use peerswap.Swap.Error.{Error, Result, ok, err, ◌>>=◌}
use peerswap.Swap.Data.{Chain, btc_chain, l_btc_chain, no_chain, get_scid}
use peerswap.Swap.Services.{SwapServices, OnChain}
use peerswap.Swap.Table.{lookup}
use peerswap.Swap.Machine.{SwapStateMachine}

abbrev pub ActiveSwaps : Type 0
ActiveSwaps = List (String × SwapStateMachine)

unfoldable pub get_active_swap : String → ActiveSwaps → Result SwapStateMachine
unfolding lookup
get_active_swap id swaps = elim (lookup id swaps) [
  | none ↦ err Error.swap_does_not_exist
  | some m ↦ ok m
]

-- The log of the last messages, which the code clears too, is not kept.
unfoldable pub remove_active_swap : String → ActiveSwaps → ActiveSwaps
remove_active_swap id [] = []
remove_active_swap id ((i, m) ∷ swaps) =
    let rest = remove_active_swap id swaps in if i == id then rest else (i, m) ∷ rest

-- The id of an active swap on the channel.
unfoldable pub on_channel : String → ActiveSwaps → Option String
on_channel channel [] = none
on_channel channel ((i, m) ∷ swaps) =
    let rest = on_channel channel swaps in if get_scid m.swap == channel then some i else rest

unfoldable pub lock_swap : String → String → SwapStateMachine → ActiveSwaps → Result ActiveSwaps
unfolding on_channel remove_active_swap
lock_swap id channel m swaps = elim (on_channel channel swaps) [
  | some i ↦ err (Error.active_swap channel i)
  | none ↦ ok ((id, m) ∷ remove_active_swap id swaps)
]

abbrev available : OnChain → Result ℕ
available wallet = do
  balance ← wallet.get_onchain_balance
  fee ← wallet.get_flat_opening_tx_fee
  ok (sub64 balance fee)

unfoldable pub estimate_maximum_swap_amount_sat : SwapServices → Chain → Result ℕ
estimate_maximum_swap_amount_sat s l_btc_chain = available s.liquid
estimate_maximum_swap_amount_sat s btc_chain = available s.bitcoin
estimate_maximum_swap_amount_sat s no_chain = err (Error.message "invalid chain")
