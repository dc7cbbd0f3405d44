-- ===== src/Swap/Service/Maximum.antt =====
-- The largest amount of a swap-in.
use peerswap.Prelude.{ℕ, ◌^◌, ◌≤◌, ◌<◌, ◌≡◌, ◌↔◌, arith}
use peerswap.Swap.Error.{ok}
use peerswap.Swap.Data.{btc_chain}
use peerswap.Swap.Services.{SwapServices}
use peerswap.Swap.Service.{estimate_maximum_swap_amount_sat}

-- The estimate on Bitcoin, when balance and fee are of 64 bits, is within the balance exactly if the
-- balance covers the fee of the opening transaction: if it does not, the difference wraps around to more
-- than the balance.
pub maximum_within_balance_iff :
    (s : SwapServices) (balance fee maximum : ℕ)
    → s.bitcoin.get_onchain_balance ≡ ok balance
    → s.bitcoin.get_flat_opening_tx_fee ≡ ok fee
    → balance < 2 ^ 64
    → fee < 2 ^ 64
    → estimate_maximum_swap_amount_sat s btc_chain ≡ ok maximum
    → (maximum ≤ balance) ↔ (fee ≤ balance)
unfolding estimate_maximum_swap_amount_sat
maximum_within_balance_iff s balance fee maximum hb hf lb lf h =
    (λ le. ground arith, λ le. ground arith)
