-- ===== src/Swap/Timelock/Margins.antt =====
-- The margins between the time limits of a swap.
use peerswap.Prelude.{ℕ, ◌+◌, ◌≤◌, ◌<◌, ◌≡◌, true, arith, ◌↔◌}
use peerswap.Prelude.Equality.{nat_eq}
use peerswap.Swap.Error.{ok}
use peerswap.Swap.Data.{SwapData, Chain, btc_chain, l_btc_chain, no_chain}
use peerswap.Swap.Timelock.{TimelockPolicy, policy_for, check_payment_window}

-- Under every policy the last hop of a payment is shorter than the window in which a taker may
-- pay, and two windows fit into the time after which the maker may take the money back.
pub policy_margins :
    (c : Chain) (v : ℕ) (p : TimelockPolicy)
    → policy_for c v ≡ ok p
    → (p.invoice_final_cltv < p.payment_window) × (p.payment_window + p.payment_window ≤ p.csv)
unfolding policy_for
policy_margins btc_chain v p h = ground arith
policy_margins l_btc_chain v p h = ground arith
policy_margins no_chain v p h = ground arith

-- The payment window is open exactly from the start of the swap, if it is known, until before the
-- deadline.
pub check_payment_window_iff :
    (s : SwapData) (height : ℕ) (p : TimelockPolicy)
    → (check_payment_window s height p ≡ ok tt) ↔ (
        (s.starting_block_height_set ≡ true)
        × (s.starting_block_height ≤ height)
        × (height < s.starting_block_height + p.payment_window))
unfolding check_payment_window
check_payment_window_iff s height p =
    (λ h. (ground arith, ground arith, ground arith), λ h. ground arith)
