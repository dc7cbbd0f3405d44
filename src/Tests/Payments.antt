-- ===== src/Tests/Payments.antt =====
-- The theorems on actions and on time limits, on concrete swaps.
use peerswap.Prelude.{◌+◌, ◌<◌, ◌≤◌, ◌≡◌, true, ◌↔◌, some}
use peerswap.Prelude.Equality.{string_eq}
use peerswap.Swap.Error.{ok}
use peerswap.Swap.Data.{SwapData}
use peerswap.Swap.State.{action_succeeded}
use peerswap.Swap.Flow.{return}
use peerswap.Swap.Flow.At.{LeadsTo}
use peerswap.Swap.Action.Opening.{check_premium_amount_action}
use peerswap.Swap.Action.Opening.Premium.{agreed_terms, Judged, check_premium_exact}
use peerswap.Swap.Action.Opening.Funds.{Funds}
use peerswap.Swap.Timelock.{TimelockPolicy, check_payment_window}
use peerswap.Swap.Timelock.Margins.{check_payment_window_iff}
use peerswap.Swap.Action.Request.{check_request_action}
use peerswap.Swap.Action.Request.Accept.{Decides, acceptable, check_request-exact}
use peerswap.Swap.Action.Pay.{pay_fee_invoice_action}
use peerswap.Swap.Action.Pay.Fee.{PaysFee, pay_fee_invoice-guarded}
use peerswap.Tests.World.{services, requested, fee_taker, taker_data, in_request}

check_request-exact_example :
    Decides
      (acceptable services requested.swap)
      (check_request_action services (return action_succeeded) requested)
      (return action_succeeded requested)
check_request-exact_example = check_request-exact services (return action_succeeded) requested

pay_fee_invoice-guarded_example :
    LeadsTo (PaysFee services fee_taker) (pay_fee_invoice_action services fee_taker)
pay_fee_invoice-guarded_example = pay_fee_invoice-guarded services fee_taker

abbrev bitcoin : TimelockPolicy
bitcoin = record {
  csv = 1008;
  payment_window = 504;
  invoice_final_cltv = 503;
  max_total_cltv_delta = 0;
  allow_new_claim_payment = true;
}

abbrev open_swap : SwapData
open_swap = record taker_data { starting_block_height_set = true }

check_payment_window_iff_example :
    (check_payment_window open_swap 110 bitcoin ≡ ok tt)
    ↔ ((true ≡ true) × (100 ≤ 110) × (110 < 100 + 504))
check_payment_window_iff_example = check_payment_window_iff open_swap 110 bitcoin

-- A taker on Liquid that has the block height of its start.
abbrev liquid : TimelockPolicy
liquid = record {
  csv = 10080;
  payment_window = 60;
  invoice_final_cltv = 29;
  max_total_cltv_delta = 32;
  allow_new_claim_payment = true;
}

abbrev liquid_swap : SwapData
liquid_swap = record taker_data {
  swap_in_request = some (record in_request { network = ""; asset = "lbtc_asset" });
  starting_block_height_set = true;
}

check_premium_exact_example :
    Judged fee_taker
      (agreed_terms fee_taker.swap)
      (check_premium_amount_action (return action_succeeded) fee_taker)
      (return action_succeeded fee_taker)
check_premium_exact_example = check_premium_exact (return action_succeeded) fee_taker
