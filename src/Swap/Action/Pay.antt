-- ===== src/Swap/Action/Pay.antt =====
-- The taker's payments: `PayFeeInvoiceAction` and `ValidateTxAndPayClaimInvoiceAction` of
-- swap/actions.go.
pub mod Fee
pub mod ClaimInvoice
use peerswap.Prelude.{
  ℕ, zero, suc, ◌*◌, ◌/◌, ◌&&◌, [], ◌∷◌, Option, none, some, ltb, leb, if◌then◌else◌,
}
use peerswap.Prelude.Equality.{◌!=◌, string_eq}
use peerswap.Prelude.Text.{String, concat, decimal}
use peerswap.Prelude.Words.{mul64, add64, sub32}
use peerswap.Swap.Error.{Error, Result, ok, err, error_text}
use peerswap.Swap.Data.{get_chain, get_scid}
use peerswap.Swap.State.{EventType, action_succeeded}
use peerswap.Swap.Timelock.{TimelockPolicy, get_timelock_policy, check_payment_window}
use peerswap.Swap.Services.{
  SwapServices, OnChain, fee_invoice_paid, claim_invoice_paid, get_on_chain_services,
}
use peerswap.Swap.Flow.{
  Act, ◌>>=◌, ◌>>◌, return, read, modify, emit, fail, fail_with, attempt, require, when, deref,
}
use peerswap.Swap.Action.Params.{get_opening_params}
use peerswap.Swap.Action.Request.{is_liquid, is_bitcoin}
use peerswap.Swap.Action.Await.{recover_error}

-- `uint64(float64(fee) * 3)`: exact for every fee below 2^51 satoshi, which is more than there are.
abbrev pub max_expected_fee : ℕ → ℕ
max_expected_fee fee = fee * 3

unfoldable pub pay_fee_invoice_action : SwapServices → Act EventType
pay_fee_invoice_action s = do
  d ← read (λ d. d)
  wallet ← attempt (get_on_chain_services s (get_chain d))
  agreement ← deref d.swap_out_agreement
  invoice ← attempt (s.lightning.decode_payreq agreement.payreq)
  request ← deref d.swap_out_request
  spendable ← attempt (s.lightning.spendable_msat request.scid)
  let required = add64 (mul64 request.amount 1000) invoice.amount_msat
  require (leb required spendable) (
      Error.message (
        concat (
          "not enough spendable msat: "
          ∷ decimal spendable
          ∷ ", expected: "
          ∷ decimal required
          ∷ [])))
  (success, reason) ← attempt (s.lightning.probe_payment request.scid required)
  require success (Error.message (concat ("the prepayment probe was unsuccessful: " ∷ reason ∷ [])))
  let fee = invoice.amount_msat / 1000
  modify (λ d. record d { opening_tx_fee = fee })
  expected ← attempt wallet.get_flat_opening_tx_fee
  require (leb fee (max_expected_fee expected)) (
      Error.message (
        concat (
          "Fee is too damn high. Max expected: "
          ∷ decimal (max_expected_fee expected)
          ∷ " Received "
          ∷ decimal fee
          ∷ [])))
  preimage ← attempt (s.lightning.pay_invoice_via_channel agreement.payreq (get_scid d))
  emit (fee_invoice_paid agreement.payreq (get_scid d))
  modify (λ d. record d { fee_preimage = preimage })
  return action_succeeded

abbrev err_text : Option Error → String
err_text none = "<nil>"
err_text (some e) = error_text e

-- Past the limit the error that is handled is the nil error of the height.
abbrev pub past_csv_limit : Act (Unit {0})
past_csv_limit = fail_with none

-- What a tick tests before it pays.
unfoldable pub check_tick : OnChain → TimelockPolicy → ℕ → Act (Unit {0})
check_tick onchain policy now = do
  d ← read (λ d. d)
  when
      (is_bitcoin (get_chain d)
        && ltb (onchain.get_csv_height / 2) (sub32 now d.starting_block_height))
      past_csv_limit
  when (is_liquid (get_chain d)) (attempt (check_payment_window d now policy))

-- Another round after an error, the end of the loop otherwise.
unfoldable pub pay_or : {A B : Type 0} → Result A → (Error → Act B) → (A → Act B) → Act B
pay_or (ok a) f g = g a
pay_or (err e) f g = f e

-- The ticks: each asks for the height, tests it, and tries to pay. With no tick left the time is up.
unfoldable pub pay_loop :
    SwapServices → OnChain → TimelockPolicy → ℕ → ℕ → Option Error → Act EventType
pay_loop s onchain policy zero round last =
    fail
      (Error.message (concat ("could not pay invoice: timeout, last err: " ∷ err_text last ∷ [])))
pay_loop s onchain policy (suc n) round last = do
  now ← attempt (onchain.get_block_height round)
  check_tick onchain policy now
  d ← read (λ d. d)
  tx ← deref d.opening_tx_broadcasted
  pay_or (s.lightning.rebalance_payment round tx.payreq (get_scid d) policy.max_total_cltv_delta)
      (λ e. pay_loop s onchain policy n (suc round) (some e))
      (λ preimage. do
        emit (claim_invoice_paid tx.payreq (get_scid d) policy.max_total_cltv_delta)
        modify (λ d. record d { claim_preimage = preimage })
        return action_succeeded)

unfoldable pub validate_tx_and_pay_claim_invoice_action : SwapServices → Act EventType
validate_tx_and_pay_claim_invoice_action s = do
  d ← read (λ d. d)
  onchain ← attempt (get_on_chain_services s (get_chain d))
  policy ← attempt (get_timelock_policy d)
  params ← get_opening_params s
  valid ← attempt (onchain.validate_tx params d.opening_tx_hex)
  require valid (Error.message "tx is not valid")
  if policy.allow_new_claim_payment
      then pay_loop s onchain policy s.payment_rounds 0 none
      else if d.claim_preimage != ""
      then return action_succeeded
      else (do
        tx ← deref d.opening_tx_broadcasted
        preimage ← attempt (recover_error (s.lightning.recover_claim_payment tx.payreq))
        modify (λ d. record d { claim_preimage = preimage })
        return action_succeeded)
