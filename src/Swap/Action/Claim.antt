-- ===== src/Swap/Action/Claim.antt =====
-- The actions that spend the opening transaction: by preimage, by time, in cooperation
-- (swap/actions.go).
use peerswap.Prelude.{some}
use peerswap.Prelude.Equality.{◌==◌, string_eq}
use peerswap.Prelude.Text.{String, codes}
use peerswap.Swap.Error.{Result}
use peerswap.Swap.Hex.{hex_decode}
use peerswap.Swap.Data.{get_chain, handle_error}
use peerswap.Swap.State.{EventType, action_succeeded, on_retry}
use peerswap.Swap.Services.{
  SwapServices, SpendingTx, spent_by_preimage, spent_by_csv, spent_by_coop, label_set,
  get_on_chain_services,
}
use peerswap.Swap.Flow.{
  Act, ◌>>=◌, ◌>>◌, return, read, modify, emit, leave, attempt_or, attempt, when, deref,
}
use peerswap.Swap.Action.Params.{label, get_opening_params, get_claim_params}

-- Remember the spending transaction, and label it.
abbrev record_claim : String → SpendingTx → Act (Unit {0})
record_claim kind tx = do
  modify (λ d. record d { claim_tx_id = tx.tx_id })
  d ← read (λ d. d)
  text ← deref (label kind d)
  emit (label_set tx.tx_id tx.address kind text)

-- `return Event_OnRetry`, with no error kept.
abbrev or_retry : {A : Type 0} → Result A → Act A
or_retry r = attempt_or (λ e. leave (λ d. d) on_retry) r

-- `swap.HandleError(err)`, and then `return Event_OnRetry`.
abbrev or_retry_with_error : {A : Type 0} → Result A → Act A
or_retry_with_error r = attempt_or (λ e. leave (λ d. handle_error d (some e)) on_retry) r

unfoldable pub claim_swap_transaction_with_preimage_action : SwapServices → Act EventType
claim_swap_transaction_with_preimage_action s = do
  d ← read (λ d. d)
  wallet ← attempt (get_on_chain_services s (get_chain d))
  when (d.claim_tx_id == "") do
    params ← get_opening_params s
    tx ← or_retry (wallet.create_preimage_spending_transaction params (get_claim_params d))
    emit (spent_by_preimage params (get_claim_params d) tx)
    record_claim "ClaimByInvoice" tx
  return action_succeeded

unfoldable pub claim_swap_transaction_with_csv_action : SwapServices → Act EventType
claim_swap_transaction_with_csv_action s = do
  d ← read (λ d. d)
  wallet ← or_retry_with_error (get_on_chain_services s (get_chain d))
  when (d.claim_tx_id == "") do
    params ← get_opening_params s
    tx ← or_retry_with_error (wallet.create_csv_spending_transaction params (get_claim_params d))
    emit (spent_by_csv params (get_claim_params d) tx)
    record_claim "ClaimByCsv" tx
  return action_succeeded

unfoldable pub claim_swap_transaction_coop_action : SwapServices → Act EventType
claim_swap_transaction_coop_action s = do
  d ← read (λ d. d)
  wallet ← attempt (get_on_chain_services s (get_chain d))
  close ← deref d.coop_close
  key ← attempt (hex_decode (codes close.privkey))
  when (d.claim_tx_id == "") do
    params ← get_opening_params s
    tx ← attempt (
        wallet.create_coop_spending_transaction params (get_claim_params d)
          (s.codec.parse_private_key close.privkey))
    emit (spent_by_coop params (get_claim_params d) (s.codec.parse_private_key close.privkey) tx)
    record_claim "ClaimByCoop" tx
  return action_succeeded
