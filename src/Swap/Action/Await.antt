-- ===== src/Swap/Action/Await.antt =====
-- The actions that hand a transaction or an invoice to a watcher and wait (swap/actions.go).
use peerswap.Prelude.{ℕ, ◌/◌, ◌&&◌, not, [], ◌∷◌, some, ltb, leb, if◌then◌else◌}
use peerswap.Prelude.Equality.{◌==◌, ◌!=◌, nat_eq, string_eq}
use peerswap.Prelude.Int.{pos, ltb_ℤ}
use peerswap.Prelude.Text.{String, concat, decimal, signed_decimal}
use peerswap.Prelude.Words.{mul64, add32}
use peerswap.Swap.Error.{Error, Result, ok, err, error_text}
use peerswap.Swap.Data.{SwapData, get_id, get_chain, get_claim_amount, get_protocol_version}
use peerswap.Swap.State.{EventType, no_op, on_tx_confirmed, action_failed}
use peerswap.Swap.Timelock.{
  TimelockPolicy, peerswap_protocol_version, get_timelock_policy, validate_claim_invoice,
  check_payment_window,
}
use peerswap.Swap.Services.{
  SwapServices, OnChain, Invoice, payment_notifier, wait_for_csv, wait_for_confirmation,
  invoice_claim, invoice_fee, get_on_chain_services,
}
use peerswap.Swap.Flow.{
  Act, ◌>>=◌, ◌>>◌, return, read, modify, emit, leave, attempt_or, attempt, require, when, deref,
}
use peerswap.Swap.Action.Params.{get_opening_params}
use peerswap.Swap.Action.Request.{is_liquid, is_bitcoin}

-- The common end of `AwaitPaymentOrCsvAction` and `AwaitCsvAction`.
abbrev watch_csv : SwapServices → OnChain → Act EventType
watch_csv s onchain = do
  d ← read (λ d. d)
  policy ← attempt (get_timelock_policy d)
  params ← get_opening_params s
  script ← attempt (onchain.get_output_script params)
  tx ← deref d.opening_tx_broadcasted
  emit (wait_for_csv (get_id d) tx.tx_id tx.script_out d.starting_block_height policy.csv script)
  return no_op

unfoldable pub await_payment_or_csv_action : SwapServices → Act EventType
await_payment_or_csv_action s = do
  d ← read (λ d. d)
  onchain ← attempt (get_on_chain_services s (get_chain d))
  tx ← deref d.opening_tx_broadcasted
  emit (payment_notifier (get_id d) tx.payreq invoice_claim)
  watch_csv s onchain

unfoldable pub await_csv_action : SwapServices → Act EventType
await_csv_action s = do
  d ← read (λ d. d)
  onchain ← attempt (get_on_chain_services s (get_chain d))
  watch_csv s onchain

unfoldable pub await_fee_invoice_payment_action : Act EventType
await_fee_invoice_payment_action = do
  d ← read (λ d. d)
  a ← deref d.swap_out_agreement
  emit (payment_notifier (get_id d) a.payreq invoice_fee)
  return no_op

-- `fmt.Errorf("recover legacy claim payment: %w", err)`.
abbrev pub recover_error : {A : Type 0} → Result A → Result A
recover_error (ok a) = ok a
recover_error (err e) =
    err (Error.message (concat ("recover legacy claim payment: " ∷ error_text e ∷ [])))

abbrev height_error : Result ℕ → Result ℕ
height_error (ok h) = ok h
height_error (err e) = err (Error.message "could not get block height.")

-- The tests of a claim invoice: Bitcoin's own, and those of the timelock policy.
unfoldable pub check_invoice : OnChain → TimelockPolicy → Invoice → String → Act (Unit {0})
check_invoice onchain policy invoice payreq = do
  d ← read (λ d. d)
  if is_bitcoin (get_chain d)
      then (do
        require (not (ltb_ℤ (pos (onchain.get_csv_height / 2)) invoice.final_cltv_delta)) (
            Error.message (
              concat (
                "unsafe invoice cltv: "
                ∷ signed_decimal invoice.final_cltv_delta
                ∷ ", expected below: "
                ∷ decimal (onchain.get_csv_height / 2)
                ∷ [])))
        amount ← deref (get_claim_amount d)
        require (invoice.amount_msat == mul64 amount 1000) (
            Error.message (
              concat (
                "invoice amount does not equal swap amount, invoice: "
                ∷ payreq
                ∷ ", swap "
                ∷ decimal amount
                ∷ []))))
      else (do
        amount ← deref (get_claim_amount d)
        attempt (validate_claim_invoice invoice.amount_msat invoice.final_cltv_delta amount policy))

-- The tests of the block height: Bitcoin's own, and the payment window.
unfoldable pub check_height : OnChain → TimelockPolicy → ℕ → Act (Unit {0})
check_height onchain policy height = do
  d ← read (λ d. d)
  if is_bitcoin (get_chain d)
      then (do
        require (d.starting_block_height != 0)
            (Error.message "could not get starting block height of the swap.")
        require (ltb height (add32 d.starting_block_height (onchain.get_csv_height / 2)))
            (Error.message "exceeded safe swap range."))
      else attempt (check_payment_window d height policy)

unfoldable pub await_tx_confirmation_action : SwapServices → Act EventType
await_tx_confirmation_action s = do
  d ← read (λ d. d)
  onchain ← attempt (get_on_chain_services s (get_chain d))
  policy ← attempt (get_timelock_policy d)
  if not policy.allow_new_claim_payment
      then (do
        require (d.opening_tx_hex != "")
            (Error.message "claim payments are disabled for legacy swaps")
        tx ← deref d.opening_tx_broadcasted
        preimage ← attempt (recover_error (s.lightning.recover_claim_payment tx.payreq))
        modify (λ d. record d { claim_preimage = preimage })
        return on_tx_confirmed)
      else (do
        tx ← deref d.opening_tx_broadcasted
        invoice ← attempt (s.lightning.decode_payreq tx.payreq)
        check_invoice onchain policy invoice tx.payreq
        modify (λ d. record d { claim_payment_hash = invoice.payment_hash })
        height ← attempt (height_error (onchain.get_block_height 0))
        check_height onchain policy height
        params ← get_opening_params s
        script ← attempt (onchain.get_output_script params)
        emit (
            wait_for_confirmation (get_id d) tx.tx_id tx.script_out d.starting_block_height
              policy.payment_window script)
        return no_op)

-- `swap.LastErr = err` and `return Event_ActionFailed`, without `HandleError`.
abbrev attempt_last_err : {A : Type 0} → Result A → Act A
attempt_last_err r = attempt_or (λ e. leave (λ d. record d { last_err = some e }) action_failed) r

-- The same, with the cancel message set too.
abbrev attempt_cancel : {A : Type 0} → Result A → Act A
attempt_cancel r =
    attempt_or
      (λ e.
        leave (λ d. record d { last_err = some e; cancel_message = error_text e }) action_failed)
      r

abbrev legacy_window : OnChain → SwapData → ℕ → Result (Unit {0})
legacy_window onchain d now =
    if d.starting_block_height != 0
      && leb (add32 d.starting_block_height (onchain.get_csv_height / 2)) now
    then err (Error.message "too close to csv")
    else ok tt

unfoldable pub set_starting_block_height_action : SwapServices → Act EventType
set_starting_block_height_action s = do
  d ← read (λ d. d)
  onchain ← attempt_last_err (get_on_chain_services s (get_chain d))
  now ← attempt_last_err (onchain.get_block_height 0)
  if is_liquid (get_chain d) && get_protocol_version d == peerswap_protocol_version
      then (do
        policy ← attempt_last_err (get_timelock_policy d)
        attempt_cancel (check_payment_window d now policy)
        return no_op)
      else (do
        attempt_cancel (legacy_window onchain d now)
        when (d.starting_block_height == 0) (modify (λ d. record d { starting_block_height = now }))
        return no_op)
