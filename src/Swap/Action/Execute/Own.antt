-- ===== src/Swap/Action/Execute/Own.antt =====
-- The actions that make calls of their own kind.
use peerswap.Prelude.{
  List, both_left, both_right, ℕ, zero, suc, ◌≡◌, Bool, true, Option, some, none,
}
use peerswap.Prelude.Text.{String}
use peerswap.Swap.Error.{Error, Result, ok, err}
use peerswap.Swap.Timelock.{TimelockPolicy}
use peerswap.Swap.Services.{Effect, SwapServices, OnChain, Invoice}
use peerswap.Swap.Flow.{Act}
use peerswap.Swap.Flow.Keeps.{Keeps}
use peerswap.Swap.Action.{
  pay_fee_invoice, await_tx_confirmation, validate_tx_and_pay_claim_invoice,
  claim_swap_transaction_with_preimage, create_and_broadcast_opening_transaction,
  await_payment_or_csv, await_csv, claim_swap_transaction_with_csv, claim_swap_transaction_coop,
  create_swap_out_from_request, await_fee_invoice_payment,
}
use peerswap.Swap.Action.Params.{get_opening_params}
use peerswap.Swap.Action.Request.{create_swap_out_from_request_action}
use peerswap.Swap.Action.Opening.{create_and_broadcast_opening_transaction_action}
use peerswap.Swap.Action.Claim.{
  claim_swap_transaction_with_preimage_action, claim_swap_transaction_with_csv_action,
  claim_swap_transaction_coop_action,
}
use peerswap.Swap.Action.Await.{
  await_payment_or_csv_action, await_csv_action, await_fee_invoice_payment_action,
  await_tx_confirmation_action, check_invoice, check_height,
}
use peerswap.Swap.Action.Pay.{
  pay_fee_invoice_action, check_tick, pay_or, pay_loop, validate_tx_and_pay_claim_invoice_action,
}
use peerswap.Swap.Action.Execute.Kinds.{
  Kind, common, Terms, Allows, funding, payment_watch, csv_watch, invoice, Made, allows, call_rules,
}

module _ (k : Kind → Bool) {Q : Terms → List Effect → Type 0} (may : Allows k Q)
    (usual : k common ≡ true) where
  pub params_kept : (s : SwapServices) → Keeps (Made Q) (get_opening_params s)
  unfolding get_opening_params
  params_kept s = search (call_rules, may, usual) depth 40

  pub swap_out_request_kept :
      (s : SwapServices)
      → allows k create_swap_out_from_request ≡ true
      → Keeps (Made Q) (create_swap_out_from_request_action s)
  unfolding create_swap_out_from_request_action
  swap_out_request_kept s h = search (call_rules, may, usual, h) depth 40

  pub opening_kept :
      (s : SwapServices)
      → allows k create_and_broadcast_opening_transaction ≡ true
      → Keeps (Made Q) (create_and_broadcast_opening_transaction_action s)
  unfolding create_and_broadcast_opening_transaction_action
  opening_kept s h =
      search
        (
          call_rules,
          may,
          usual,
          both_left (k invoice) (k funding) h,
          both_right (k invoice) (k funding) h,
        )
        depth 60

  pub preimage_kept :
      (s : SwapServices)
      → allows k claim_swap_transaction_with_preimage ≡ true
      → Keeps (Made Q) (claim_swap_transaction_with_preimage_action s)
  unfolding claim_swap_transaction_with_preimage_action
  preimage_kept s h = search (call_rules, may, usual, h, params_kept) depth 40

  pub csv_kept :
      (s : SwapServices)
      → allows k claim_swap_transaction_with_csv ≡ true
      → Keeps (Made Q) (claim_swap_transaction_with_csv_action s)
  unfolding claim_swap_transaction_with_csv_action
  csv_kept s h = search (call_rules, may, usual, h, params_kept) depth 40

  pub coop_kept :
      (s : SwapServices)
      → allows k claim_swap_transaction_coop ≡ true
      → Keeps (Made Q) (claim_swap_transaction_coop_action s)
  unfolding claim_swap_transaction_coop_action
  coop_kept s h = search (call_rules, may, usual, h, params_kept) depth 40

  pub payment_or_csv_kept :
      (s : SwapServices)
      → allows k await_payment_or_csv ≡ true
      → Keeps (Made Q) (await_payment_or_csv_action s)
  unfolding await_payment_or_csv_action
  payment_or_csv_kept s h =
      search
        (
          call_rules,
          may,
          usual,
          both_left (k payment_watch) (k csv_watch) h,
          both_right (k payment_watch) (k csv_watch) h,
          params_kept,
        )
        depth 40

  pub await_csv_kept :
      (s : SwapServices) → allows k await_csv ≡ true → Keeps (Made Q) (await_csv_action s)
  unfolding await_csv_action
  await_csv_kept s h = search (call_rules, may, usual, h, params_kept) depth 40

  pub fee_invoice_kept :
      allows k await_fee_invoice_payment ≡ true → Keeps (Made Q) await_fee_invoice_payment_action
  unfolding await_fee_invoice_payment_action
  fee_invoice_kept h = search (call_rules, may, usual, h) depth 40

  pub check_invoice_kept :
      (o : OnChain) (t : TimelockPolicy) (i : Invoice) (x : String)
      → Keeps (Made Q) (check_invoice o t i x)
  unfolding check_invoice
  check_invoice_kept o t i x = search (call_rules, may, usual) depth 40

  pub check_height_kept :
      (o : OnChain) (t : TimelockPolicy) (n : ℕ) → Keeps (Made Q) (check_height o t n)
  unfolding check_height
  check_height_kept o t n = search (call_rules, may, usual) depth 40

  pub confirmation_kept :
      (s : SwapServices)
      → allows k await_tx_confirmation ≡ true
      → Keeps (Made Q) (await_tx_confirmation_action s)
  unfolding await_tx_confirmation_action
  confirmation_kept s h =
      search (call_rules, may, usual, h, params_kept, check_invoice_kept, check_height_kept) depth
        40

  pub pay_fee_kept :
      (s : SwapServices)
      → allows k pay_fee_invoice ≡ true
      → Keeps (Made Q) (pay_fee_invoice_action s)
  unfolding pay_fee_invoice_action
  pay_fee_kept s h = search (call_rules, may, usual, h) depth 60

  pub check_tick_kept :
      (o : OnChain) (t : TimelockPolicy) (n : ℕ) → Keeps (Made Q) (check_tick o t n)
  unfolding check_tick
  check_tick_kept o t n = search (call_rules, may, usual) depth 40

  pub pay_or_kept :
      {A B : Type 0} (r : Result A) (f : Error → Act B) (g : A → Act B)
      → ((e : Error) → Keeps (Made Q) (f e))
      → ((a : A) → Keeps (Made Q) (g a))
      → Keeps (Made Q) (pay_or r f g)
  unfolding pay_or
  pay_or_kept (ok a) f g h k = k a
  pay_or_kept (err e) f g h k = h e

  pub pay_loop_kept :
      (s : SwapServices) (o : OnChain) (t : TimelockPolicy) (n round : ℕ) (last : Option Error)
      → allows k validate_tx_and_pay_claim_invoice ≡ true
      → Keeps (Made Q) (pay_loop s o t n round last)
  unfolding pay_loop
  pay_loop_kept s o t zero round last h = search (call_rules, may, usual) depth 10
  pay_loop_kept s o t (suc n) round last h =
      let again = λ (e : Error). pay_loop_kept s o t n (suc round) (some e) h in
      search (call_rules, may, usual, h, check_tick_kept, pay_or_kept, again) depth 40

  pub pay_claim_kept :
      (s : SwapServices)
      → allows k validate_tx_and_pay_claim_invoice ≡ true
      → Keeps (Made Q) (validate_tx_and_pay_claim_invoice_action s)
  unfolding validate_tx_and_pay_claim_invoice_action
  pay_claim_kept s h =
      search (call_rules, may, usual, pay_loop_kept s _ _ s.payment_rounds 0 none h, params_kept)
        depth 40
