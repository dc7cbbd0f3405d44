-- ===== src/Swap/Action/Execute/Kinds.antt =====
-- The kinds of call that an action can make, and the rules by which its calls are followed.
use peerswap.Prelude.{◌≡◌, ◌&&◌, ◌∷◌, Bool, true, List, Option, all, refl, sym, subst}
use peerswap.Prelude.Text.{String}
use peerswap.Swap.Error.{Error}
use peerswap.Swap.Message.{SwapInRequestMessage, SwapOutRequestMessage}
use peerswap.Swap.Data.{SwapData, SwapRole, handle_error}
use peerswap.Swap.Services.{
  Effect, payment_notifier, wait_for_csv, wait_for_confirmation, opening_tx, spent_by_preimage,
  spent_by_csv, spent_by_coop, invoice_made, fee_invoice_paid, claim_invoice_paid,
}
use peerswap.Swap.Flow.{Progress}
use peerswap.Swap.Flow.Keeps.{Keeps, KeepsData, KeepsCall, KeepsErrors, keeps_rules}
use peerswap.Swap.Action.{
  Action, pay_fee_invoice, await_tx_confirmation, validate_tx_and_pay_claim_invoice,
  claim_swap_transaction_with_preimage, create_and_broadcast_opening_transaction,
  await_payment_or_csv, await_csv, claim_swap_transaction_with_csv, claim_swap_transaction_coop,
  create_swap_out_from_request, await_fee_invoice_payment, check_premium_amount, set_blinding_key,
  stop_send_message_with_retry, add_suspicious_peer, check_request,
}

-- What a call does: a common call moves no money and watches for none.
pub data Kind : Type 0 where
  common funding preimage_spend csv_spend coop_spend fee_payment claim_payment : Kind
  payment_watch csv_watch confirmation_watch invoice : Kind

abbrev pub kind : Effect → Kind
kind (opening_tx a b) = funding
kind (spent_by_preimage a b c) = preimage_spend
kind (spent_by_csv a b c) = csv_spend
kind (spent_by_coop a b c d) = coop_spend
kind (fee_invoice_paid a b) = fee_payment
kind (claim_invoice_paid a b c) = claim_payment
kind (payment_notifier a b c) = payment_watch
kind (wait_for_csv a b c d e f) = csv_watch
kind (wait_for_confirmation a b c d e f) = confirmation_watch
kind (invoice_made a b c) = invoice
kind _ = common

-- Every call of the trace is of one of the kinds.
abbrev pub AllOf : (Kind → Bool) → List Effect → Type 0
AllOf k es = all (λ e. k (kind e)) es ≡ true

-- What no action changes: the peers, the role, the key and the requests.
abbrev pub Terms : Type 0
Terms =
    String × String × SwapRole × String × Option SwapInRequestMessage × Option SwapOutRequestMessage

abbrev pub terms : SwapData → Terms
terms d =
    (d.peer_node_id, d.initiator_node_id, d.role, d.privkey, d.swap_in_request, d.swap_out_request)

-- A statement on the terms and the calls, of a progress.
abbrev pub Made : (Terms → List Effect → Type 0) → Progress → Type 0
Made Q p = Q (terms p.swap) p.effects

-- The statement survives every call of the kinds.
pub record Allows (k : Kind → Bool) (Q : Terms → List Effect → Type 0) : Type 0 where
  pub adds : (t : Terms) (es : List Effect) (e : Effect) → k (kind e) ≡ true → Q t es → Q t (e ∷ es)

-- The kinds cover the calls that are the action's own, beside the common ones.
abbrev pub allows : (Kind → Bool) → Action → Bool
allows k pay_fee_invoice = k fee_payment
allows k validate_tx_and_pay_claim_invoice = k claim_payment
allows k claim_swap_transaction_with_preimage = k preimage_spend
allows k claim_swap_transaction_with_csv = k csv_spend
allows k claim_swap_transaction_coop = k coop_spend
allows k create_and_broadcast_opening_transaction = k invoice && k funding
allows k create_swap_out_from_request = k invoice
allows k await_fee_invoice_payment = k payment_watch
allows k await_payment_or_csv = k payment_watch && k csv_watch
allows k await_csv = k csv_watch
allows k await_tx_confirmation = k confirmation_watch
allows k (check_premium_amount a) = allows k a
allows k (set_blinding_key a) = allows k a
allows k (stop_send_message_with_retry a) = allows k a
allows k (add_suspicious_peer a) = allows k a
allows k (check_request a) = allows k a
allows k _ = true

module _ {k : Kind → Bool} {Q : Terms → List Effect → Type 0} (may : Allows k Q) where
  pub errors_kept : KeepsErrors (Made Q)
  unfolding handle_error
  errors_kept e p h = h

  pub call_kept : (e : Effect) → k (kind e) ≡ true → KeepsCall (Made Q) e
  call_kept e g p h = may.adds (terms p.swap) p.effects e g h

  pub data_kept :
      (f : SwapData → SwapData) → ((d : SwapData) → terms (f d) ≡ terms d) → KeepsData (Made Q) f
  data_kept f same p h = subst (λ t. Q t p.effects) (sym (same p.swap)) h

pub same_terms : (d : SwapData) → terms d ≡ terms d
same_terms d = refl

pub same_terms_error : (d : SwapData) (e : Option Error) → terms (handle_error d e) ≡ terms d
unfolding handle_error
same_terms_error d e = refl

pub ruleset call_rules =
    (keeps_rules, errors_kept, data_kept, call_kept, same_terms, same_terms_error)
