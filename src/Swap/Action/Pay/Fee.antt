-- ===== src/Swap/Action/Pay/Fee.antt =====
-- When a swap-out sender pays the fee invoice.
use peerswap.Prelude.{ℕ, ◌*◌, ◌/◌, ◌≡◌, refl, true, ◌∷◌, some, ◌⊎◌, inl, inr, leb}
use peerswap.Prelude.Text.{String}
use peerswap.Prelude.Words.{mul64, add64}
use peerswap.Swap.Error.{ok}
use peerswap.Swap.Message.{SwapOutRequestMessage, SwapOutAgreementMessage}
use peerswap.Swap.Data.{SwapData, get_chain, get_scid}
use peerswap.Swap.Services.{SwapServices, OnChain, Invoice, fee_invoice_paid, get_on_chain_services}
use peerswap.Swap.Flow.{Progress, ◌>>=◌}
use peerswap.Swap.Flow.At.{LeadsTo, at-attempt, at-deref, at-require}
use peerswap.Swap.Action.Pay.{pay_fee_invoice_action}

-- What is known of a fee invoice that is paid.
pub record FeeIsChecked (s : SwapServices) (d : SwapData) (payreq : String) : Type 0 where
  pub wallet : OnChain
  pub request : SwapOutRequestMessage
  pub agreement : SwapOutAgreementMessage
  pub invoice : Invoice
  pub spendable : ℕ
  pub reason : String
  pub expected : ℕ
  pub wallet_is : get_on_chain_services s (get_chain d) ≡ ok wallet
  pub request_is : d.swap_out_request ≡ some request
  pub agreement_is : d.swap_out_agreement ≡ some agreement
  pub payreq_is : payreq ≡ agreement.payreq
  pub invoice_is : s.lightning.decode_payreq payreq ≡ ok invoice
  -- The channel can carry the swap and the fee, and the peer forwards as much.
  pub spendable_is : s.lightning.spendable_msat request.scid ≡ ok spendable
  pub enough : leb (add64 (mul64 request.amount 1000) invoice.amount_msat) spendable ≡ true
  pub probed :
      s.lightning.probe_payment request.scid (add64 (mul64 request.amount 1000) invoice.amount_msat)
      ≡ ok (true, reason)
  -- The fee is at most three times the one that is expected.
  pub expected_is : wallet.get_flat_opening_tx_fee ≡ ok expected
  pub fair : leb (invoice.amount_msat / 1000) (expected * 3) ≡ true

-- The action pays nothing, or it pays the checked invoice once.
abbrev pub PaysFee : SwapServices → Progress → Progress → Type 0
PaysFee s p q =
    (q.effects ≡ p.effects)
    ⊎ ((payreq : String) × (q.effects ≡ fee_invoice_paid payreq (get_scid p.swap) ∷ p.effects)
        × FeeIsChecked s p.swap payreq)

-- A swap-out sender pays the fee invoice of the agreement at most once, and only if it is at most
-- three times the fee that its own wallet expects, the channel can spend the fee together with the
-- swap's amount, and a probe of that amount came through. On every other path of the action nothing
-- is paid.
pub pay_fee_invoice-guarded :
    (s : SwapServices) (p : Progress) → LeadsTo (PaysFee s p) (pay_fee_invoice_action s p)
unfolding pay_fee_invoice_action ◌>>=◌
pay_fee_invoice-guarded s p =
    let d = p.swap in
    let P = PaysFee s p in
    at-attempt P (get_on_chain_services s (get_chain d)) _ p (λ e. inl refl)
      λ wallet wallet_is. at-deref P d.swap_out_agreement _ p (inl refl) λ agreement agreement_is.
        at-attempt P (s.lightning.decode_payreq agreement.payreq) _ p (λ e. inl refl)
          λ invoice invoice_is. at-deref P d.swap_out_request _ p (inl refl) λ request request_is.
            at-attempt P (s.lightning.spendable_msat request.scid) _ p (λ e. inl refl)
              λ spendable spendable_is.
                let required = add64 (mul64 request.amount 1000) invoice.amount_msat in
                at-require P (leb required spendable) _ _ p (inl refl) λ enough.
                  at-attempt P (s.lightning.probe_payment request.scid required) _ p (λ e. inl refl)
                    λ answer probe_is. at-require P answer.0 _ _ p (inl refl) λ success.
                      let q = record p {
                        swap = record d { opening_tx_fee = invoice.amount_msat / 1000 };
                      } in
                      at-attempt P wallet.get_flat_opening_tx_fee _ q (λ e. inl refl)
                        λ expected expected_is.
                          at-require P (leb (invoice.amount_msat / 1000) (expected * 3)) _ _ q
                            (inl refl)
                            λ fair.
                              at-attempt P
                                (s.lightning.pay_invoice_via_channel agreement.payreq (get_scid d))
                                _ q (λ e. inl refl)
                                λ preimage paid. inr (
                                  agreement.payreq,
                                  refl,
                                  record {
                                    wallet = wallet;
                                    request = request;
                                    agreement = agreement;
                                    invoice = invoice;
                                    spendable = spendable;
                                    reason = answer.1;
                                    expected = expected;
                                    wallet_is = wallet_is;
                                    request_is = request_is;
                                    agreement_is = agreement_is;
                                    payreq_is = refl;
                                    invoice_is = invoice_is;
                                    spendable_is = spendable_is;
                                    enough = enough;
                                    probed = cc;
                                    expected_is = expected_is;
                                    fair = fair;
                                  },
                                )
