-- ===== src/Swap/Action/Opening.antt =====
-- The maker's side: `CheckPremiumAmount` and `CreateAndBroadcastOpeningTransaction` of
-- swap/actions.go.
pub mod Funds
pub mod Premium
use peerswap.Prelude.{◌&&◌, not, Bool, true, [], ◌∷◌, Option, none, some, if◌then◌else◌}
use peerswap.Prelude.Equality.{◌==◌, nat_eq}
use peerswap.Prelude.Int.{ℤ, ltb_ℤ}
use peerswap.Prelude.Text.{String, concat, signed_decimal}
use peerswap.Prelude.Words.{mul64}
use peerswap.Swap.Error.{Error}
use peerswap.Swap.Message.{PeerMessage, OpeningTxBroadcastedMessage}
use peerswap.Swap.Data.{
  get_id, get_chain, get_claim_amount, get_opening_tx_amount, get_protocol_version,
  get_invoice_expiry, get_maker_pubkey, get_taker_pubkey,
}
use peerswap.Swap.State.{EventType, action_succeeded}
use peerswap.Swap.Timelock.{peerswap_protocol_version, get_timelock_policy, get_invoice_cltv}
use peerswap.Swap.Services.{
  SwapServices, OpeningParams, opening_tx, label_set, invoice_made, invoice_claim,
  get_on_chain_services,
}
use peerswap.Swap.Flow.{
  Act, ◌>>=◌, ◌>>◌, return, read, modify, emit, fail, attempt, require, deref, if_set,
}
use peerswap.Swap.Action.Params.{memo, label, get_blinding_key}
use peerswap.Swap.Action.Request.{is_liquid, set_next_message}

abbrev premium_too_high : ℤ → ℤ → Error
premium_too_high premium limit = Error.message (
    concat (
      "premium amt too high: " ∷ signed_decimal premium ∷ ", limit : " ∷ signed_decimal limit ∷ []))

unfoldable pub check_premium_amount_action : Act EventType → Act EventType
check_premium_amount_action rest = do
  d ← read (λ d. d)
  if_set d.swap_in_agreement
      (λ a. do
        request ← deref d.swap_in_request
        require (not (ltb_ℤ request.premium_limit a.premium))
            (premium_too_high a.premium request.premium_limit)
        rest)
      (if_set d.swap_out_agreement
        (λ a. do
          request ← deref d.swap_out_request
          require (not (ltb_ℤ request.premium_limit a.premium))
              (premium_too_high a.premium request.premium_limit)
          rest)
        (fail (Error.message "unexpected swap data")))

-- The blinding key goes out in hexadecimal; without one, the nil key is serialized, which panics.
abbrev pub blinding_text : Bool → Option String → Act String
blinding_text liquid key = if liquid then deref key else return ""

unfoldable pub create_and_broadcast_opening_transaction_action : SwapServices → Act EventType
create_and_broadcast_opening_transaction_action s = do
  d ← read (λ d. d)
  wallet ← attempt (get_on_chain_services s (get_chain d))
  if_set d.opening_tx_broadcasted (λ m. return action_succeeded)
      (do
        preimage ← attempt s.codec.get_preimage
        modify (λ d. record d { claim_preimage = preimage })
        policy ← attempt (get_timelock_policy d)
        claim_amount ← deref (get_claim_amount d)
        payreq ← attempt (
            s.lightning.get_payreq (mul64 claim_amount 1000) preimage (get_id d)
              (memo invoice_claim d) invoice_claim (get_invoice_expiry d) (get_invoice_cltv d))
        emit (invoice_made invoice_claim (mul64 claim_amount 1000) payreq)
        key ← blinding_text (is_liquid (get_chain d)) (get_blinding_key s d)
        amount ← deref (get_opening_tx_amount d)
        let params : OpeningParams = record {
          taker_pubkey = get_taker_pubkey d;
          maker_pubkey = get_maker_pubkey d;
          claim_payment_hash = s.codec.payment_hash_of preimage;
          amount = amount;
          csv = policy.csv;
          blinding_key = if is_liquid (get_chain d) then some key else none;
        }
        tx ← attempt (wallet.create_opening_transaction params)
        emit (opening_tx params tx)
        text ← deref (label "Opening" d)
        emit (label_set tx.tx_id tx.address "Opening" text)
        height ← attempt (wallet.get_block_height 0)
        modify (λ d. record d {
          starting_block_height = height;
          starting_block_height_set =
              if is_liquid (get_chain d) && get_protocol_version d == peerswap_protocol_version
              then true
              else d.starting_block_height_set;
          opening_tx_hex = tx.tx_hex;
        })
        let announcement : OpeningTxBroadcastedMessage = record {
          swap_id = get_id d;
          payreq = payreq;
          tx_id = tx.tx_id;
          script_out = tx.vout;
          blinding_key = key;
        }
        modify (λ d. record d { opening_tx_broadcasted = some announcement })
        set_next_message s (PeerMessage.opening_tx_broadcasted announcement)
        return action_succeeded)
