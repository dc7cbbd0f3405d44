-- ===== src/Swap/Action/Opening/Funds.antt =====
-- What a maker funds is what it later claims.
use peerswap.Prelude.{ℕ, ◌≡◌, false, ◌∷◌, none, some, if◌then◌else◌}
use peerswap.Prelude.Equality.{nat_eq, string_eq}
use peerswap.Prelude.Text.{String}
use peerswap.Swap.Message.{OpeningTxBroadcastedMessage}
use peerswap.Swap.Data.{SwapData, get_chain, get_id, get_maker_pubkey, get_taker_pubkey}
use peerswap.Swap.State.{EventType}
use peerswap.Swap.Services.{
  SwapServices, OpeningParams, OpeningTx, invoice_claim, opening_tx, label_set, invoice_made,
}
use peerswap.Swap.Flow.{Progress, next}
use peerswap.Swap.Action.Params.{get_opening_params, label}
use peerswap.Swap.Action.Request.{is_liquid}

-- The transaction that was made and its announcement, and the parameters of a later claim.
pub record IsFunded (s : SwapServices) (p q : Progress) : Type 0 where
  pub params : OpeningParams
  pub tx : OpeningTx
  pub announcement : OpeningTxBroadcastedMessage
  pub amount_msat : ℕ
  pub label_text : String
  pub label_is : label "Opening" p.swap ≡ some label_text
  pub calls :
      q.effects
      ≡ label_set tx.tx_id tx.address "Opening" label_text
        ∷ opening_tx params tx
        ∷ invoice_made invoice_claim amount_msat announcement.payreq
        ∷ p.effects
  pub announced : q.swap.opening_tx_broadcasted ≡ some announcement
  pub id_is : announcement.tx_id ≡ tx.tx_id
  pub output_is : announcement.script_out ≡ tx.vout
  pub claimable : get_opening_params s q ≡ next params q

-- Nothing secret or announced is in the data of a Bitcoin swap yet.
pub record IsFresh (d : SwapData) : Type 0 where
  pub on_bitcoin : is_liquid (get_chain d) ≡ false
  pub no_hash : d.claim_payment_hash ≡ ""
  pub no_blinding_key : d.blinding_key_hex ≡ ""
  pub not_announced : d.opening_tx_broadcasted ≡ none

-- The swap after the action is funded and announced.
abbrev pub Funds : SwapServices → Progress → EventType → Progress → Type 0
Funds s p e q = IsFunded s p q

abbrev announce : SwapData → String → OpeningTx → OpeningTxBroadcastedMessage
announce d payreq tx = record {
  swap_id = get_id d;
  payreq = payreq;
  tx_id = tx.tx_id;
  script_out = tx.vout;
  blinding_key = "";
}

abbrev with_preimage : SwapServices → SwapData → String → ℕ → ℕ → OpeningParams
with_preimage s d preimage amount csv = record {
  taker_pubkey = get_taker_pubkey d;
  maker_pubkey = get_maker_pubkey d;
  claim_payment_hash = s.codec.payment_hash_of preimage;
  amount = amount;
  csv = csv;
  blinding_key = if is_liquid (get_chain d) then some "" else none;
}
