-- ===== src/Swap/Action/Pay/ClaimInvoice.antt =====
-- When a taker pays the claim invoice.
use peerswap.Prelude.{ℕ, ◌/◌, ◌≡◌, Bool, true, false, ◌∷◌, some, ◌⊎◌, ltb}
use peerswap.Prelude.Equality.{string_eq}
use peerswap.Prelude.Words.{sub32}
use peerswap.Swap.Error.{Error, Result, ok}
use peerswap.Swap.Message.{OpeningTxBroadcastedMessage}
use peerswap.Swap.Data.{
  get_opening_tx_amount, get_taker_pubkey, get_maker_pubkey, SwapData, Chain, btc_chain,
  l_btc_chain, no_chain, get_chain, get_scid,
}
use peerswap.Swap.State.{EventType}
use peerswap.Swap.Timelock.{TimelockPolicy, get_timelock_policy, check_payment_window}
use peerswap.Swap.Services.{
  SwapServices, OnChain, OpeningParams, claim_invoice_paid, get_on_chain_services,
}
use peerswap.Swap.Flow.{Progress, Flow, next, stop}
use peerswap.Swap.Action.Params.{get_payment_hash, get_blinding_key}

-- On Bitcoin at most half of the maker's waiting time has passed; on Liquid the window is open.
abbrev InTimeAt : Chain → Bool → Result (Unit {0}) → Type 0
InTimeAt btc_chain late window = late ≡ false
InTimeAt l_btc_chain late window = window ≡ ok tt
InTimeAt no_chain late window = Unit

abbrev pub InTime : OnChain → TimelockPolicy → SwapData → ℕ → Type 0
InTime o t d now =
    InTimeAt (get_chain d) (ltb (o.get_csv_height / 2) (sub32 now d.starting_block_height))
      (check_payment_window d now t)

-- The opening transaction that the swap agreed on: both keys, the hash, the amount, the waiting time of
-- the policy, and the key that unblinds it.
pub record IsAgreed (s : SwapServices) (d : SwapData) (t : TimelockPolicy) (params : OpeningParams)
    : Type 0 where
  pub taker_is : params.taker_pubkey ≡ get_taker_pubkey d
  pub maker_is : params.maker_pubkey ≡ get_maker_pubkey d
  pub hash_is : params.claim_payment_hash ≡ get_payment_hash s d
  pub amount_is : get_opening_tx_amount d ≡ some params.amount
  pub csv_is : params.csv ≡ t.csv
  pub blinding_is : params.blinding_key ≡ get_blinding_key s d

-- What is known of a claim invoice that is paid.
pub record ClaimIsChecked (s : SwapServices) (d : SwapData) (tx : OpeningTxBroadcastedMessage)
    (limit : ℕ) : Type 0 where
  pub onchain : OnChain
  pub policy : TimelockPolicy
  pub params : OpeningParams
  pub round : ℕ
  pub height : ℕ
  pub onchain_is : get_on_chain_services s (get_chain d) ≡ ok onchain
  pub policy_is : get_timelock_policy d ≡ ok policy
  pub limit_is : limit ≡ policy.max_total_cltv_delta
  pub tx_is : d.opening_tx_broadcasted ≡ some tx
  pub agreed : IsAgreed s d policy params
  -- The validator accepts the opening transaction for these parameters.
  pub valid : onchain.validate_tx params d.opening_tx_hex ≡ ok true
  pub height_is : onchain.get_block_height round ≡ ok height
  pub in_time : InTime onchain policy d height

-- The action pays nothing, or it pays the checked invoice once.
abbrev pub PaysClaim : SwapServices → Progress → Progress → Type 0
PaysClaim s p q =
    (q.effects ≡ p.effects)
    ⊎ ((tx : OpeningTxBroadcastedMessage) × (limit : ℕ) × (q.effects
          ≡ claim_invoice_paid tx.payreq (get_scid p.swap) limit ∷ p.effects)
        × ClaimIsChecked s p.swap tx limit)

TickEnds : Flow (Unit {0}) → Progress → Type 0 → Type 0
TickEnds f p R =
    ((f ≡ next tt p) × R)
    ⊎ ((e : EventType) × (d : SwapData) × (f ≡ stop e (record p { swap = d })))

module _ (s : SwapServices) (p : Progress) where
  P : Progress → Type 0
  P = PaysClaim s p
