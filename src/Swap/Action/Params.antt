-- ===== src/Swap/Action/Params.antt =====
-- What several actions compute from the swap: the parameters of its transactions, memos, labels
-- (swap/swap.go, labels/labels.go).
use Prim.Native.Char.{code}
use Prim.Native.String.{slice}
use peerswap.Prelude.{ℕ, Option, none, some, [], ◌∷◌, if◌then◌else◌}
use peerswap.Prelude.Equality.{◌==◌, ◌!=◌, nat_eq, string_eq}
use peerswap.Prelude.Text.{String, concat}
use peerswap.Swap.Error.{ok, err}
use peerswap.Swap.Data.{
  SwapData, Chain, btc_chain, l_btc_chain, no_chain, get_id, get_chain, get_scid, get_maker_pubkey,
  get_taker_pubkey, get_opening_tx_amount,
}
use peerswap.Swap.Timelock.{get_timelock_policy}
use peerswap.Swap.Services.{
  SwapServices, OpeningParams, ClaimParams, InvoiceType, invoice_claim, invoice_fee,
}
use peerswap.Swap.Flow.{Act, ◌>>=◌, return, read, deref}

-- `GetScidInBoltFormat`: each `:` becomes an `x`.
bolt_separators : String → String
bolt_separators String.[] = String.[]
bolt_separators (String.◌∷◌ c s) =
    String.◌∷◌ (if code c == b':' then "x" else c) (bolt_separators s)

pub get_scid_in_bolt_format : SwapData → String
unfolding bolt_separators
get_scid_in_bolt_format d = bolt_separators (get_scid d)

unfoldable pub get_payment_hash : SwapServices → SwapData → String
get_payment_hash s d =
    if d.claim_payment_hash != ""
    then d.claim_payment_hash
    else if d.claim_preimage != ""
    then s.codec.payment_hash_of d.claim_preimage
    else ""

-- The blinding key that `GetOpeningParams` takes: the message's, or else the swap's own.
unfoldable pub get_blinding_key : SwapServices → SwapData → Option String
get_blinding_key s d =
    let own : Option String =
      if d.blinding_key_hex != ""
      then some (s.codec.parse_private_key d.blinding_key_hex)
      else none in
    elim d.opening_tx_broadcasted [
      | none ↦ own
      | some m ↦
          if m.blinding_key != "" then some (s.codec.parse_private_key m.blinding_key) else own
    ]

-- An error of the timelock policy leaves the zero policy.
abbrev csv_or_zero : SwapData → ℕ
csv_or_zero d = elim (get_timelock_policy d) [ ok p ↦ p.csv | err e ↦ 0 ]

unfoldable pub get_opening_params : SwapServices → Act OpeningParams
unfolding get_payment_hash get_blinding_key
get_opening_params s = do
  d ← read (λ d. d)
  amount ← deref (get_opening_tx_amount d)
  return (record {
    taker_pubkey = get_taker_pubkey d;
    maker_pubkey = get_maker_pubkey d;
    claim_payment_hash = get_payment_hash s d;
    amount = amount;
    csv = csv_or_zero d;
    blinding_key = get_blinding_key s d;
  })

unfoldable pub get_claim_params : SwapData → ClaimParams
get_claim_params d = record {
  preimage = d.claim_preimage;
  signer_key = d.privkey;
  opening_tx_hex = d.opening_tx_hex;
}

abbrev pub chain_text : Chain → String
chain_text btc_chain = "btc"
chain_text l_btc_chain = "lbtc"
chain_text no_chain = ""

abbrev pub invoice_type_text : InvoiceType → String
invoice_type_text invoice_claim = "claim"
invoice_type_text invoice_fee = "fee"

-- `"peerswap %s %s %s %s"`.
pub memo : InvoiceType → SwapData → String
memo t d = concat (
    "peerswap "
    ∷ chain_text (get_chain d)
    ∷ " "
    ∷ invoice_type_text t
    ∷ " "
    ∷ get_scid_in_bolt_format d
    ∷ " "
    ∷ get_id d
    ∷ [])

-- `peerswapLabelPattern`, with the short form of the swap id: `Short` panics on an empty one.
unfoldable pub label : String → SwapData → Option String
label kind d =
    if get_id d == ""
    then none
    else some (concat ("peerswap -- " ∷ kind ∷ "(swap id=" ∷ slice (get_id d) 0 6 ∷ ")" ∷ []))
