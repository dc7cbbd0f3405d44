-- ===== src/Swap/Timelock.antt =====
-- The time limits of swap/timelock.go, and the checks of swap/actions.go that use them.
pub mod Margins
use peerswap.Prelude.{
  ℕ, ◌+◌, ◌-◌, ◌*◌, ◌/◌, ◌&&◌, not, Bool, true, false, [], ◌∷◌, ltb, leb, if◌then◌else◌,
}
use peerswap.Prelude.Equality.{◌==◌, ◌!=◌, nat_eq}
use peerswap.Prelude.Int.{ℤ, pos, negsuc}
use peerswap.Prelude.Text.{concat, decimal, signed_decimal}
use peerswap.Prelude.Words.{mul64}
use peerswap.Swap.Error.{Error, Result, ok, err}
use peerswap.Swap.Data.{
  SwapData, Chain, btc_chain, l_btc_chain, no_chain, get_chain, get_protocol_version,
}

abbrev pub legacy_protocol_version : ℕ
legacy_protocol_version = 6

-- `PEERSWAP_PROTOCOL_VERSION` of swap/service.go.
abbrev pub peerswap_protocol_version : ℕ
peerswap_protocol_version = 7

abbrev pub bitcoin_swap_csv : ℕ
bitcoin_swap_csv = 1008

abbrev pub bitcoin_payment_window : ℕ
bitcoin_payment_window = bitcoin_swap_csv / 2

abbrev pub bitcoin_invoice_final_cltv : ℕ
bitcoin_invoice_final_cltv = bitcoin_payment_window - 1

abbrev pub legacy_liquid_swap_csv : ℕ
legacy_liquid_swap_csv = 60

abbrev pub legacy_liquid_final_cltv : ℕ
legacy_liquid_final_cltv = legacy_liquid_swap_csv / 2 - 1

abbrev pub liquid_swap_csv : ℕ
liquid_swap_csv = 7 * 24 * 60

abbrev pub liquid_payment_window : ℕ
liquid_payment_window = 60

abbrev pub liquid_invoice_final_cltv : ℕ
liquid_invoice_final_cltv = 29

abbrev pub liquid_max_total_cltv_delta : ℕ
liquid_max_total_cltv_delta = 32

pub record TimelockPolicy : Type 0 where
  pub csv : ℕ
  pub payment_window : ℕ
  pub invoice_final_cltv : ℕ
  pub max_total_cltv_delta : ℕ
  pub allow_new_claim_payment : Bool

unfoldable pub validate_total_cltv_delta : ℕ → ℕ → Result (Unit {0})
validate_total_cltv_delta required limit =
    if limit != 0 && ltb limit required
    then err (
        Error.message (
          concat (
            "invoice requires CLTV delta "
            ∷ decimal required
            ∷ ", maximum is "
            ∷ decimal limit
            ∷ [])))
    else ok tt

abbrev bitcoin_policy : TimelockPolicy
bitcoin_policy = record {
  csv = bitcoin_swap_csv;
  payment_window = bitcoin_payment_window;
  invoice_final_cltv = bitcoin_invoice_final_cltv;
  max_total_cltv_delta = 0;
  allow_new_claim_payment = true;
}

abbrev legacy_liquid_policy : TimelockPolicy
legacy_liquid_policy = record {
  csv = legacy_liquid_swap_csv;
  payment_window = legacy_liquid_swap_csv / 2;
  invoice_final_cltv = legacy_liquid_final_cltv;
  max_total_cltv_delta = 0;
  allow_new_claim_payment = false;
}

abbrev liquid_policy : TimelockPolicy
liquid_policy = record {
  csv = liquid_swap_csv;
  payment_window = liquid_payment_window;
  invoice_final_cltv = liquid_invoice_final_cltv;
  max_total_cltv_delta = liquid_max_total_cltv_delta;
  allow_new_claim_payment = true;
}

abbrev unsupported_version : ℕ → Result TimelockPolicy
unsupported_version v =
    err (Error.message (concat ("unsupported protocol version: " ∷ decimal v ∷ [])))

-- The switch on the chain, at a protocol version.
unfoldable pub policy_for : Chain → ℕ → Result TimelockPolicy
policy_for btc_chain v =
    if v != legacy_protocol_version && v != peerswap_protocol_version
    then unsupported_version v
    else ok bitcoin_policy
policy_for l_btc_chain v =
    if v == legacy_protocol_version
    then ok legacy_liquid_policy
    else if v == peerswap_protocol_version
    then ok liquid_policy
    else unsupported_version v
policy_for no_chain v = err (Error.message "unsupported chain: ")

unfoldable pub get_timelock_policy : SwapData → Result TimelockPolicy
unfolding policy_for
get_timelock_policy s = policy_for (get_chain s) (get_protocol_version s)

-- `GetInvoiceCltv` of swap/swap.go.
unfoldable pub get_invoice_cltv : SwapData → ℕ
unfolding get_timelock_policy
get_invoice_cltv s = elim (get_timelock_policy s) [ ok p ↦ p.invoice_final_cltv | err e ↦ 0 ]

abbrev cltv_is_safe : ℤ → ℕ → Bool
cltv_is_safe (negsuc d) limit = false
cltv_is_safe (pos d) limit = leb d limit

unfoldable pub validate_claim_invoice : ℕ → ℤ → ℕ → TimelockPolicy → Result (Unit {0})
validate_claim_invoice amount_msat final_cltv_delta claim_sat p =
    if not (cltv_is_safe final_cltv_delta p.invoice_final_cltv)
    then err (
        Error.message (
          concat (
            "unsafe invoice cltv: "
            ∷ signed_decimal final_cltv_delta
            ∷ ", maximum: "
            ∷ decimal p.invoice_final_cltv
            ∷ [])))
    else if amount_msat != mul64 claim_sat 1000
    then err (
        Error.message (
          concat (
            "invoice amount does not equal swap amount, invoice amount: "
            ∷ decimal amount_msat
            ∷ " msat, swap amount: "
            ∷ decimal claim_sat
            ∷ " sat"
            ∷ [])))
    else ok tt

unfoldable pub check_payment_window : SwapData → ℕ → TimelockPolicy → Result (Unit {0})
check_payment_window s height p =
    if not s.starting_block_height_set
    then err (Error.message "could not get starting block height of the swap")
    else if ltb height s.starting_block_height
    then err (
        Error.message (
          concat (
            "current block height "
            ∷ decimal height
            ∷ " is below swap starting height "
            ∷ decimal s.starting_block_height
            ∷ [])))
    else if leb (s.starting_block_height + p.payment_window) height
    then err (
        Error.message (
          concat (
            "claim payment deadline exceeded: current height "
            ∷ decimal height
            ∷ ", deadline "
            ∷ decimal (s.starting_block_height + p.payment_window)
            ∷ [])))
    else ok tt
