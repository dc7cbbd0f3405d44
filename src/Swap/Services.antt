-- ===== src/Swap/Services.antt =====
-- What an action asks of the world (swap/services.go): the answers of the other components as they
-- stand while one action runs, and the calls that change something outside the swap.
use peerswap.Prelude.{ℕ, Bool, Option}
use peerswap.Prelude.Int.{ℤ}
use peerswap.Prelude.Text.{String}
use peerswap.Swap.Error.{Error, Result, ok, err}
use peerswap.Swap.Message.{PeerMessage}
use peerswap.Swap.State.{StateType}
use peerswap.Swap.Data.{SwapData, SwapType, Chain, btc_chain, l_btc_chain, no_chain}

pub record OpeningParams : Type 0 where
  pub taker_pubkey : String
  pub maker_pubkey : String
  pub claim_payment_hash : String
  pub amount : ℕ
  pub csv : ℕ
  pub blinding_key : Option String

pub record ClaimParams : Type 0 where
  pub preimage : String
  pub signer_key : String
  pub opening_tx_hex : String

-- `DecodePayreq`.
pub record Invoice : Type 0 where
  pub payment_hash : String
  pub amount_msat : ℕ
  pub final_cltv_delta : ℤ

-- `CreateOpeningTransaction`, without the fee, which no caller reads.
pub record OpeningTx : Type 0 where
  pub tx_hex : String
  pub address : String
  pub tx_id : String
  pub vout : ℕ

-- A spending transaction: its id and its address.
pub record SpendingTx : Type 0 where
  pub tx_id : String
  pub address : String

pub data InvoiceType : Type 0 where
  invoice_claim invoice_fee : InvoiceType

-- `RequestedSwap` of swap/store.go.
pub record RequestedSwap : Type 0 where
  pub asset : Chain
  pub amount_sat : ℕ
  pub swap_type : SwapType
  pub rejection_reason : String

-- The interface `Policy`.
pub record Policy : Type 0 where
  pub new_swaps_allowed : Bool
  pub min_swap_amount_msat : ℕ
  pub is_peer_allowed : String → Bool
  pub is_peer_suspicious : String → Bool
  pub add_to_suspicious_peer_list : String → Option Error

-- The interface `LightningClient`. A payment that is tried again names its round.
pub record LightningClient : Type 0 where
  pub decode_payreq : String → Result Invoice
  pub get_payreq : ℕ → String → String → String → InvoiceType → ℕ → ℕ → Result String
  pub pay_invoice_via_channel : String → String → Result String
  pub rebalance_payment : ℕ → String → String → ℕ → Result String
  pub recover_claim_payment : String → Result String
  pub can_spend : ℕ → Option Error
  pub implementation : String
  pub spendable_msat : String → Result ℕ
  pub receivable_msat : String → Result ℕ
  pub probe_payment : String → ℕ → Result (Bool × String)

-- The interfaces `TxWatcher`, `Wallet` and `Validator` of one chain. A height that is asked for
-- again names its round.
pub record OnChain : Type 0 where
  pub get_block_height : ℕ → Result ℕ
  pub create_opening_transaction : OpeningParams → Result OpeningTx
  pub create_preimage_spending_transaction : OpeningParams → ClaimParams → Result SpendingTx
  pub create_csv_spending_transaction : OpeningParams → ClaimParams → Result SpendingTx
  pub create_coop_spending_transaction : OpeningParams → ClaimParams → String → Result SpendingTx
  pub get_output_script : OpeningParams → Result String
  pub get_flat_opening_tx_fee : Result ℕ
  pub get_asset : String
  pub get_network : String
  pub get_onchain_balance : Result ℕ
  pub validate_tx : OpeningParams → String → Result Bool
  pub get_csv_height : ℕ

-- Keys, hashes, random values and JSON: `btcec`, `crypto/sha256`, `crypto/rand`, `encoding/json`.
pub record Codec : Type 0 where
  pub marshal : PeerMessage → Result String
  pub pubkey_of : String → String
  pub parse_private_key : String → String
  pub payment_hash_of : String → String
  pub new_private_key : Result String
  pub get_preimage : Result String

pub record SwapServices : Type 0 where
  pub policy : Policy
  pub lightning : LightningClient
  pub bitcoin : OnChain
  pub liquid : OnChain
  pub bitcoin_enabled : Bool
  pub liquid_enabled : Bool
  pub codec : Codec
  -- `ps.Compute(peer, asset, operation, amount)`.
  pub compute_premium : String → Chain → SwapType → ℕ → Result ℤ
  -- `messenger.SendMessage`, `messengerManager.AddSender` and `swapStore.UpdateData`: their error.
  pub send_message : String → String → ℕ → Option Error
  pub add_sender : String → Option Error
  pub update_data : Option Error
  -- In a build for fast tests, or when the retry time is over: the rounds that a payment gets.
  pub payment_rounds : ℕ

-- `getOnChainServices`.
unfoldable pub get_on_chain_services : SwapServices → Chain → Result OnChain
get_on_chain_services s btc_chain = ok s.bitcoin
get_on_chain_services s l_btc_chain = ok s.liquid
get_on_chain_services s no_chain = err (Error.message "missing asset")

-- The calls that change something outside, as they succeed. A label is listed whether or not it
-- could be set: its error is only logged.
pub data Effect : Type 0 where
  requested_swap : String → RequestedSwap → Effect
  sent : String → String → ℕ → Effect
  sender_added : String → Effect
  sender_removed : String → Effect
  payment_notifier : String → String → InvoiceType → Effect
  wait_for_csv : String → String → ℕ → ℕ → ℕ → String → Effect
  wait_for_confirmation : String → String → ℕ → ℕ → ℕ → String → Effect
  opening_tx : OpeningParams → OpeningTx → Effect
  spent_by_preimage : OpeningParams → ClaimParams → SpendingTx → Effect
  spent_by_csv : OpeningParams → ClaimParams → SpendingTx → Effect
  spent_by_coop : OpeningParams → ClaimParams → String → SpendingTx → Effect
  label_set : String → String → String → String → Effect
  invoice_made : InvoiceType → ℕ → String → Effect
  fee_invoice_paid : String → String → Effect
  claim_invoice_paid : String → String → ℕ → Effect
  timeout_set : String → Effect
  marked_suspicious : String → Effect
  stored : StateType → SwapData → Effect
