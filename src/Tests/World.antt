-- ===== src/Tests/World.antt =====
-- A world in which every call succeeds, and the swaps that live in it.
use peerswap.Prelude.{ℕ, true, false, [], none, some}
use peerswap.Prelude.Int.{pos}
use peerswap.Swap.Error.{Error, Result, ok, err}
use peerswap.Swap.Message.{
  SwapInRequestMessage, SwapInAgreementMessage, SwapOutRequestMessage, SwapOutAgreementMessage,
  OpeningTxBroadcastedMessage,
}
use peerswap.Swap.Data.{SwapData}
use peerswap.Swap.State.{
  StateType, swap_in_sender_await_agreement, swap_in_sender_await_claim_payment,
  swap_in_receiver_claim_swap, swap_out_sender_claim_swap, claimed_csv,
}
use peerswap.Swap.Services.{SwapServices, OnChain, LightningClient, Policy, Codec, Invoice}
use peerswap.Swap.Flow.{Progress}
use peerswap.Swap.Machine.{SwapStateMachine, World}
use peerswap.Swap.Machine.Start.{
  new_swap_in_sender_fsm, new_swap_in_receiver_fsm, new_swap_out_sender_fsm,
}

abbrev policy : Policy
policy = record {
  new_swaps_allowed = true;
  min_swap_amount_msat = 100000000;
  is_peer_allowed = λ p. true;
  is_peer_suspicious = λ p. false;
  add_to_suspicious_peer_list = λ p. none;
}

abbrev claim_invoice : Invoice
claim_invoice = record {
  payment_hash = "hash";
  amount_msat = 200000000;
  final_cltv_delta = pos 503;
}

abbrev lightning : LightningClient
lightning = record {
  decode_payreq = λ p. ok claim_invoice;
  get_payreq = λ a b c d e f g. ok "payreq";
  pay_invoice_via_channel = λ a b. ok "preimage";
  rebalance_payment = λ n a b c. ok "preimage";
  recover_claim_payment = λ a. ok "preimage";
  can_spend = λ n. none;
  implementation = "CLN";
  spendable_msat = λ c. ok 900000000;
  receivable_msat = λ c. ok 900000000;
  probe_payment = λ c n. ok (true, "");
}

-- The height of the chain is 110, or cannot be asked for.
abbrev pub chain_at : Result ℕ → OnChain
chain_at height = record {
  get_block_height = λ n. height;
  create_opening_transaction =
      λ p. ok (record { tx_hex = "00"; address = "address"; tx_id = "opening"; vout = 1 });
  create_preimage_spending_transaction =
      λ p c. ok (record { tx_id = "claim"; address = "address" });
  create_csv_spending_transaction = λ p c. ok (record { tx_id = "csv"; address = "address" });
  create_coop_spending_transaction = λ p c k. ok (record { tx_id = "coop"; address = "address" });
  get_output_script = λ p. ok "script";
  get_flat_opening_tx_fee = ok 100000;
  get_asset = "";
  get_network = "mainnet";
  get_onchain_balance = ok 5000000;
  validate_tx = λ p t. ok true;
  get_csv_height = 1008;
}

abbrev codec : Codec
codec = record {
  marshal = λ m. ok "message";
  pubkey_of = λ k. "pubkey";
  parse_private_key = λ k. k;
  payment_hash_of = λ p. "hash";
  new_private_key = ok "key";
  get_preimage = ok "preimage";
}

abbrev pub services_at : Result ℕ → SwapServices
services_at height = record {
  policy = policy;
  lightning = lightning;
  bitcoin = chain_at height;
  liquid = chain_at height;
  bitcoin_enabled = true;
  liquid_enabled = false;
  codec = codec;
  compute_premium = λ p c t n. ok (pos 10);
  send_message = λ p m n. none;
  add_sender = λ i. none;
  update_data = none;
  payment_rounds = 3;
}

abbrev pub services : SwapServices
services = services_at (ok 110)

abbrev pub world : World
world k = services

-- The world in which no block height is known.
abbrev pub blind_world : World
blind_world k = services_at (err (Error.message "no height"))

abbrev pub in_request : SwapInRequestMessage
in_request = record {
  protocol_version = 7;
  swap_id = "swap";
  network = "mainnet";
  asset = "";
  scid = "1x2x3";
  amount = 200000;
  pubkey = "pubkey";
  premium_limit = pos 100;
}

abbrev pub out_request : SwapOutRequestMessage
out_request = record {
  protocol_version = 7;
  swap_id = "swap";
  asset = "";
  network = "mainnet";
  scid = "1x2x3";
  amount = 200000;
  pubkey = "pubkey";
  premium_limit = pos 100;
}

abbrev out_agreement : SwapOutAgreementMessage
out_agreement = record {
  protocol_version = 7;
  swap_id = "swap";
  pubkey = "pubkey";
  payreq = "fee";
  premium = pos 10;
}

abbrev pub in_agreement : SwapInAgreementMessage
in_agreement = record {
  protocol_version = 7;
  swap_id = "swap";
  pubkey = "pubkey";
  premium = pos 10;
}

abbrev opening : OpeningTxBroadcastedMessage
opening = record {
  swap_id = "swap";
  payreq = "payreq";
  tx_id = "opening";
  script_out = 1;
  blinding_key = "";
}

abbrev at_state : SwapStateMachine → StateType → SwapData → SwapStateMachine
at_state m s d = record m { swap = d; current = s }

abbrev new_in_sender : SwapStateMachine
new_in_sender = new_swap_in_sender_fsm "swap" "alice" "bob" "key" 1

abbrev new_in_receiver : SwapStateMachine
new_in_receiver = new_swap_in_receiver_fsm "swap" "alice" "key" 1

abbrev pub new_out_sender : SwapStateMachine
new_out_sender = new_swap_out_sender_fsm "swap" "alice" "bob" "key" 1

-- A maker that waits for the agreement, and has it.
abbrev pub agreed_maker : SwapStateMachine
agreed_maker = at_state new_in_sender swap_in_sender_await_agreement (record (new_in_sender.swap) {
  swap_in_request = some in_request;
  swap_in_agreement = some in_agreement;
})

abbrev pub agreed : Progress
agreed = record {
  swap = record (agreed_maker.swap) { fsm_state = swap_in_sender_await_agreement };
  effects = [];
}

-- A maker that has announced its opening transaction and waits for the payment.
abbrev pub waiting_maker : SwapStateMachine
waiting_maker =
    at_state new_in_sender swap_in_sender_await_claim_payment (record (agreed_maker.swap) {
      opening_tx_broadcasted = some opening;
      opening_tx_hex = "00";
      claim_preimage = "preimage";
      starting_block_height = 100;
    })

abbrev pub finished_maker : SwapStateMachine
finished_maker = at_state new_in_sender claimed_csv waiting_maker.swap

-- A taker that has validated nothing yet, in the state in which it validates and pays.
abbrev pub taker_data : SwapData
taker_data = record (new_in_receiver.swap) {
  swap_in_request = some in_request;
  swap_in_agreement = some in_agreement;
  opening_tx_broadcasted = some opening;
  opening_tx_hex = "00";
  starting_block_height = 100;
}

abbrev pub paid_taker : SwapStateMachine
paid_taker =
    at_state new_in_receiver swap_in_receiver_claim_swap
      (record taker_data { claim_preimage = "preimage" })

abbrev pub paying_taker : Progress
paying_taker = record { swap = taker_data; effects = [] }

-- A swap-out sender that has the agreement with the fee invoice.
abbrev pub fee_taker : Progress
fee_taker = record {
  swap = record (new_out_sender.swap) {
    swap_out_request = some out_request;
    swap_out_agreement = some out_agreement;
  };
  effects = [];
}

-- A swap-out sender that has paid the claim invoice and claims.
abbrev pub paid_out_sender : SwapStateMachine
paid_out_sender = at_state new_out_sender swap_out_sender_claim_swap (record (fee_taker.swap) {
  opening_tx_broadcasted = some opening;
  opening_tx_hex = "00";
  claim_preimage = "preimage";
})

-- A request as its receiver sees it.
abbrev pub requested : Progress
requested = record {
  swap = record (new_in_receiver.swap) { swap_in_request = some in_request };
  effects = [];
}
