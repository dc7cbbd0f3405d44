-- ===== src/Swap/Data.antt =====
-- `SwapData` of swap/swap.go: what a swap remembers, and its getters. A pointer is an `Option`;
-- `LastMessage`, which nothing reads or writes, is left out.
use peerswap.Prelude.{ℕ, ◌*◌, ◌&&◌, Bool, false, Option, none, some, if◌then◌else◌}
use peerswap.Prelude.Equality.{◌==◌, ◌!=◌, string_eq}
use peerswap.Prelude.Int.{ℤ, pos}
use peerswap.Prelude.Text.{String}
use peerswap.Prelude.Words.{add64, unsigned64}
use peerswap.Swap.Error.{Error, error_text}
use peerswap.Swap.Message.{
  SwapInRequestMessage, SwapInAgreementMessage, SwapOutRequestMessage, SwapOutAgreementMessage,
  OpeningTxBroadcastedMessage, CancelMessage, CoopCloseMessage, PeerMessage,
}
use peerswap.Swap.State.{StateType}

pub data SwapType : Type 0 where
  no_type swap_in swap_out : SwapType

pub data SwapRole : Type 0 where
  sender receiver : SwapRole

-- `btc_chain`, `l_btc_chain` and the empty text of `GetChain`.
pub data Chain : Type 0 where
  btc_chain l_btc_chain no_chain : Chain

pub record SwapData : Type 0 where
  pub swap_in_request : Option SwapInRequestMessage
  pub swap_in_agreement : Option SwapInAgreementMessage
  pub swap_out_request : Option SwapOutRequestMessage
  pub swap_out_agreement : Option SwapOutAgreementMessage
  pub opening_tx_broadcasted : Option OpeningTxBroadcastedMessage
  pub coop_close : Option CoopCloseMessage
  pub cancel : Option CancelMessage
  pub cancel_message : String
  pub peer_node_id : String
  pub initiator_node_id : String
  pub created_at : ℕ
  pub role : SwapRole
  pub fsm_state : StateType
  pub privkey : String
  pub fee_preimage : String
  pub opening_tx_fee : ℕ
  pub opening_tx_hex : String
  pub starting_block_height : ℕ
  pub starting_block_height_set : Bool
  pub claim_tx_id : String
  pub claim_payment_hash : String
  pub claim_preimage : String
  pub blinding_key_hex : String
  pub next_message : Option String
  pub next_message_type : ℕ
  pub last_err : Option Error
  pub last_err_string : String
  pub to_cancel : Bool

-- `NewSwapData` and `NewSwapDataFromRequest`: the key and the time come from outside.
new_data : SwapRole → String → String → String → ℕ → SwapData
new_data role initiator peer key now = record {
  swap_in_request = none;
  swap_in_agreement = none;
  swap_out_request = none;
  swap_out_agreement = none;
  opening_tx_broadcasted = none;
  coop_close = none;
  cancel = none;
  cancel_message = "";
  peer_node_id = peer;
  initiator_node_id = initiator;
  created_at = now;
  role = role;
  fsm_state = StateType.default;
  privkey = key;
  fee_preimage = "";
  opening_tx_fee = 0;
  opening_tx_hex = "";
  starting_block_height = 0;
  starting_block_height_set = false;
  claim_tx_id = "";
  claim_payment_hash = "";
  claim_preimage = "";
  blinding_key_hex = "";
  next_message = none;
  next_message_type = 0;
  last_err = none;
  last_err_string = "";
  to_cancel = false;
}

unfoldable pub new_swap_data : String → String → String → ℕ → SwapData
unfolding new_data
new_swap_data initiator peer key now = new_data sender initiator peer key now

unfoldable pub new_swap_data_from_request : String → String → ℕ → SwapData
unfolding new_data
new_swap_data_from_request peer key now = new_data receiver peer peer key now

-- The first of the two requests that is there.
abbrev pick {ℓ} :
    {A : Type ℓ} → (SwapInRequestMessage → A) → (SwapOutRequestMessage → A) → A → SwapData → A
pick f g d s = elim s.swap_in_request [
  | some m ↦ f m
  | none ↦ elim s.swap_out_request [ some m ↦ g m | none ↦ d ]
]

-- The first of the four messages of the agreement that is there.
abbrev pick_four {ℓ} :
    {A : Type ℓ}
    → (SwapInRequestMessage → A)
    → (SwapOutRequestMessage → A)
    → (SwapInAgreementMessage → A)
    → (SwapOutAgreementMessage → A)
    → A
    → SwapData
    → A
pick_four f g h k d s = elim s.swap_in_request [
  | some m ↦ f m
  | none ↦ elim s.swap_out_request [
    | some m ↦ g m
    | none ↦ elim s.swap_in_agreement [
      | some m ↦ h m
      | none ↦ elim s.swap_out_agreement [ some m ↦ k m | none ↦ d ]
    ]
  ]
]

-- The empty text stands for the nil pointer.
unfoldable pub get_id : SwapData → String
get_id s = pick_four (λ m. m.swap_id) (λ m. m.swap_id) (λ m. m.swap_id) (λ m. m.swap_id) "" s

unfoldable pub get_protocol_version : SwapData → ℕ
get_protocol_version s =
    pick_four (λ m. m.protocol_version) (λ m. m.protocol_version) (λ m. m.protocol_version)
      (λ m. m.protocol_version) 0 s

unfoldable pub get_type : SwapData → SwapType
get_type s = pick (λ m. swap_in) (λ m. swap_out) no_type s

unfoldable pub get_scid : SwapData → String
get_scid s = pick (λ m. m.scid) (λ m. m.scid) "" s

unfoldable pub get_amount : SwapData → ℕ
get_amount s = pick (λ m. m.amount) (λ m. m.amount) 0 s

unfoldable pub get_asset : SwapData → String
get_asset s = pick (λ m. m.asset) (λ m. m.asset) "" s

unfoldable pub get_network : SwapData → String
get_network s = pick (λ m. m.network) (λ m. m.network) "" s

unfoldable pub get_chain : SwapData → Chain
unfolding get_asset get_network
get_chain s =
    if get_asset s != "" && get_network s == ""
    then l_btc_chain
    else if get_asset s == "" && get_network s != ""
    then btc_chain
    else no_chain

-- `uint64(int64(amount) + premium)`.
abbrev pub plus_premium : ℕ → ℤ → ℕ
plus_premium amount premium = add64 amount (unsigned64 premium)

-- `none` is the nil pointer that is followed where the agreement is missing.
unfoldable pub get_claim_amount : SwapData → Option ℕ
get_claim_amount s = elim s.swap_in_request [
  | some m ↦ some m.amount
  | none ↦ elim s.swap_out_request [
    | none ↦ some 0
    | some m ↦ elim s.swap_out_agreement [
      | none ↦ none
      | some a ↦ some (plus_premium m.amount a.premium)
    ]
  ]
]

unfoldable pub get_opening_tx_amount : SwapData → Option ℕ
get_opening_tx_amount s = elim s.swap_in_request [
  | some m ↦ elim s.swap_in_agreement [
    | none ↦ none
    | some a ↦ some (plus_premium m.amount a.premium)
  ]
  | none ↦ elim s.swap_out_request [ none ↦ some 0 | some m ↦ some m.amount ]
]

unfoldable pub get_premium : SwapData → ℤ
get_premium s = elim s.swap_in_agreement [
  | some a ↦ a.premium
  | none ↦ elim s.swap_out_agreement [ some a ↦ a.premium | none ↦ pos 0 ]
]

unfoldable pub get_invoice_expiry : SwapData → ℕ
unfolding get_chain
get_invoice_expiry s = elim (get_chain s) [
  | btc_chain ↦ 3600 * 24
  | l_btc_chain ↦ 3600
  | no_chain ↦ 0
]

unfoldable pub get_maker_pubkey : SwapData → String
get_maker_pubkey s = elim s.swap_in_request [
  | some m ↦ m.pubkey
  | none ↦ elim s.swap_out_agreement [ some a ↦ a.pubkey | none ↦ "" ]
]

unfoldable pub get_taker_pubkey : SwapData → String
get_taker_pubkey s = elim s.swap_out_request [
  | some m ↦ m.pubkey
  | none ↦ elim s.swap_in_agreement [ some a ↦ a.pubkey | none ↦ "" ]
]

-- `none` is the nil interface.
unfoldable pub get_request : SwapData → Option PeerMessage
get_request s =
    pick (λ m. some (PeerMessage.swap_in_request m)) (λ m. some (PeerMessage.swap_out_request m))
      none s

unfoldable pub get_opening_tx_id : SwapData → String
get_opening_tx_id s = elim s.opening_tx_broadcasted [ some m ↦ m.tx_id | none ↦ "" ]

unfoldable pub get_cancel_message : SwapData → String
get_cancel_message s = elim s.cancel [
  | some m ↦ m.message
  | none ↦ elim s.last_err [ some e ↦ error_text e | none ↦ s.cancel_message ]
]

-- `HandleError` of swap/actions.go, without the event that it returns. The error may be nil.
unfoldable pub handle_error : SwapData → Option Error → SwapData
handle_error s e =
    let text : String = elim e [ some x ↦ error_text x | none ↦ s.last_err_string ] in
    record s {
      last_err = e;
      last_err_string = text;
      cancel_message = if s.cancel_message == "" then text else s.cancel_message;
    }
