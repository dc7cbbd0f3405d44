-- ===== src/Swap/Message.antt =====
-- The peer messages of swap/messages.go and the checks that each makes on itself. What decodes
-- a message from JSON is `encoding/json`: a message is taken as decoded.
use peerswap.Prelude.{ℕ, ◌&&◌, ◌||◌, [], ◌∷◌, length, if◌then◌else◌}
use peerswap.Prelude.Equality.{◌==◌, ◌!=◌, nat_eq, string_eq}
use peerswap.Prelude.Int.{ℤ}
use peerswap.Prelude.Text.{String, codes, concat, decimal}
use peerswap.Swap.Error.{Error, Result, ok, err, ◌>>=◌, ◌>>◌}
use peerswap.Messages.{
  messagetype_swapinrequest, messagetype_swapoutrequest, messagetype_swapinagreement,
  messagetype_swapoutagreement, messagetype_openingtxbroadcasted, messagetype_canceled,
  messagetype_coopclose,
}
use peerswap.Swap.Hex.{hex_decode}

pub record SwapInRequestMessage : Type 0 where
  pub protocol_version : ℕ
  pub swap_id : String
  pub network : String
  pub asset : String
  pub scid : String
  pub amount : ℕ
  pub pubkey : String
  pub premium_limit : ℤ

pub record SwapInAgreementMessage : Type 0 where
  pub protocol_version : ℕ
  pub swap_id : String
  pub pubkey : String
  pub premium : ℤ

pub record SwapOutRequestMessage : Type 0 where
  pub protocol_version : ℕ
  pub swap_id : String
  pub asset : String
  pub network : String
  pub scid : String
  pub amount : ℕ
  pub pubkey : String
  pub premium_limit : ℤ

pub record SwapOutAgreementMessage : Type 0 where
  pub protocol_version : ℕ
  pub swap_id : String
  pub pubkey : String
  pub payreq : String
  pub premium : ℤ

pub record OpeningTxBroadcastedMessage : Type 0 where
  pub swap_id : String
  pub payreq : String
  pub tx_id : String
  pub script_out : ℕ
  pub blinding_key : String

pub record CancelMessage : Type 0 where
  pub swap_id : String
  pub message : String

pub record CoopCloseMessage : Type 0 where
  pub swap_id : String
  pub message : String
  pub privkey : String

-- `PeerMessage`.
pub data PeerMessage : Type 0 where
  swap_in_request : SwapInRequestMessage → PeerMessage
  swap_out_request : SwapOutRequestMessage → PeerMessage
  swap_in_agreement : SwapInAgreementMessage → PeerMessage
  swap_out_agreement : SwapOutAgreementMessage → PeerMessage
  opening_tx_broadcasted : OpeningTxBroadcastedMessage → PeerMessage
  cancel : CancelMessage → PeerMessage
  coop_close : CoopCloseMessage → PeerMessage

-- `validateHexString`: hexadecimal, of so many bytes.
pub validate_hex_string : String → String → ℕ → Result (Unit {0})
validate_hex_string name s expected = do
  bytes ← hex_decode (codes s)
  if length bytes == expected
      then ok tt
      else err (
          Error.message (
            concat (
              "Param "
              ∷ name
              ∷ " is of invalid length expected: "
              ∷ decimal expected
              ∷ ", actual "
              ∷ decimal (length bytes)
              ∷ [])))

-- The switch of `validateNetwork`.
pub validate_network : String → Result (Unit {0})
validate_network network =
    if network == "mainnet"
      || network == "testnet"
      || network == "testnet3"
      || network == "testnet4"
      || network == "signet"
      || network == "regtest"
    then ok tt
    else err Error.invalid_network

pub validate_asset_and_network : String → String → Result (Unit {0})
validate_asset_and_network asset network =
    if (asset == "" && network == "") || (asset != "" && network != "")
    then err Error.asset_or_network_set
    else do
      if asset != "" then validate_hex_string "asset" asset 33 else ok tt
      if network != "" then validate_network network else ok tt

-- The `MessageType` methods.
unfoldable pub message_type : PeerMessage → ℕ
message_type (PeerMessage.swap_in_request m) = messagetype_swapinrequest
message_type (PeerMessage.swap_out_request m) = messagetype_swapoutrequest
message_type (PeerMessage.swap_in_agreement m) = messagetype_swapinagreement
message_type (PeerMessage.swap_out_agreement m) = messagetype_swapoutagreement
message_type (PeerMessage.opening_tx_broadcasted m) = messagetype_openingtxbroadcasted
message_type (PeerMessage.cancel m) = messagetype_canceled
message_type (PeerMessage.coop_close m) = messagetype_coopclose
