-- ===== src/Swap/Context.antt =====
-- A peer message as the context of an event: `Validate` and `ApplyToSwapData` of swap/messages.go.
use peerswap.Prelude.{none, some, if◌then◌else◌}
use peerswap.Prelude.Equality.{◌!=◌, string_eq}
use peerswap.Prelude.Text.{codes}
use peerswap.Swap.Error.{Error, Result, ok, err, ◌>>◌}
use peerswap.Swap.Message.{
  PeerMessage, validate_hex_string, validate_network, validate_asset_and_network,
}
use peerswap.Swap.Scid.{validate_scid}
use peerswap.Swap.Data.{SwapData, get_chain}
use peerswap.Swap.Action.Request.{is_liquid}

unfoldable pub validate : SwapData → PeerMessage → Result (Unit {0})
validate d (PeerMessage.swap_in_request m) = do
  validate_hex_string "pubkey" m.pubkey 33
  validate_asset_and_network m.asset m.network
  if m.asset != "" then validate_hex_string "asset" m.asset 33 else ok tt
  if m.network != "" then validate_network m.network else ok tt
  validate_scid (codes m.scid)
validate d (PeerMessage.swap_out_request m) = do
  validate_hex_string "pubkey" m.pubkey 33
  validate_asset_and_network m.asset m.network
  validate_scid (codes m.scid)
validate d (PeerMessage.swap_in_agreement m) = validate_hex_string "pubkey" m.pubkey 33
validate d (PeerMessage.swap_out_agreement m) = validate_hex_string "pubkey" m.pubkey 33
validate d (PeerMessage.opening_tx_broadcasted m) = do
  if is_liquid (get_chain d) then validate_hex_string "blinding_key" m.blinding_key 32 else ok tt
  validate_hex_string "txId" m.tx_id 32
validate d (PeerMessage.cancel m) = ok tt
validate d (PeerMessage.coop_close m) = validate_hex_string "privkey" m.privkey 32

-- Only a cancel message may come a second time.
unfoldable pub apply : SwapData → PeerMessage → Result SwapData
apply d (PeerMessage.swap_in_request m) = elim d.swap_in_request [
  | some old ↦ err Error.already_exists
  | none ↦ ok (record d { swap_in_request = some m })
]
apply d (PeerMessage.swap_out_request m) = elim d.swap_out_request [
  | some old ↦ err Error.already_exists
  | none ↦ ok (record d { swap_out_request = some m })
]
apply d (PeerMessage.swap_in_agreement m) = elim d.swap_in_agreement [
  | some old ↦ err Error.already_exists
  | none ↦ ok (record d { swap_in_agreement = some m })
]
apply d (PeerMessage.swap_out_agreement m) = elim d.swap_out_agreement [
  | some old ↦ err Error.already_exists
  | none ↦ ok (record d { swap_out_agreement = some m })
]
apply d (PeerMessage.opening_tx_broadcasted m) = elim d.opening_tx_broadcasted [
  | some old ↦ err Error.already_exists
  | none ↦ ok (record d { opening_tx_broadcasted = some m })
]
apply d (PeerMessage.cancel m) = ok (record d { cancel = some m })
apply d (PeerMessage.coop_close m) = elim d.coop_close [
  | some old ↦ err Error.already_exists
  | none ↦ ok (record d { coop_close = some m })
]
