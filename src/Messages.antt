-- ===== src/Messages.antt =====
-- The message types of the protocol (messages/types.go).
pub mod Hex
pub mod Sender
use peerswap.Prelude.{ℕ, ◌+◌}
use peerswap.Prelude.Equality.{nat_eq}

abbrev pub base_message_type : ℕ
base_message_type = 42069

-- The constants count up by two from the base.
abbrev pub messagetype_swapinrequest : ℕ
messagetype_swapinrequest = base_message_type

abbrev pub messagetype_swapoutrequest : ℕ
messagetype_swapoutrequest = base_message_type + 2

abbrev pub messagetype_swapinagreement : ℕ
messagetype_swapinagreement = base_message_type + 4

abbrev pub messagetype_swapoutagreement : ℕ
messagetype_swapoutagreement = base_message_type + 6

abbrev pub messagetype_openingtxbroadcasted : ℕ
messagetype_openingtxbroadcasted = base_message_type + 8

abbrev pub messagetype_canceled : ℕ
messagetype_canceled = base_message_type + 10

abbrev pub messagetype_coopclose : ℕ
messagetype_coopclose = base_message_type + 12

abbrev pub messagetype_poll : ℕ
messagetype_poll = base_message_type + 14

abbrev pub messagetype_request_poll : ℕ
messagetype_request_poll = base_message_type + 16
