-- ===== src/Swap/Service/Requests.antt =====
-- What swap/service.go does with the request of a peer: it asks for the premium and the balance of
-- the channel, tells the peer why it refuses, or locks the channel and starts the receiver's machine.
use peerswap.Prelude.{ℕ, [], ◌∷◌, Option, none, some, ltb, if◌then◌else◌}
use peerswap.Prelude.Equality.{◌==◌, string_eq}
use peerswap.Prelude.Text.{String, concat, decimal, signed_decimal}
use peerswap.Prelude.Int.{ℤ, ltb_ℤ}
use peerswap.Prelude.Words.{mul64}
use peerswap.Swap.Error.{Error, Result, ok, err, error_text}
use peerswap.Swap.Message.{PeerMessage, SwapInRequestMessage, SwapOutRequestMessage, message_type}
use peerswap.Swap.State.{EventType, swap_in_receiver_on_request_received}
use peerswap.Swap.Data.{Chain, btc_chain, l_btc_chain, swap_in, swap_out}
use peerswap.Swap.Services.{SwapServices, sent}
use peerswap.Swap.Machine.{World, later}
use peerswap.Swap.Machine.Start.{new_swap_out_receiver_fsm, new_swap_in_receiver_fsm}
use peerswap.Swap.Service.{lock_swap}
use peerswap.Swap.Service.Serving.{
  Serving, ◌>>=◌, ◌>>◌, refuse, check, remove_if, send, served, refused,
}
use peerswap.Swap.Service.Handlers.{drive}

-- What a new swap takes from outside: its key and the time, and the id that a request is given.
pub record Fresh : Type 0 where
  pub swap_id : String
  pub key : String
  pub now : ℕ

-- `SendMessage`, whose error nobody reads.
abbrev pub post : SwapServices → String → String → ℕ → Serving (Unit {0})
post services peer bytes type s = served tt (elim (services.send_message peer bytes type) [
  | none ↦ record s { effects = sent peer bytes type ∷ s.effects }
  | some e ↦ s
])

-- The peer is told, and the error of the marshalling goes back, in place of the reason.
unfoldable pub tell : SwapServices → String → String → String → Serving (Unit {0})
unfolding message_type
tell services peer id text =
    let m : PeerMessage = PeerMessage.cancel (record { swap_id = id; message = text }) in
    elim (services.codec.marshal m) [
      | ok bytes ↦ post services peer bytes (message_type m)
      | err e ↦ post services peer "" 0 >> refuse e
    ]

abbrev because : SwapServices → Error → String
because services e =
    concat ("from the " ∷ services.lightning.implementation ∷ " peer: " ∷ error_text e ∷ [])

abbrev pub unacceptable_premium : ℤ → ℤ → Error
unacceptable_premium premium limit = Error.message (
    concat
      ("unacceptable premium: " ∷ signed_decimal premium ∷ ", limit: " ∷ signed_decimal limit ∷ []))

abbrev pub exceeding : String → ℕ → Error
exceeding what n = Error.message (concat ("exceeding " ∷ what ∷ " amount_msat: " ∷ decimal n ∷ []))

-- A request of Bitcoin names its network, one of Liquid does not.
abbrev pub asset_of : String → Chain
asset_of network = if network == "" then l_btc_chain else btc_chain

-- What a request must pass before the channel is locked: the reason of a refusal that the peer is
-- told, if there is one.
pub data Screened : Type 0 where
  passes : Screened
  tells : String → Screened

abbrev pub tell_error : {A : Type 0} → SwapServices → Result A → (A → Screened) → Screened
tell_error services (ok a) f = f a
tell_error services (err e) f = tells (because services e)

abbrev pub no_error : Option Error → Result (Unit {0})
no_error none = ok tt
no_error (some e) = err e

unfoldable pub screen_swap_in : SwapServices → SwapInRequestMessage → ℤ → Screened
screen_swap_in services msg premium =
    if ltb_ℤ msg.premium_limit premium
    then tells (because services (unacceptable_premium premium msg.premium_limit))
    else tell_error services (no_error (services.lightning.can_spend (mul64 msg.amount 1000))) λ _.
      tell_error services (services.lightning.spendable_msat msg.scid) λ sp.
        if ltb sp (mul64 msg.amount 1000)
        then tells (because services (exceeding "spendable" sp))
        else tell_error services (services.lightning.probe_payment msg.scid (mul64 msg.amount 1000))
            λ probe.
              if probe.0
              then passes
              else tells (concat ("The prepayment probe was unsuccessful." ∷ probe.1 ∷ []))

unfoldable pub screen_swap_out : SwapServices → SwapOutRequestMessage → ℤ → Screened
screen_swap_out services msg premium =
    if ltb_ℤ msg.premium_limit premium
    then tells (because services (unacceptable_premium premium msg.premium_limit))
    else tell_error services (services.lightning.receivable_msat msg.scid) λ rs.
      if ltb rs (mul64 msg.amount 1000)
      then tells (because services (exceeding "receivable" rs))
      else passes

unfoldable pub on_swap_in_request_received :
    World → Fresh → String → SwapInRequestMessage → Serving (Unit {0})
unfolding tell screen_swap_in send remove_if lock_swap
on_swap_in_request_received w fresh peer msg s =
    let services = w 0 in
    elim (services.compute_premium peer (asset_of msg.network) swap_in msg.amount) [
      | err e ↦ refused e s
      | ok premium ↦ elim (screen_swap_in services msg premium) [
        | tells text ↦ tell services peer msg.swap_id text s
        | passes ↦
            let m = new_swap_in_receiver_fsm msg.swap_id peer fresh.key fresh.now in
            elim (lock_swap m.swap_id msg.scid m s.active) [
              | err e ↦ tell services peer msg.swap_id (error_text e) s
              | ok swaps ↦
                  (do
                    end ←
                        send (later w) m.swap_id m swap_in_receiver_on_request_received
                          (some (PeerMessage.swap_in_request msg))
                    remove_if end.done m.swap_id
                    check end.error)
                    (record s { active = swaps })
            ]
      ]
    ]

unfoldable pub on_swap_out_request_received :
    World → Fresh → String → SwapOutRequestMessage → Serving (Unit {0})
unfolding tell screen_swap_out drive lock_swap
on_swap_out_request_received w fresh peer msg s =
    let services = w 0 in
    elim (services.compute_premium peer (asset_of msg.network) swap_out msg.amount) [
      | err e ↦ refused e s
      | ok premium ↦ elim (screen_swap_out services msg premium) [
        | tells text ↦ tell services peer msg.swap_id text s
        | passes ↦
            let m = new_swap_out_receiver_fsm msg.swap_id peer fresh.key fresh.now in
            elim (lock_swap m.swap_id msg.scid m s.active) [
              | err e ↦ tell services peer msg.swap_id (error_text e) s
              | ok swaps ↦
                  drive (later w) m.swap_id m EventType.on_swap_out_request_received
                    (some (PeerMessage.swap_out_request msg)) (record s { active = swaps })
            ]
      ]
    ]
