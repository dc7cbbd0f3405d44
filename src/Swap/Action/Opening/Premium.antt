-- ===== src/Swap/Action/Opening/Premium.antt =====
-- Which premiums `CheckPremiumAmount` lets through.
use peerswap.Prelude.{◌≡◌, refl, Bool, true, false, not, Option, none, some, inl, inr, ◌⊎◌, arith}
use peerswap.Prelude.Int.{ℤ, ◌≤ℤ◌, ltb_ℤ}
use peerswap.Swap.Error.{Error}
use peerswap.Swap.Message.{
  SwapInRequestMessage, SwapInAgreementMessage, SwapOutRequestMessage, SwapOutAgreementMessage,
}
use peerswap.Swap.Data.{SwapData}
use peerswap.Swap.State.{EventType, action_failed}
use peerswap.Swap.Flow.{Progress, Act, Flow, stop, panic, require, fail, deref, if_set, ◌>>=◌, ◌>>◌}
use peerswap.Swap.Action.Opening.{check_premium_amount_action}

-- The limit of the request and the premium of the agreement, where both are there: those of the
-- swap-in, or else of the swap-out.
abbrev terms :
    Option SwapInAgreementMessage
    → Option SwapInRequestMessage
    → Option SwapOutAgreementMessage
    → Option SwapOutRequestMessage
    → Option (ℤ × ℤ)
terms (some a) (some r) oa or = some (r.premium_limit, a.premium)
terms (some a) none oa or = none
terms none ir (some a) (some r) = some (r.premium_limit, a.premium)
terms none ir (some a) none = none
terms none ir none or = none

abbrev pub agreed_terms : SwapData → Option (ℤ × ℤ)
agreed_terms d = terms d.swap_in_agreement d.swap_in_request d.swap_out_agreement d.swap_out_request

-- The action fails after no call.
abbrev pub FailsQuietly : Progress → Flow EventType → Type 0
FailsQuietly p r = (q : Progress) × (r ≡ stop action_failed q) × (q.effects ≡ p.effects)

-- What the terms decide: `r` is what comes of the action, `go` what follows it.
abbrev pub Judged : Progress → Option (ℤ × ℤ) → Flow EventType → Flow EventType → Type 0
Judged p none r go = (r ≡ panic p) ⊎ FailsQuietly p r
Judged p (some (limit, premium)) r go =
    ((premium ≤ℤ limit) × (r ≡ go)) ⊎ ((ltb_ℤ limit premium ≡ true) × FailsQuietly p r)

at_most : (a b : ℤ) → ltb_ℤ a b ≡ false → b ≤ℤ a
at_most a b h = ground arith

limited :
    (limit premium : ℤ) (b : Bool) (e : Error) (rest : Act EventType) (p : Progress)
    → ltb_ℤ limit premium ≡ b
    → Judged p (some (limit, premium)) ((require (not b) e >> rest) p) (rest p)
unfolding ◌>>=◌
limited limit premium true e rest p h = inr (h, (_, refl, refl))
limited limit premium false e rest p h = inl (at_most limit premium h, refl)

judged :
    (ia : Option SwapInAgreementMessage) (ir : Option SwapInRequestMessage)
    (oa : Option SwapOutAgreementMessage) (or : Option SwapOutRequestMessage) (e : ℤ → ℤ → Error)
    (last : Error) (rest : Act EventType) (p : Progress)
    → Judged p
        (terms ia ir oa or)
        (if_set ia
          (λ a. deref ir >>= λ r.
            (require (not (ltb_ℤ r.premium_limit a.premium)) (e a.premium r.premium_limit) >> rest))
          (if_set oa
            (λ a. deref or >>= λ r.
              (require (not (ltb_ℤ r.premium_limit a.premium)) (e a.premium r.premium_limit)
                >> rest))
            (fail last))
          p)
        (rest p)
unfolding ◌>>=◌
judged (some a) (some r) oa or e last rest p =
    limited r.premium_limit a.premium _ (e a.premium r.premium_limit) rest p refl
judged (some a) none oa or e last rest p = inl refl
judged none ir (some a) (some r) e last rest p =
    limited r.premium_limit a.premium _ (e a.premium r.premium_limit) rest p refl
judged none ir (some a) none e last rest p = inl refl
judged none ir none or e last rest p = inr (_, refl, refl)

-- A requester that has the terms of both sides goes on exactly if the premium is at most its own
-- limit; if it is more the action fails and makes no call. Without the terms of both sides it does
-- not go on: it fails, or panics where the agreement has no request.
pub check_premium_exact :
    (rest : Act EventType) (p : Progress)
    → Judged p (agreed_terms p.swap) (check_premium_amount_action rest p) (rest p)
unfolding check_premium_amount_action ◌>>=◌
check_premium_exact rest p =
    judged p.swap.swap_in_agreement p.swap.swap_in_request p.swap.swap_out_agreement
      p.swap.swap_out_request _ _ rest p
