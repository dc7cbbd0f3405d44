-- ===== src/Swap/Service/Screen.antt =====
-- Which requests of peers get as far as the lock of a channel.
use peerswap.Prelude.{ℕ, ◌≤◌, ◌≡◌, refl, true, false, ltb, ◌↔◌, Bool, if◌then◌else◌, arith}
use peerswap.Prelude.Equality.{nat_eq, string_eq}
use peerswap.Prelude.Text.{String}
use peerswap.Prelude.Int.{ℤ, ◌≤ℤ◌, ltb_ℤ}
use peerswap.Prelude.Words.{mul64}
use peerswap.Swap.Error.{Error, Result, ok, err}
use peerswap.Swap.Message.{SwapOutRequestMessage}
use peerswap.Swap.Services.{SwapServices}
use peerswap.Swap.Service.Requests.{Screened, passes, tells, tell_error, screen_swap_out}

refused_if :
    (b : Bool) (text : String) (y : Screened)
    → (if b then tells text else y) ≡ passes
    → (b ≡ false) × (y ≡ passes)
refused_if true text y h = ground arith
refused_if false text y h = (refl, h)

refused_by :
    {A : Type 0} (services : SwapServices) (r : Result A) (f : A → Screened)
    → tell_error services r f ≡ passes
    → (a : A) × (r ≡ ok a) × (f a ≡ passes)
refused_by services (ok a) f h = (a, refl, h)
refused_by services (err e) f h = ground arith

-- With a premium a swap-out request passes the screening exactly if the premium is at most its limit
-- and the node can receive the amount over the channel.
pub screen_swap_out_iff :
    (services : SwapServices) (msg : SwapOutRequestMessage) (premium : ℤ)
    → (screen_swap_out services msg premium ≡ passes) ↔ (
        (premium ≤ℤ msg.premium_limit)
        × ((rs : ℕ) × (services.lightning.receivable_msat msg.scid ≡ ok rs)
            × (mul64 msg.amount 1000 ≤ rs)))
unfolding screen_swap_out
screen_swap_out_iff services msg premium = (
  λ h.
      let (cheap, h1) = refused_if (ltb_ℤ msg.premium_limit premium) _ _ h in
      let (rs, is, h2) = refused_by services (services.lightning.receivable_msat msg.scid) _ h1 in
      let (enough, h3) = refused_if (ltb rs (mul64 msg.amount 1000)) _ _ h2 in
      (ground arith, (rs, is, ground arith)),
  λ h.
      let (low, (rs, is, enough)) = h in
      let cheap : ltb_ℤ msg.premium_limit premium ≡ false = ground arith in
      let fits : ltb rs (mul64 msg.amount 1000) ≡ false = ground arith in rw (cheap, is, fits),
)
