-- ===== src/Premium.antt =====
-- The premium that a peer asks for a swap (premium/premium.go): rates in parts per million, and what they
-- make of an amount. `Store` holds the rates of each peer and the default ones.
pub mod Rates
pub mod Amount
pub mod Decimal
pub mod Store
use peerswap.Prelude.{ℕ, ◌*◌, [], ◌∷◌, List, Option, none, some, if◌then◌else◌}
use peerswap.Prelude.Equality.{◌==◌, string_eq}
use peerswap.Prelude.Text.{String, concat}
use peerswap.Prelude.Int.{ℤ, pos}
use peerswap.Prelude.Words.{signed64, mul_i64, quot_i64}
use peerswap.Swap.Error.{Error, Result, ok, err, ◌>>=◌}

pub data AssetType : Type 0 where
  asset_unspecified btc lbtc : AssetType

pub data OperationType : Type 0 where
  operation_unspecified swap_in swap_out : OperationType

pub record PremiumRate : Type 0 where
  pub asset : AssetType
  pub operation : OperationType
  pub premium_rate : ℤ

unfoldable pub new_premium_rate : AssetType → OperationType → ℤ → Result PremiumRate
new_premium_rate asset_unspecified o r = err (Error.message "invalid asset type")
new_premium_rate btc operation_unspecified r = err (Error.message "invalid operation type")
new_premium_rate lbtc operation_unspecified r = err (Error.message "invalid operation type")
new_premium_rate a o r = ok (record { asset = a; operation = o; premium_rate = r })

abbrev pub premium_rate_parts : ℕ
premium_rate_parts = 1000000

-- `int64(amtSat) * p.ppmValue / premiumRateParts`.
abbrev pub compute_ppm : ℤ → ℕ → ℤ
compute_ppm ppm amount = quot_i64 (mul_i64 (signed64 amount) ppm) premium_rate_parts

-- `DefaultPremiumRate`.
unfoldable pub built_in_rate : AssetType → OperationType → Option ℤ
built_in_rate btc swap_in = some (pos 0)
built_in_rate btc swap_out = some (pos 2000)
built_in_rate lbtc swap_in = some (pos 0)
built_in_rate lbtc swap_out = some (pos 1000)
built_in_rate _ _ = none
