-- ===== src/Tests/Premiums.antt =====
-- The theorems on premiums, on concrete rates.
use peerswap.Prelude.{ℕ, ◌*◌, ◌/◌, ◌≡◌, refl, List, [], ◌∷◌, inl, arith}
use peerswap.Prelude.Text.{codes}
use peerswap.Prelude.Int.{pos, negsuc, pos_part, neg_part}
use peerswap.Swap.Error.{ok}
use peerswap.Bolt.{gives}
use peerswap.Premium.{PremiumRate, btc, swap_out, new_premium_rate, compute_ppm}
use peerswap.Premium.Decimal.{write_number, read_number}
use peerswap.Premium.Store.{set_rate, delete_rate}
use peerswap.Premium.Rates.{IsRateSet, get_rate-set_rate}
use peerswap.Tests.Stores.{bucket, bucket-IsBolt, tx}
use peerswap.Premium.Amount.{compute_ppm_exact}

abbrev rate : PremiumRate
rate = record { asset = btc; operation = swap_out; premium_rate = pos 500 }

-- The bytes of 500 at the key of bob, and nothing after its deletion.
abbrev one_rate : List (List ℕ × List ℕ)
one_rate = (codes "bob.1.2", codes "500") ∷ []

set_run : set_rate bucket tx "bob" rate [] ≡ gives one_rate
unfolding set_rate write_number
set_run = refl

delete_run : delete_rate bucket tx "bob" btc swap_out one_rate ≡ gives []
unfolding delete_rate
delete_run = refl

negative_run : read_number (codes " -2000 ppm") ≡ ok (negsuc 1999)
unfolding read_number
negative_run = refl

get_rate-set_rate_example : IsRateSet bucket tx "bob" rate [] one_rate [] "carol" btc swap_out
unfolding new_premium_rate
get_rate-set_rate_example =
    get_rate-set_rate bucket tx tx "bob" "carol" btc btc swap_out swap_out (pos 500) rate []
      one_rate [] bucket-IsBolt refl (omega arith) (inl (λ h. ground (arith, h))) refl set_run
      delete_run

compute_ppm_exact_example :
    (pos_part (compute_ppm (pos 2000) 123456) ≡ 123456 * 2000 / 1000000)
    × (neg_part (compute_ppm (pos 2000) 123456) ≡ 123456 * 0 / 1000000)
compute_ppm_exact_example = compute_ppm_exact (pos 2000) 123456 (omega arith) (omega arith)
