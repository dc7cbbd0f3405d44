-- ===== src/Premium/Amount.antt =====
-- How large a premium is.
use peerswap.Prelude.{ℕ, suc, ap, ◌∙◌, ◌+◌, ◌-◌, ◌%◌, ◌*◌, ◌/◌, ◌^◌, ◌<◌, ◌≡◌, arith}
use peerswap.Prelude.Int.{ℤ, pos, negsuc, pos_part, neg_part}
use peerswap.Prelude.Words.{u64_mod, signed64, neg, quot_i64}
use peerswap.Premium.{compute_ppm}

signed64_small : (x : ℕ) → x < 2 ^ 63 → signed64 x ≡ pos x
signed64_small x h = ground arith

product_pos : (x : ℕ) → x < 2 ^ 63 → signed64 (x % u64_mod) ≡ pos x
product_pos x h = ground arith

product_neg : (x : ℕ) → x < 2 ^ 63 → signed64 ((u64_mod - x % u64_mod) % u64_mod) ≡ neg x
product_neg x h = ground arith

quotient_neg : (x : ℕ) → quot_i64 (neg x) 1000000 ≡ neg (x / 1000000)
quotient_neg x = ground arith

pos_part-neg : (x : ℕ) → pos_part (neg x) ≡ 0
pos_part-neg x = ground arith

neg_part-neg : (x : ℕ) → neg_part (neg x) ≡ x
neg_part-neg x = ground arith

compute_ppm-pos :
    (n amount : ℕ)
    → amount < 2 ^ 63
    → amount * n < 2 ^ 63
    → compute_ppm (pos n) amount ≡ pos (amount * n / 1000000)
compute_ppm-pos n amount h g = cc (signed64_small amount h, product_pos (amount * n) g)

compute_ppm-negsuc :
    (n amount : ℕ)
    → amount < 2 ^ 63
    → amount * suc n < 2 ^ 63
    → compute_ppm (negsuc n) amount ≡ neg (amount * suc n / 1000000)
compute_ppm-negsuc n amount h g =
    cc (signed64_small amount h, product_neg (amount * suc n) g, quotient_neg (amount * suc n))

-- Where amount times rate fits into 63 bits, the premium is the amount's share, cut towards zero,
-- with the sign of the rate.
pub compute_ppm_exact :
    (ppm : ℤ) (amount : ℕ)
    → amount < 2 ^ 63
    → amount * (pos_part ppm + neg_part ppm) < 2 ^ 63
    → (pos_part (compute_ppm ppm amount) ≡ amount * pos_part ppm / 1000000)
      × (neg_part (compute_ppm ppm amount) ≡ amount * neg_part ppm / 1000000)
compute_ppm_exact (pos n) amount h g =
    let value = compute_ppm-pos n amount h (omega arith) in
    (ap pos_part value, ap neg_part value ∙ omega arith)
compute_ppm_exact (negsuc n) amount h g =
    let value = compute_ppm-negsuc n amount h (omega arith) in
    let x = amount * suc n / 1000000 in
    (ap pos_part value ∙ (pos_part-neg x ∙ omega arith), ap neg_part value ∙ neg_part-neg x)
