-- ===== src/Prelude/Words.antt =====
-- The machine integers of Go: `uint64`, `uint32` and `int64`, with their wrap-around and
-- conversions. An `int64` is the integer that it stands for.
use peerswap.Prelude.{ℕ, suc, ◌+◌, ◌-◌, ◌*◌, ◌/◌, ◌%◌, ◌^◌, ltb, if◌then◌else◌}
use peerswap.Prelude.Int.{ℤ, pos, negsuc}

abbrev pub u64_mod : ℕ
u64_mod = 2 ^ 64

abbrev pub u32_mod : ℕ
u32_mod = 2 ^ 32

abbrev pub i64_max : ℕ
i64_max = 2 ^ 63 - 1

abbrev pub add64 : ℕ → ℕ → ℕ
add64 a b = (a + b) % u64_mod

abbrev pub sub64 : ℕ → ℕ → ℕ
sub64 a b = (a + u64_mod - b) % u64_mod

abbrev pub mul64 : ℕ → ℕ → ℕ
mul64 a b = (a * b) % u64_mod

abbrev pub add32 : ℕ → ℕ → ℕ
add32 a b = (a + b) % u32_mod

abbrev pub sub32 : ℕ → ℕ → ℕ
sub32 a b = (a + u32_mod - b) % u32_mod

-- `int64(w)`: the two's complement reading of 64 bits.
abbrev pub signed64 : ℕ → ℤ
signed64 w = if ltb w (2 ^ 63) then pos w else negsuc (u64_mod - w - 1)

-- `uint64(x)`: the bit pattern of an integer, reduced to 64 bits.
abbrev pub unsigned64 : ℤ → ℕ
unsigned64 (pos n) = n % u64_mod
unsigned64 (negsuc n) = u64_mod - 1 - n % u64_mod

-- The product of two `int64`, wrapped.
abbrev pub mul_i64 : ℤ → ℤ → ℤ
mul_i64 (pos a) (pos b) = signed64 (unsigned64 (pos (a * b)))
mul_i64 (pos a) (negsuc b) = signed64 ((u64_mod - (a * suc b) % u64_mod) % u64_mod)
mul_i64 (negsuc a) (pos b) = signed64 ((u64_mod - (suc a * b) % u64_mod) % u64_mod)
mul_i64 (negsuc a) (negsuc b) = signed64 (unsigned64 (pos (suc a * suc b)))

-- The negation of a number, as an integer.
abbrev pub neg : ℕ → ℤ
neg n = if ltb 0 n then negsuc (n - 1) else pos 0

-- Go's `/` on signed integers cuts towards zero; by a positive number no overflow arises.
abbrev pub quot_i64 : ℤ → ℕ → ℤ
quot_i64 (pos a) d = pos (a / d)
quot_i64 (negsuc a) d = neg (suc a / d)
