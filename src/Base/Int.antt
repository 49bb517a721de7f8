-- ===== src/Base/Int.antt =====
-- Signed integers over the native numbers, with Go's int64 wrap-around, halving and order.
use winsvr.Base.{ℕ, suc, ◌+◌, ◌-◌, ◌/◌, ◌%◌, ◌^◌, ◌≤◌, ◌≡◌, refl, Bool, ltb, leb, if◌then◌else◌}

-- `negsuc n` is -(n + 1).
pub data ℤ : Type 0 where
  pos : ℕ → ℤ
  negsuc : ℕ → ℤ

abbrev pub pos_part : ℤ → ℕ
pos_part (pos n) = n
pos_part (negsuc n) = 0

abbrev pub neg_part : ℤ → ℕ
neg_part (pos n) = 0
neg_part (negsuc n) = suc n

-- a - b, as an integer.
abbrev pub sub_ℕ : ℕ → ℕ → ℤ
sub_ℕ a b = if leb b a then pos (a - b) else negsuc (b - a - 1)

abbrev pub ltb_ℤ : ℤ → ℤ → Bool
ltb_ℤ a b = ltb (pos_part a + neg_part b) (pos_part b + neg_part a)

abbrev pub leb_ℤ : ℤ → ℤ → Bool
leb_ℤ a b = leb (pos_part a + neg_part b) (pos_part b + neg_part a)

infix 50 ◌≤ℤ◌
abbrev pub ◌≤ℤ◌ : ℤ → ℤ → Type 0
a ≤ℤ b = pos_part a + neg_part b ≤ pos_part b + neg_part a

-- Go's math.MaxInt64.
abbrev pub max_int64 : ℕ
max_int64 = 2 ^ 63 - 1

-- The int64 whose bit pattern is `n`, a number below 2^64.
abbrev pub from_bits64 : ℕ → ℤ
from_bits64 n = if ltb n (2 ^ 63) then pos n else negsuc (2 ^ 64 - n - 1)

-- The bit pattern of an integer, modulo 2^64.
abbrev pub to_bits64 : ℤ → ℕ
to_bits64 (pos n) = n % 2 ^ 64
to_bits64 (negsuc n) = 2 ^ 64 - 1 - n % 2 ^ 64

-- a + b in int64, which wraps.
abbrev pub add_int64 : ℤ → ℤ → ℤ
add_int64 a b = from_bits64 ((to_bits64 a + to_bits64 b) % 2 ^ 64)

-- a / 2 in Go, which rounds toward zero.
abbrev pub half : ℤ → ℤ
half (pos n) = pos (n / 2)
half (negsuc n) = sub_ℕ 0 (suc n / 2)

add_int64_wraps : add_int64 (pos max_int64) (pos 1) ≡ negsuc max_int64
add_int64_wraps = refl

half_negative : half (negsuc 6) ≡ negsuc 2
half_negative = refl
