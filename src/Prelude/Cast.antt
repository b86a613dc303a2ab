-- ===== src/Prelude/Cast.antt =====
-- Conversions of a 32-bit signed integer to the narrower fields that hold it, and its order.
use rockchip_kmpp.Prelude.{
  ℕ, zero, suc, ◌-◌, ◌%◌, ◌^◌, Bool, true, false, not, ltb, ◌==◌, if◌then◌else◌,
}
use rockchip_kmpp.Prelude.Int.{ℤ, pos, negsuc, ltb_ℤ}

-- The `k` low bits of the two's complement pattern.
abbrev pub low_bits : ℕ → ℤ → ℕ
low_bits k (pos n) = n % 2 ^ k
low_bits k (negsuc n) = 2 ^ k - 1 - n % 2 ^ k

-- The number that an 8-bit pattern stands for.
abbrev pub signed8 : ℕ → ℤ
signed8 w = if ltb w 128 then pos w else negsuc (255 - w)

-- A value stored in a field of one bit.
abbrev pub low_bit : ℤ → Bool
low_bit z = low_bits 1 z == 1

-- `if (z)`
abbrev pub nonzero : ℤ → Bool
nonzero (pos zero) = false
nonzero (pos (suc n)) = true
nonzero (negsuc n) = true

-- `a <= b`
abbrev pub leb_ℤ : ℤ → ℤ → Bool
leb_ℤ a b = not (ltb_ℤ b a)
