-- ===== src/Crc.antt =====
-- include/bbp/bbp_crc64.h: the bitwise CRC-64/XZ.
pub mod Detect
pub mod Round
use bear_boot.Prelude.{ℕ, zero, suc, ◌-◌, ◌/◌, ◌%◌, ◌^◌, bit_and, bit_xor, List, [], ◌∷◌}

abbrev pub crc64_poly_reflected : ℕ
crc64_poly_reflected = 0xC96C5795D7870F42

abbrev pub crc64_init_value : ℕ
crc64_init_value = 0xFFFFFFFFFFFFFFFF

unfoldable pub crc64_init : ℕ
crc64_init = crc64_init_value

-- One pass of the inner loop: the mask is all ones when the low bit is set, and zero otherwise.
unfoldable pub crc64_bit : ℕ → ℕ
crc64_bit crc =
    let mask = (2 ^ 64 - bit_and crc 1) % 2 ^ 64 in
    bit_xor (crc / 2) (bit_and crc64_poly_reflected mask)

-- `n` passes of the inner loop.
unfoldable pub crc64_bits : ℕ → ℕ → ℕ
crc64_bits zero crc = crc
crc64_bits (suc n) crc = crc64_bits n (crc64_bit crc)

-- The outer loop, over the bytes that `data` and `len` delimit.
unfoldable pub crc64_update : ℕ → List ℕ → ℕ
crc64_update crc [] = crc
crc64_update crc (p ∷ rest) = crc64_update (crc64_bits 8 (bit_xor crc p)) rest

unfoldable pub crc64_final : ℕ → ℕ
crc64_final crc = bit_xor crc 0xFFFFFFFFFFFFFFFF

unfoldable pub crc64 : List ℕ → ℕ
crc64 bytes = crc64_final (crc64_update crc64_init bytes)
