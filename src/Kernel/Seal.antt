-- ===== src/Kernel/Seal.antt =====
-- The comparison and the checksum of kernel/bbp_kernel.c over a structure in memory.
pub mod Detect
pub mod Laws
use bear_boot.Prelude.{
  ℕ, ◌+◌, ◌-◌, ◌%◌, ◌^◌, ◌!=◌, ltb, if◌then◌else◌, Option, some, List, [], ◌∷◌, ◌>>=◌,
}
use bear_boot.Memory.{Memory, load_bytes}
use bear_boot.Crc.{crc64_init, crc64_update, crc64_final}

-- `bbp_memcmp` of memory against a constant array. The result is the bit pattern of the `int`.
unfoldable pub memcmp : Memory → ℕ → List ℕ → Option ℕ
memcmp m a [] = some 0
memcmp m a (y ∷ ys) = do
  x ← m a
  (let rest = memcmp m (a + 1) ys in if x != y then some ((x + 2 ^ 32 - y) % 2 ^ 32) else rest)

abbrev pub zeros : List ℕ
zeros = 0 ∷ 0 ∷ 0 ∷ 0 ∷ 0 ∷ 0 ∷ 0 ∷ 0 ∷ []

-- `bbp_crc_skip`: the checksum of `[base, base + len)` with the eight bytes at `off` taken as zero.
unfoldable pub crc_skip : Memory → ℕ → ℕ → ℕ → Option ℕ
crc_skip m base len off = if ltb len (off + 8) then some (2 ^ 64 - 1) else do
  head ← load_bytes m base off
  tail ← load_bytes m (base + off + 8) (len - off - 8)
  some (crc64_final (crc64_update (crc64_update (crc64_update crc64_init head) zeros) tail))
