-- ===== src/Kernel/Region.antt =====
-- The guards of kernel/bbp_kernel.c on a physical address before it is dereferenced.
pub mod Bounds
use bear_boot.Prelude.{
  ℕ, ◌+◌, ◌-◌, ◌%◌, ◌^◌, Bool, true, false, ◌&&◌, not, ltb, leb, ◌==◌, ◌!=◌, if◌then◌else◌, bit_and,
}

-- `struct bbp_kctx`. The pointer `info` is an address, 0 for NULL; the other words are unsigned
-- 64-bit numbers.
pub record Kctx : Type 0 where
  pub info : ℕ
  pub hhdm_offset : ℕ
  pub verify_tag_crc : Bool
  pub walk_lo : ℕ
  pub walk_hi : ℕ

abbrev pub max_phys : ℕ
max_phys = 2 ^ 48

-- `(uintptr_t)-1`.
abbrev pub uintptr_max : ℕ
uintptr_max = 2 ^ 64 - 1

abbrev pub max_tag_size : ℕ
max_tag_size = 16777216

unfoldable pub phys_to_virt : Kctx → ℕ → ℕ
phys_to_virt k p = if p == 0 then 0 else (p + k.hhdm_offset) % 2 ^ 64

-- `bbp_tag_len_ok`, on the value of `tag->tag_size`.
unfoldable pub tag_len_ok : ℕ → Bool
tag_len_ok tag_size = leb 32 tag_size && leb tag_size max_tag_size

unfoldable pub tag_ptr_ok : ℕ → Bool
tag_ptr_ok p = (p != 0) && (bit_and p 7 == 0)

unfoldable pub address_region_ok : Kctx → ℕ → ℕ → Bool
address_region_ok k phys len =
    if phys == 0
    then false
    else if len == 0
    then false
    else if ltb max_phys len
    then false
    else if ltb (max_phys - len) phys
    then false
    else let base = phys in
      let off = k.hhdm_offset in
      if ltb (uintptr_max - off) base
      then false
      else let v = base + off in if ltb (uintptr_max - len) v then false else true

unfoldable pub tag_region_ok : Kctx → ℕ → ℕ → Bool
tag_region_ok k phys len =
    if not (address_region_ok k phys len)
    then false
    else if ltb k.walk_lo k.walk_hi
    then (if ltb phys k.walk_lo
        then false
        else if leb k.walk_hi phys
        then false
        else if ltb (k.walk_hi - phys) len
        then false
        else true)
    else true
