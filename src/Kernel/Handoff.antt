-- ===== src/Kernel/Handoff.antt =====
-- Validation of the hand-off in kernel/bbp_kernel.c.
pub mod Checks
pub mod Init
use bear_boot.Prelude.{
  ℕ, ◌+◌, ◌-◌, Bool, true, ◌&&◌, ◌||◌, not, ltb, leb, ◌==◌, ◌!=◌, if◌then◌else◌, Option, none, some,
  ◌>>=◌,
}
use bear_boot.Memory.{Memory, load_bytes}
use bear_boot.Crc.{crc64}
use bear_boot.Wire
use bear_boot.Wire.{header_magic, info_magic, version_major, tag_hhdm_id}
use bear_boot.Kernel.Region.{Kctx, max_phys, address_region_ok, phys_to_virt}
use bear_boot.Kernel.Seal.{memcmp, crc_skip}
use bear_boot.Kernel.Walk.{find_tag}

-- `bbp_status_t`.
pub data Status : Type 0 where
  ok err_null err_magic err_version err_size err_checksum err_tag_checksum : Status

unfoldable pub verify_header : Memory → ℕ → Option Status
verify_header m hdr = if hdr == 0 then some err_null else do
  differ ← memcmp m hdr header_magic
  (if differ != 0 then some err_magic else do
    major ← Wire.Header.major m hdr
    (if major != version_major then some err_version else do
      size ← Wire.Header.header_size m hdr
      (if size != Wire.Header.size then some err_size else do
        got ← crc_skip m hdr Wire.Header.size Wire.Header.checksum_offset
        checksum ← Wire.Header.checksum m hdr
        (if got != checksum then some err_checksum else some ok))))

abbrev pub max_blob : ℕ
max_blob = 67108864

-- `bbp_verify_blob`; `none` for `k` is a NULL pointer.
unfoldable pub verify_blob : Memory → Option Kctx → ℕ → ℕ → ℕ → Bool → Option Status
verify_blob m none phys len expected_crc allow_unchecked = some err_null
verify_blob m (some k) phys len expected_crc allow_unchecked =
    if (phys == 0) || (len == 0)
    then some err_null
    else if ltb max_blob len
    then some err_size
    else if not (address_region_ok k phys len)
    then some err_size
    else if expected_crc == 0
    then some (if allow_unchecked then ok else err_tag_checksum)
    else do
      bytes ← load_bytes m (phys_to_virt k phys) len
      some (if crc64 bytes == expected_crc then ok else err_tag_checksum)

abbrev pub max_info_size : ℕ
max_info_size = 67108864

-- The context that `bbp_init_win` writes before any check.
abbrev pub fresh_context : ℕ → ℕ → ℕ → ℕ → Kctx
fresh_context info hhdm_hint walk_lo walk_hi = record {
  info = info;
  hhdm_offset = hhdm_hint;
  verify_tag_crc = true;
  walk_lo = walk_lo;
  walk_hi = walk_hi;
}

-- The last step of `bbp_init_win`: the HHDM tag supplies the offset when the caller gave no hint.
unfoldable pub adopt_hhdm : Memory → Kctx → ℕ → Option Kctx
adopt_hhdm m out hhdm_hint = do
  t ← find_tag m out tag_hhdm_id
  (if (hhdm_hint == 0) && (t != 0)
      then (do
        size ← Wire.Tag.tag_size m t
        (if leb Wire.Tag.hhdm_size size
            then (do offset ← Wire.Tag.hhdm_offset m t; some (record out { hhdm_offset = offset }))
            else some out))
      else some out)

-- `bbp_init_win`: the status, and what `*out` holds at the return. `none` for `out` is NULL.
unfoldable pub init_win : Memory → Option Kctx → ℕ → ℕ → ℕ → ℕ → Option (Status × Option Kctx)
init_win m none info hhdm_hint walk_lo walk_hi = some (err_null, none)
init_win m (some before) info hhdm_hint walk_lo walk_hi =
    if info == 0 then some (err_null, some before) else do
      let out = fresh_context info hhdm_hint walk_lo walk_hi
      differ ← memcmp m info info_magic
      (if differ != 0 then some (err_magic, some out) else do
        major ← Wire.Info.major m info
        (if major != version_major then some (err_version, some out) else do
          size ← Wire.Info.info_size m info
          (if ltb size Wire.Info.size || ltb max_info_size size
              then some (err_size, some out)
              else do
                want ← Wire.Info.checksum m info
                got ← crc_skip m info Wire.Info.size Wire.Info.checksum_offset
                (if want != got
                    then some (err_checksum, some out)
                    else do final ← adopt_hhdm m out hhdm_hint; some (ok, some final)))))

unfoldable pub init_ex : Memory → Option Kctx → ℕ → ℕ → Option (Status × Option Kctx)
init_ex m out info hhdm_hint = init_win m out info hhdm_hint 0 0

unfoldable pub init : Memory → Option Kctx → ℕ → Option (Status × Option Kctx)
init m out info = init_ex m out info 0

-- What `*out` holds after `bbp_init_bounded`: the candidate, if its status is BBP_OK.
abbrev pub publish : Status → Option Kctx → Kctx → Option Kctx
publish ok candidate before = candidate
publish err_null candidate before = some before
publish err_magic candidate before = some before
publish err_version candidate before = some before
publish err_size candidate before = some before
publish err_checksum candidate before = some before
publish err_tag_checksum candidate before = some before

-- `bbp_init_bounded`: a local candidate is initialised, and copied out only on success. The value
-- of the uninitialised candidate is `scratch`.
unfoldable pub init_bounded :
    Memory → Kctx → Option Kctx → ℕ → ℕ → ℕ → ℕ → Option (Status × Option Kctx)
init_bounded m scratch none info hhdm_hint arena_phys arena_bytes = some (err_null, none)
init_bounded m scratch (some before) info hhdm_hint arena_phys arena_bytes =
    if info == 0
    then some (err_null, some before)
    else if (arena_phys == 0) || (arena_bytes == 0)
    then some (err_size, some before)
    else if ltb max_phys arena_bytes
    then some (err_size, some before)
    else if ltb (max_phys - arena_bytes) arena_phys
    then some (err_size, some before)
    else do
      (st, candidate) ←
          init_win m (some scratch) info hhdm_hint arena_phys (arena_phys + arena_bytes)
      some (st, publish st candidate before)

unfoldable pub set_walk_window : Option Kctx → ℕ → ℕ → Status × Option Kctx
set_walk_window none lo hi = (err_null, none)
set_walk_window (some k) lo hi = (ok, some (record k { walk_lo = lo; walk_hi = hi }))
