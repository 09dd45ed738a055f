-- ===== src/Capsule.antt =====
-- v2/bbp_v2.c and include/bbp/bbp_v2.h: the capsule of the version 2 wire format. This module has
-- its data, and the helpers that every function of it uses.
pub mod Status
pub mod Parse
pub mod Entry
pub mod Build
pub mod Digest
use bear_boot.Prelude.{
  ℕ, zero, suc, ◌+◌, ◌-◌, ◌*◌, ◌%◌, ◌^◌, Bool, true, false, ◌&&◌, not, ltb, ◌==◌, ◌!=◌,
  if◌then◌else◌, bit_and, Option, none, some, List, [], ◌∷◌, ◌>>=◌,
}
use bear_boot.Memory.{Memory, load, load_bytes}
use bear_boot.Crc.{crc64_init, crc64_update, crc64_final}

-- `bbp_v2_status_t`.
pub data CapsuleStatus : Type 0 where
  ok err_null err_magic err_version err_format err_extent err_overflow err_count err_alignment
        err_overlap err_padding err_crc err_work err_capacity err_policy err_source :
      CapsuleStatus

-- `if (status != BBP_V2_OK) return status;`: go on with `next`, or stop.
abbrev pub proceed : {A : Type 0} → CapsuleStatus → A → (CapsuleStatus → A) → A
proceed ok next stop = next
proceed err_null next stop = stop err_null
proceed err_magic next stop = stop err_magic
proceed err_version next stop = stop err_version
proceed err_format next stop = stop err_format
proceed err_extent next stop = stop err_extent
proceed err_overflow next stop = stop err_overflow
proceed err_count next stop = stop err_count
proceed err_alignment next stop = stop err_alignment
proceed err_overlap next stop = stop err_overlap
proceed err_padding next stop = stop err_padding
proceed err_crc next stop = stop err_crc
proceed err_work next stop = stop err_work
proceed err_capacity next stop = stop err_capacity
proceed err_policy next stop = stop err_policy
proceed err_source next stop = stop err_source

abbrev pub version_major : ℕ
version_major = 2

abbrev pub version_minor : ℕ
version_minor = 0

abbrev pub magic : List ℕ
magic = b'B' ∷ b'B' ∷ b'P' ∷ b'2' ∷ b'C' ∷ b'A' ∷ b'P' ∷ 0 ∷ []

abbrev pub header_size : ℕ
header_size = 64

abbrev pub dirent_size : ℕ
dirent_size = 48

abbrev pub max_entries : ℕ
max_entries = 1024

abbrev pub max_alignment : ℕ
max_alignment = 4096

abbrev pub max_extent : ℕ
max_extent = 64 * 1024 * 1024

abbrev pub max_crc_work : ℕ
max_crc_work = 96 * 1024 * 1024

-- `struct bbp_v2_view`; `data` of the source is `base` here.
pub record View : Type 0 where
  pub base : ℕ
  pub total_size : ℕ
  pub directory_offset : ℕ
  pub flags : ℕ
  pub entry_count : ℕ

-- `struct bbp_v2_entry_view`; `data` of the source is `base` here.
pub record EntryView : Type 0 where
  pub kind : ℕ
  pub flags : ℕ
  pub version : ℕ
  pub alignment : ℕ
  pub offset : ℕ
  pub size : ℕ
  pub checksum : ℕ
  pub base : ℕ

abbrev pub get16 : Memory → ℕ → Option ℕ
get16 m p = load m p 2

abbrev pub get32 : Memory → ℕ → Option ℕ
get32 m p = load m p 4

abbrev pub get64 : Memory → ℕ → Option ℕ
get64 m p = load m p 8

-- `bytes_equal` of memory and a constant array.
unfoldable pub bytes_equal : Memory → ℕ → List ℕ → Option Bool
bytes_equal m a [] = some true
bytes_equal m a (y ∷ ys) = do
  x ← m a
  (let rest = bytes_equal m (a + 1) ys in if x != y then some false else rest)

unfoldable pub bytes_are_zero : Memory → ℕ → ℕ → Option Bool
bytes_are_zero m p zero = some true
bytes_are_zero m p (suc size) = do
  x ← m p
  (let rest = bytes_are_zero m (p + 1) size in if x != 0 then some false else rest)

unfoldable pub power_of_two : ℕ → Bool
power_of_two value = (value != 0) && (bit_and value (value - 1) == 0)

-- Spans of 64-bit numbers; the sums wrap.
unfoldable pub span_overlaps : ℕ → ℕ → ℕ → ℕ → Bool
span_overlaps a as' b bs = ltb a ((b + bs) % 2 ^ 64) && ltb b ((a + as') % 2 ^ 64)

unfoldable pub directory_entry : ℕ → ℕ → ℕ → ℕ
directory_entry capsule directory_offset index = capsule + directory_offset + index * dirent_size

abbrev pub zeros : List ℕ
zeros = 0 ∷ 0 ∷ 0 ∷ 0 ∷ 0 ∷ 0 ∷ 0 ∷ 0 ∷ []

-- The checksum of the capsule with its checksum field taken as zero; `extent` is at least 64.
unfoldable pub crc_with_zero_checksum : Memory → ℕ → ℕ → Option ℕ
crc_with_zero_checksum m capsule extent = do
  head ← load_bytes m capsule 40
  tail ← load_bytes m (capsule + 48) (extent - 48)
  some (crc64_final (crc64_update (crc64_update (crc64_update crc64_init head) zeros) tail))
