-- ===== src/Capsule/Parse.antt =====
-- `bbp_v2_parse` of v2/bbp_v2.c.
pub mod Entries
pub mod Payloads
pub mod Padding
pub mod Header
pub mod Body
pub mod Sound
use bear_boot.Prelude.{
  ℕ, zero, suc, ◌+◌, ◌-◌, ◌*◌, Bool, true, false, ◌&&◌, ◌||◌, not, ltb, leb, ◌==◌, ◌!=◌,
  if◌then◌else◌, bit_and, Option, none, some, ◌>>=◌,
}
use bear_boot.Memory.{Memory, load_bytes}
use bear_boot.Crc.{crc64}
use bear_boot.Capsule.{
  CapsuleStatus, ok, err_null, err_magic, err_version, err_format, err_extent, err_overflow,
  err_count, err_alignment, err_overlap, err_padding, err_crc, err_work, proceed, version_major,
  version_minor, magic, header_size, dirent_size, max_entries, max_alignment, max_extent,
  max_crc_work, View, get16, get32, get64, bytes_equal, bytes_are_zero, power_of_two, span_overlaps,
  directory_entry, crc_with_zero_checksum,
}

-- The fields of `struct bbp_v2_header` behind the magic.
pub record HeaderFields : Type 0 where
  pub major : ℕ
  pub minor : ℕ
  pub size : ℕ
  pub entry_size : ℕ
  pub flags : ℕ
  pub entry_count : ℕ
  pub total_size : ℕ
  pub directory_offset : ℕ
  pub reserved0 : ℕ
  pub reserved1 : ℕ

-- The fields of `struct bbp_v2_directory_entry` that the parser reads.
pub record EntryFields : Type 0 where
  pub reserved0 : ℕ
  pub offset : ℕ
  pub size : ℕ
  pub checksum : ℕ
  pub alignment : ℕ
  pub reserved1 : ℕ

unfoldable pub read_header : Memory → ℕ → Option HeaderFields
read_header m capsule = do
  major ← get16 m (capsule + 8)
  minor ← get16 m (capsule + 10)
  size ← get16 m (capsule + 12)
  entry_size ← get16 m (capsule + 14)
  flags ← get32 m (capsule + 16)
  entry_count ← get32 m (capsule + 20)
  total_size ← get64 m (capsule + 24)
  directory_offset ← get64 m (capsule + 32)
  reserved0 ← get64 m (capsule + 48)
  reserved1 ← get64 m (capsule + 56)
  some (record {
    major = major;
    minor = minor;
    size = size;
    entry_size = entry_size;
    flags = flags;
    entry_count = entry_count;
    total_size = total_size;
    directory_offset = directory_offset;
    reserved0 = reserved0;
    reserved1 = reserved1;
  })

unfoldable pub read_entry : Memory → ℕ → Option EntryFields
read_entry m entry = do
  reserved0 ← get16 m (entry + 14)
  offset ← get64 m (entry + 16)
  size ← get64 m (entry + 24)
  checksum ← get64 m (entry + 32)
  alignment ← get32 m (entry + 40)
  reserved1 ← get32 m (entry + 44)
  some (record {
    reserved0 = reserved0;
    offset = offset;
    size = size;
    checksum = checksum;
    alignment = alignment;
    reserved1 = reserved1;
  })

-- The checks on the header's fields, in the order of the source.
unfoldable pub check_header : HeaderFields → ℕ → CapsuleStatus
check_header h extent =
    if (h.major != version_major) || (h.minor != version_minor)
    then err_version
    else if (h.size != header_size)
        || ((h.entry_size != dirent_size)
            || ((h.flags != 0) || ((h.reserved0 != 0) || (h.reserved1 != 0))))
    then err_format
    else if (h.total_size != extent) || ltb max_extent h.total_size
    then err_extent
    else if ltb max_entries h.entry_count
    then err_count
    else if bit_and h.directory_offset 7 != 0
    then err_alignment
    else if (h.entry_count == 0)
        && ((h.directory_offset != header_size) || (h.total_size != header_size))
    then err_format
    else let directory_size = h.entry_count * dirent_size in
      if ltb h.directory_offset header_size
        || (ltb h.total_size h.directory_offset
            || ltb (h.total_size - h.directory_offset) directory_size)
      then err_overflow
      else ok

-- The checks on one entry against the header and the directory.
unfoldable pub check_entry : HeaderFields → EntryFields → CapsuleStatus
check_entry h e =
    if (e.reserved0 != 0) || (e.reserved1 != 0)
    then err_format
    else if not (power_of_two e.alignment)
        || (ltb max_alignment e.alignment || (bit_and e.offset (e.alignment - 1) != 0))
    then err_alignment
    else if e.size == 0
    then err_format
    else if ltb h.total_size e.offset || ltb (h.total_size - e.offset) e.size
    then err_overflow
    else if span_overlaps e.offset e.size 0 header_size
        || span_overlaps e.offset e.size h.directory_offset (h.entry_count * dirent_size)
    then err_overlap
    else ok

-- The loop over the prior entries, from the entry at the address `entry`.
unfoldable pub overlaps_prior : Memory → ℕ → ℕ → ℕ → ℕ → Option Bool
overlaps_prior m entry zero offset size = some false
overlaps_prior m entry (suc left) offset size = do
  prior_offset ← get64 m (entry + 16)
  prior_size ← get64 m (entry + 24)
  (let rest = overlaps_prior m (entry + dirent_size) left offset size in
      if span_overlaps offset size prior_offset prior_size then some true else rest)

-- The loop over the entries, of which `left` are left from `index` on.
unfoldable pub check_entries : Memory → ℕ → HeaderFields → ℕ → ℕ → ℕ → Option CapsuleStatus
check_entries m capsule h zero index crc_work = some ok
check_entries m capsule h (suc left) index crc_work = do
  e ← read_entry m (directory_entry capsule h.directory_offset index)
  proceed (check_entry h e)
      (do
        overlap ←
            overlaps_prior m (directory_entry capsule h.directory_offset 0) index e.offset e.size
        (let rest = check_entries m capsule h left (index + 1) (crc_work + e.size) in
            if overlap
            then some err_overlap
            else if ltb (max_crc_work - crc_work) e.size
            then some err_work
            else rest))
      some

-- The best span of the directory's entries: the lowest start at or above the cursor, and its size.
unfoldable pub select_entry : Memory → ℕ → ℕ → ℕ → ℕ × ℕ → Option (ℕ × ℕ)
select_entry m entry zero cursor best = some best
select_entry m entry (suc left) cursor best = do
  start ← get64 m (entry + 16)
  best' ←
      (if leb cursor start && ltb start best.0
        then (do size ← get64 m (entry + 24); some (start, size))
        else some best)
  select_entry m (entry + dirent_size) left cursor best'

-- The header or the directory, if it is the best span so far.
unfoldable pub select_fixed : ℕ → ℕ → ℕ → ℕ → ℕ × ℕ
select_fixed extent directory_offset entry_count cursor =
    let best = if cursor == 0 then (0, header_size) else (extent, 0) in
    if (entry_count != 0) && (leb cursor directory_offset && ltb directory_offset best.0)
    then (directory_offset, entry_count * dirent_size)
    else best

-- The loop of `validate_padding`, with `left` of its steps left; the cursor is the second result.
unfoldable pub walk_padding : Memory → ℕ → ℕ → ℕ → ℕ → ℕ → ℕ → Option (CapsuleStatus × ℕ)
walk_padding m capsule extent directory_offset entry_count zero cursor = some (ok, cursor)
walk_padding m capsule extent directory_offset entry_count (suc left) cursor = do
  best ←
      select_entry m (directory_entry capsule directory_offset 0) entry_count cursor
        (select_fixed extent directory_offset entry_count cursor)
  (if best.1 == 0 then some (err_format, cursor) else (do
    clear ←
        (if ltb cursor best.0
          then bytes_are_zero m (capsule + cursor) (best.0 - cursor)
          else some true)
    (if not clear
        then some (err_padding, cursor)
        else walk_padding m capsule extent directory_offset entry_count left (best.0 + best.1))))

unfoldable pub validate_padding : Memory → ℕ → ℕ → ℕ → ℕ → Option CapsuleStatus
validate_padding m capsule extent directory_offset entry_count = do
  let span_count = entry_count + 1 + (if entry_count != 0 then 1 else 0)
  (status, cursor) ← walk_padding m capsule extent directory_offset entry_count span_count 0
  proceed status
      (do
        clear ←
            (if ltb cursor extent
              then bytes_are_zero m (capsule + cursor) (extent - cursor)
              else some true)
        (if not clear then some err_padding else some ok))
      some

-- The loop over the checksums of the payloads.
unfoldable pub check_payloads : Memory → ℕ → ℕ → ℕ → ℕ → Option CapsuleStatus
check_payloads m capsule directory_offset zero index = some ok
check_payloads m capsule directory_offset (suc left) index = do
  e ← read_entry m (directory_entry capsule directory_offset index)
  bytes ← load_bytes m (capsule + e.offset) e.size
  (if crc64 bytes != e.checksum
      then some err_crc
      else check_payloads m capsule directory_offset left (index + 1))

-- The checks behind the header's.
unfoldable pub check_body : Memory → ℕ → ℕ → HeaderFields → Option CapsuleStatus
check_body m capsule extent h = do
  spans ← check_entries m capsule h h.entry_count 0 h.total_size
  proceed spans
      (do
        padding ← validate_padding m capsule extent h.directory_offset h.entry_count
        proceed padding
            (do
              got ← crc_with_zero_checksum m capsule extent
              want ← get64 m (capsule + 40)
              (if got != want
                  then some err_crc
                  else check_payloads m capsule h.directory_offset h.entry_count 0))
            some)
      some

abbrev pub view_of : ℕ → ℕ → HeaderFields → View
view_of capsule extent h = record {
  base = capsule;
  total_size = extent;
  directory_offset = h.directory_offset;
  flags = h.flags;
  entry_count = h.entry_count;
}

-- `bbp_v2_parse`: the status, and what `*out` holds at the return; `none` for `out` is NULL.
unfoldable pub parse : Memory → ℕ → ℕ → Option View → Option (CapsuleStatus × Option View)
parse m capsule extent none = some (err_null, none)
parse m capsule extent (some before) =
    if capsule == 0
    then some (err_null, some before)
    else if ltb extent header_size || ltb max_extent extent
    then some (err_extent, some before)
    else do
      known ← bytes_equal m capsule magic
      (if not known then some (err_magic, some before) else (do
        h ← read_header m capsule
        proceed (check_header h extent)
            (do
              body ← check_body m capsule extent h
              proceed body (some (ok, some (view_of capsule extent h)))
                  (λ bad. some (bad, some before)))
            (λ bad. some (bad, some before))))
