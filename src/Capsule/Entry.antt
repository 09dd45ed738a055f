-- ===== src/Capsule/Entry.antt =====
-- `bbp_v2_get_entry` of v2/bbp_v2.c.
pub mod Inside
pub mod Parsed
use bear_boot.Prelude.{
  ℕ, ◌+◌, ◌-◌, ◌*◌, Bool, ◌||◌, ltb, leb, ◌==◌, if◌then◌else◌, Option, none, some, ◌>>=◌,
}
use bear_boot.Memory.{Memory}
use bear_boot.Capsule.{
  CapsuleStatus, ok, err_null, err_count, err_extent, header_size, dirent_size, max_entries,
  max_extent, View, EntryView, get16, get32, get64, directory_entry,
}

-- The fields of the view leave the directory out of the capsule, or the capsule out of the limits.
unfoldable pub outside_extent : View → Bool
outside_extent view =
    ltb view.total_size header_size
    || (ltb max_extent view.total_size
        || (ltb view.directory_offset header_size
            || (ltb view.total_size view.directory_offset
                || ltb (view.total_size - view.directory_offset) (view.entry_count * dirent_size))))

-- The fields of the entry at the address `entry`.
unfoldable pub read_view : Memory → ℕ → ℕ → Option EntryView
read_view m base entry = do
  offset ← get64 m (entry + 16)
  size ← get64 m (entry + 24)
  kind ← get64 m entry
  flags ← get32 m (entry + 8)
  version ← get16 m (entry + 12)
  checksum ← get64 m (entry + 32)
  alignment ← get32 m (entry + 40)
  some (record {
    kind = kind;
    flags = flags;
    version = version;
    alignment = alignment;
    offset = offset;
    size = size;
    checksum = checksum;
    base = base + offset;
  })

-- The status, and what `*out` holds at the return. A view of the address 0 is one of no data.
unfoldable pub get_entry :
    Memory → Option View → ℕ → Option EntryView → Option (CapsuleStatus × Option EntryView)
get_entry m none index out = some (err_null, out)
get_entry m (some view) index none = some (err_null, none)
get_entry m (some view) index (some before) =
    if view.base == 0
    then some (err_null, some before)
    else if ltb max_entries view.entry_count || leb view.entry_count index
    then some (err_count, some before)
    else if outside_extent view
    then some (err_extent, some before)
    else do
      candidate ← read_view m view.base (directory_entry view.base view.directory_offset index)
      (if ltb view.total_size candidate.offset
            || ltb (view.total_size - candidate.offset) candidate.size
          then some (err_extent, some before)
          else some (ok, some candidate))
