-- ===== src/Capsule/Build.antt =====
-- `bbp_v2_build` of v2/bbp_v2.c. Each use of `entries[i]` reads the array in the memory of that
-- moment. The copy of a payload reads all its bytes before it writes them.
pub mod Plan
pub mod Entry
pub mod Emit
pub mod Header
pub mod Seal
pub mod Built
use bear_boot.Prelude.{
  ℕ, zero, suc, ◌+◌, ◌-◌, ◌*◌, ◌^◌, Bool, true, false, ◌&&◌, ◌||◌, not, ltb, ◌==◌, ◌!=◌,
  if◌then◌else◌, bit_and, Option, none, some, List, [], ◌∷◌, ◌>>=◌,
}
use bear_boot.Memory.{Memory, load_bytes, store_bytes, store}
use bear_boot.Memory.Fields.{Field, constant, put_fields}
use bear_boot.Crc.{crc64}
use bear_boot.Capsule.{
  get16, get32, get64, CapsuleStatus, ok, err_null, err_extent, err_overflow, err_count,
  err_alignment, err_work, err_capacity, err_source, proceed, version_major, version_minor, magic,
  header_size, dirent_size, max_entries, max_alignment, max_extent, max_crc_work, power_of_two,
  crc_with_zero_checksum,
}

-- `struct bbp_v2_build_entry`; `data` of the source is `base` here.
pub record BuildEntry : Type 0 where
  pub kind : ℕ
  pub flags : ℕ
  pub version : ℕ
  pub alignment : ℕ
  pub base : ℕ
  pub size : ℕ

abbrev pub size_max : ℕ
size_max = 2 ^ 64 - 1

-- The new value of `*out`; `none` where the function gives 0.
unfoldable pub align_up : ℕ → ℕ → Option ℕ
align_up value alignment =
    let mask = alignment - 1 in
    if ltb (size_max - mask) value then none else some (bit_and (value + mask) (size_max - mask))

unfoldable pub memory_ranges_overlap : ℕ → ℕ → ℕ → ℕ → Bool
memory_ranges_overlap a a_size b b_size =
    if ltb (size_max - a) a_size || ltb (size_max - b) b_size
    then true
    else ltb a (b + b_size) && ltb b (a + a_size)

abbrev pub build_entry_size : ℕ
build_entry_size = 40

-- `entries[index]` in the layout of a 64-bit target, as the memory holds it now.
unfoldable pub read_build_entry : Memory → ℕ → ℕ → Option BuildEntry
read_build_entry m entries index = do
  kind ← get64 m (entries + index * build_entry_size)
  flags ← get32 m (entries + index * build_entry_size + 8)
  version ← get16 m (entries + index * build_entry_size + 12)
  alignment ← get32 m (entries + index * build_entry_size + 16)
  base ← get64 m (entries + index * build_entry_size + 24)
  size ← get64 m (entries + index * build_entry_size + 32)
  some (record {
    kind = kind;
    flags = flags;
    version = version;
    alignment = alignment;
    base = base;
    size = size;
  })

-- The loop that checks the entries: its status, the cursor and the work behind it.
unfoldable pub plan : Memory → ℕ → ℕ → ℕ → ℕ → ℕ → Option (CapsuleStatus × ℕ × ℕ)
plan m entries zero index cursor payload_work = some (ok, cursor, payload_work)
plan m entries (suc left) index cursor payload_work = do
  e ← read_build_entry m entries index
  (if (e.base == 0) || (e.size == 0)
      then some (err_null, cursor, payload_work)
      else if not (power_of_two e.alignment) || ltb max_alignment e.alignment
      then some (err_alignment, cursor, payload_work)
      else elim (align_up cursor e.alignment) [
        | none ↦ some (err_overflow, cursor, payload_work)
        | some start ↦
            if ltb (size_max - start) e.size
            then some (err_overflow, start, payload_work)
            else if ltb (max_crc_work - payload_work) e.size
            then some (err_work, start + e.size, payload_work)
            else if ltb max_extent (start + e.size)
            then some (err_extent, start + e.size, payload_work + e.size)
            else plan m entries left (index + 1) (start + e.size) (payload_work + e.size)
      ])

-- The loop that compares the output with the sources.
unfoldable pub source_overlaps : Memory → ℕ → ℕ → ℕ → ℕ → ℕ → Option Bool
source_overlaps m entries zero index output total = some false
source_overlaps m entries (suc left) index output total = do
  e ← read_build_entry m entries index
  (let rest = source_overlaps m entries left (index + 1) output total in
      if memory_ranges_overlap output total e.base e.size then some true else rest)

unfoldable pub zero_bytes : ℕ → List ℕ
zero_bytes zero = []
zero_bytes (suc size) = 0 ∷ zero_bytes size

unfoldable pub header_fields : ℕ → ℕ → List Field
header_fields entry_count total =
    (8, 2, constant version_major)
    ∷ (10, 2, constant version_minor)
    ∷ (12, 2, constant header_size)
    ∷ (14, 2, constant dirent_size)
    ∷ (16, 4, constant 0)
    ∷ (20, 4, constant entry_count)
    ∷ (24, 8, constant total)
    ∷ (32, 8, constant header_size)
    ∷ []

-- The header behind the zeroed output.
unfoldable pub emit_header : Memory → ℕ → ℕ → ℕ → Option Memory
emit_header m0 output entry_count total = do
  m1 ← store_bytes m0 output (zero_bytes total)
  m2 ← store_bytes m1 output magic
  put_fields m2 output (header_fields entry_count total)

-- A field of `entries[index]`, read from the memory behind the writes so far.
unfoldable pub of_entry : ℕ → ℕ → (BuildEntry → ℕ) → Memory → Option ℕ
of_entry entries index field m = do e ← read_build_entry m entries index; some (field e)

unfoldable pub payload_crc : ℕ → ℕ → ℕ → ℕ → Memory → Option ℕ
payload_crc output entries index start m = do
  e ← read_build_entry m entries index
  written ← load_bytes m (output + start) e.size
  some (crc64 written)

-- The fields of the directory for one entry.
unfoldable pub entry_fields : ℕ → ℕ → ℕ → ℕ → List Field
entry_fields output entries index start =
    (0, 8, of_entry entries index (λ e. e.kind))
    ∷ (8, 4, of_entry entries index (λ e. e.flags))
    ∷ (12, 2, of_entry entries index (λ e. e.version))
    ∷ (16, 8, constant start)
    ∷ (24, 8, of_entry entries index (λ e. e.size))
    ∷ (32, 8, payload_crc output entries index start)
    ∷ (40, 4, of_entry entries index (λ e. e.alignment))
    ∷ []

-- One entry: its payload at `start`, and its place in the directory at `entry`.
unfoldable pub emit_entry : Memory → ℕ → ℕ → ℕ → ℕ → ℕ → Option Memory
emit_entry m0 output entries index entry start = do
  e ← read_build_entry m0 entries index
  payload ← load_bytes m0 e.base e.size
  m1 ← store_bytes m0 (output + start) payload
  put_fields m1 entry (entry_fields output entries index start)

-- The cursor behind the alignment, which stays as it is where that overflows.
unfoldable pub start_of : ℕ → ℕ → ℕ
start_of cursor alignment = elim (align_up cursor alignment) [ none ↦ cursor | some start ↦ start ]

-- The loop that writes the entries.
unfoldable pub emit : Memory → ℕ → ℕ → ℕ → ℕ → ℕ → Option Memory
emit m output entries zero index cursor = some m
emit m output entries (suc left) index cursor = do
  e ← read_build_entry m entries index
  m' ←
      emit_entry m output entries index (output + header_size + index * dirent_size)
        (start_of cursor e.alignment)
  e' ← read_build_entry m' entries index
  emit m' output entries left (index + 1) (start_of cursor e.alignment + e'.size)

unfoldable pub seal : Memory → ℕ → ℕ → Option Memory
seal m output total = do crc ← crc_with_zero_checksum m output total; store m (output + 40) 8 crc

abbrev pub data_start : ℕ → ℕ
data_start entry_count = header_size + entry_count * dirent_size

-- The writes: the header, the entries, and the checksum.
unfoldable pub write_capsule : Memory → ℕ → ℕ → ℕ → ℕ → Option Memory
write_capsule m output entries entry_count total = do
  m1 ← emit_header m output entry_count total
  m2 ← emit m1 output entries entry_count 0 (data_start entry_count)
  seal m2 output total

-- The body of `bbp_v2_build` behind the NULL checks.
unfoldable pub build_from : Memory → ℕ → ℕ → ℕ → ℕ → Option (CapsuleStatus × Memory × ℕ)
build_from m output capacity entries entry_count =
    if ltb max_entries entry_count then some (err_count, m, 0) else do
      (status, total, payload_work) ← plan m entries entry_count 0 (data_start entry_count) 0
      proceed status
          (if ltb (max_crc_work - payload_work) total
            then some (err_work, m, 0)
            else if ltb capacity total
            then some (err_capacity, m, 0)
            else (do
              overlap ← source_overlaps m entries entry_count 0 output total
              (if overlap then some (err_source, m, 0) else (do
                m' ← write_capsule m output entries entry_count total
                some (ok, m', total)))))
          (λ bad. some (bad, m, 0))

-- `bbp_v2_build`: the status, the memory, and what `*written` holds; `none` for a NULL `written`,
-- and the address 0 for the other NULL pointers.
unfoldable pub build :
    Memory → ℕ → ℕ → ℕ → ℕ → Option ℕ → Option (CapsuleStatus × Memory × Option ℕ)
build m output capacity entries entry_count none = some (err_null, m, none)
build m output capacity entries entry_count (some old) =
    if (output == 0) || ((entry_count != 0) && (entries == 0))
    then some (err_null, m, some 0)
    else do
      (status, m', written) ← build_from m output capacity entries entry_count
      some (status, m', some written)
