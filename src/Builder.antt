-- ===== src/Builder.antt =====
-- bootloader/bbp_build.c: the producer of the hand-off. A function that changes the builder or the
-- memory returns both; `none` for a pointer to a builder is NULL.
pub mod Arena
pub mod Bump
pub mod Layout
pub mod Stamp
pub mod Alloc
pub mod Sealing
pub mod Info
pub mod Handover
use bear_boot.Prelude.{
  ℕ, zero, suc, ◌+◌, ◌-◌, ◌%◌, ◌^◌, Bool, true, false, ◌&&◌, ◌||◌, not, ltb, leb, ◌==◌, ◌!=◌,
  if◌then◌else◌, bit_and, Option, none, some, List, [], ◌∷◌, replicate, length, ◌>>=◌,
}
use bear_boot.Memory.{Memory, load, load_bytes, store, store_bytes}
use bear_boot.Crc.{crc64_init, crc64_update, crc64_final}
use bear_boot.Wire.Tag
use bear_boot.Wire.Header
use bear_boot.Wire.{info_magic, version_major, version_minor}

-- `struct bbp_builder`. The pointers `arena` and `last` are addresses.
pub record Builder : Type 0 where
  pub arena : ℕ
  pub arena_phys : ℕ
  pub capacity : ℕ
  pub used : ℕ
  pub last : ℕ
  pub first_phys : ℕ
  pub tag_count : ℕ
  pub overflow : Bool

abbrev pub max_tag : ℕ
max_tag = 16777216

abbrev pub max_info : ℕ
max_info = 67108864

abbrev pub max_phys : ℕ
max_phys = 2 ^ 48

abbrev pub max_tags : ℕ
max_tags = 1024

abbrev pub size_max : ℕ
size_max = 2 ^ 64 - 1

abbrev pub u32_max : ℕ
u32_max = 2 ^ 32 - 1

abbrev pub zeros : List ℕ
zeros = 0 ∷ 0 ∷ 0 ∷ 0 ∷ 0 ∷ 0 ∷ 0 ∷ 0 ∷ []

-- The builder's `bbp_crc_skip`, with the wrap of `len - off - 8`.
unfoldable pub crc_skip : Memory → ℕ → ℕ → ℕ → Option ℕ
crc_skip m base len off = do
  head ← load_bytes m base off
  tail ← load_bytes m (base + off + 8) ((len + 2 ^ 64 - off - 8) % 2 ^ 64)
  some (crc64_final (crc64_update (crc64_update (crc64_update crc64_init head) zeros) tail))

-- `bbp_builder_init`.
unfoldable pub init : Memory → Option Builder → ℕ → ℕ → ℕ → Option (Option Builder × Memory)
init m none arena arena_phys capacity = some (none, m)
init m (some b) arena arena_phys capacity = do
  let fresh : Builder = record {
    arena = arena;
    arena_phys = arena_phys;
    capacity = capacity;
    used = 0;
    last = 0;
    first_phys = 0;
    tag_count = 0;
    overflow = false;
  }
  let absent = (arena == 0) && (capacity != 0)
  let misplaced =
      (arena != 0)
      && ((arena_phys == 0) || ((bit_and arena_phys 7 != 0) || leb max_phys arena_phys))
  m' ← (if arena == 0 then some m else store_bytes m arena (replicate capacity 0))
  some (some (record fresh { overflow = absent || misplaced }), m')

-- `b->overflow = 1`.
abbrev pub overflowed : Builder → Builder
overflowed b = record b { overflow = true }

-- `arena_bump` on a builder that its callers have found not to be NULL: the virtual and the
-- physical address, or `none` for NULL.
unfoldable pub arena_bump : Builder → ℕ → Option (ℕ × ℕ) × Builder
arena_bump b len =
    if (b.arena == 0) || (b.overflow || ltb (size_max - 7) b.used)
    then (none, overflowed b)
    else let start = bit_and (b.used + 7) (2 ^ 64 - 8) in
      if ltb b.capacity start || ltb (b.capacity - start) len
      then (none, overflowed b)
      else if ltb max_phys b.arena_phys || ltb (max_phys - b.arena_phys) start
      then (none, overflowed b)
      else let phys = b.arena_phys + start in
        if ltb (max_phys - phys) len
        then (none, overflowed b)
        else (some (b.arena + start, phys), record b { used = start + len })

-- The stores of `bbp_alloc_tag` into the fresh tag.
unfoldable pub stamp : Memory → ℕ → ℕ → ℕ → ℕ → Option Memory
stamp m tag tag_id tag_version total_size = do
  m ← store m tag 8 tag_id
  m ← store m (tag + 8) 4 total_size
  m ← store m (tag + 12) 2 tag_version
  m ← store m (tag + 14) 2 0
  m ← store m (tag + 16) 8 0
  store m (tag + 24) 8 0

-- `if (b->last) b->last->next_tag = phys; else b->first_phys = phys;`.
unfoldable pub chain : Memory → Builder → ℕ → Option (Memory × Builder)
chain m b phys =
    if b.last != 0
    then (do m' ← store m (b.last + 16) 8 phys; some (m', b))
    else some (m, record b { first_phys = phys })

-- `bbp_alloc_tag` after the bump.
unfoldable pub place_tag :
    Memory → ℕ → ℕ → ℕ → Option (ℕ × ℕ) × Builder → Option (ℕ × Option Builder × Memory)
place_tag m tag_id tag_version total_size (none, b') = some (0, some b', m)
place_tag m tag_id tag_version total_size (some (tag, phys), b') = do
  m' ← stamp m tag tag_id tag_version total_size
  (m'', b'') ← chain m' b' phys
  some (tag, some (record b'' { last = tag; tag_count = b''.tag_count + 1 }), m'')

-- `bbp_alloc_tag`; the result is the tag's address, 0 for NULL.
unfoldable pub alloc_tag :
    Memory → Option Builder → ℕ → ℕ → ℕ → Option (ℕ × Option Builder × Memory)
alloc_tag m none tag_id tag_version total_size = some (0, none, m)
alloc_tag m (some b) tag_id tag_version total_size =
    if ltb total_size 32
      || (ltb max_tag total_size || (ltb u32_max total_size || leb max_tags b.tag_count))
    then some (0, some (overflowed b), m)
    else place_tag m tag_id tag_version total_size (arena_bump b total_size)

-- `bbp_seal_tag`.
unfoldable pub seal_tag : Memory → ℕ → Option Memory
seal_tag m tag = do
  size ← Tag.tag_size m tag
  sum ← crc_skip m tag size Tag.checksum_offset
  store m (tag + 24) 8 sum

-- `builder_phys_to_virt`.
unfoldable pub phys_to_virt : Builder → ℕ → ℕ
phys_to_virt b p = b.arena + (p + 2 ^ 64 - b.arena_phys) % 2 ^ 64

-- The loop of `bbp_builder_finalize` that seals every tag, with at most `fuel` rounds; running out
-- of them is `none`.
unfoldable pub seal_all : ℕ → Memory → Builder → ℕ → Option Memory
seal_all zero m b cur = none
seal_all (suc fuel) m b cur = if cur == 0 then some m else do
  let h = phys_to_virt b cur
  m' ← seal_tag m h
  next ← Tag.next_tag m' h
  seal_all fuel m' b next

-- The stores of `bbp_builder_finalize` into INFO.
unfoldable pub fill_info : Memory → Builder → ℕ → Option Memory
fill_info m b info = do
  m ← store m (info + 16) 2 version_major
  m ← store m (info + 18) 2 version_minor
  m ← store_bytes m info info_magic
  m ← store m (info + 116) 4 b.tag_count
  m ← store m (info + 120) 8 b.first_phys
  m ← store m (info + 20) 4 ((144 + b.used) % 2 ^ 32)
  m ← store m (info + 136) 8 0
  sum ← crc_skip m info 144 136
  store m (info + 136) 8 sum

-- `bbp_builder_finalize`: the address to hand over, 0 for failure.
unfoldable pub finalize : Memory → Option Builder → ℕ → ℕ → Option (ℕ × Option Builder × Memory)
finalize m none info info_phys = some (0, none, m)
finalize m (some b) info info_phys =
    if info == 0
    then some (0, some b, m)
    else if b.overflow
        || (ltb max_tags b.tag_count || (ltb b.capacity b.used || ltb (max_info - 144) b.used))
    then some (0, some (overflowed b), m)
    else do
      m' ← seal_all 1025 m b b.first_phys
      m'' ← fill_info m' b info
      some (info_phys, some b, m'')

-- `bbp_header_crc`.
unfoldable pub header_crc : Memory → ℕ → Option ℕ
header_crc m hdr = crc_skip m hdr Header.size Header.checksum_offset
