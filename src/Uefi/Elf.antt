-- ===== src/Uefi/Elf.antt =====
-- bootloader/uefi/elf64_loader.c: the load planner of ELF64 images.
pub mod Segments
pub mod Admit
pub mod Image
use bear_boot.Prelude.{
  ℕ, zero, suc, ◌+◌, ◌-◌, ◌*◌, ◌/◌, ◌%◌, ◌^◌, Bool, true, false, ◌&&◌, ◌||◌, not, ltb, leb, ◌==◌,
  ◌!=◌, if◌then◌else◌, bit_and, bit_xor, Option, none, some, List, [], ◌∷◌, ◌++◌, length, ◌>>=◌,
}
use bear_boot.Memory.{Memory, load}

-- `bbp_elf64_status`.
pub data ElfStatus : Type 0 where
  ok err_argument err_truncated err_format err_program_headers err_segment_limit err_file_range
        err_memory_size err_overflow err_alignment err_address err_physical_limit err_page_overlap
        err_wx err_entry :
      ElfStatus

-- `if (status != OK) return status;`: go on with `next`, or stop.
abbrev pub proceed : {A : Type 0} → ElfStatus → A → (ElfStatus → A) → A
proceed ok next stop = next
proceed err_argument next stop = stop err_argument
proceed err_truncated next stop = stop err_truncated
proceed err_format next stop = stop err_format
proceed err_program_headers next stop = stop err_program_headers
proceed err_segment_limit next stop = stop err_segment_limit
proceed err_file_range next stop = stop err_file_range
proceed err_memory_size next stop = stop err_memory_size
proceed err_overflow next stop = stop err_overflow
proceed err_alignment next stop = stop err_alignment
proceed err_address next stop = stop err_address
proceed err_physical_limit next stop = stop err_physical_limit
proceed err_page_overlap next stop = stop err_page_overlap
proceed err_wx next stop = stop err_wx
proceed err_entry next stop = stop err_entry

abbrev pub header_size : ℕ
header_size = 64

abbrev pub program_header_size : ℕ
program_header_size = 56

abbrev pub max_program_headers : ℕ
max_program_headers = 32

abbrev pub max_load_segments : ℕ
max_load_segments = 16

abbrev pub page_size : ℕ
page_size = 4096

abbrev pub physical_limit : ℕ
physical_limit = 2 ^ 48

abbrev pub lower_canonical_end : ℕ
lower_canonical_end = 2 ^ 47

abbrev pub upper_canonical_start : ℕ
upper_canonical_start = 2 ^ 64 - 2 ^ 47

-- `struct bbp_elf64_segment_plan`.
pub record Segment : Type 0 where
  pub file_offset : ℕ
  pub file_size : ℕ
  pub memory_size : ℕ
  pub virtual_address : ℕ
  pub physical_address : ℕ
  pub page_base : ℕ
  pub page_count : ℕ
  pub alignment : ℕ
  pub flags : ℕ

-- `struct bbp_elf64_plan`, its segments in a list.
pub record Plan : Type 0 where
  pub entry : ℕ
  pub physical_base : ℕ
  pub physical_end : ℕ
  pub segments : List Segment

-- The candidate of `bbp_elf64_plan` with its two flags.
pub record Candidate : Type 0 where
  pub plan : Plan
  pub entry_covered : Bool
  pub have_envelope : Bool

-- The fields of a PT_LOAD program header.
pub record LoadHeader : Type 0 where
  pub flags : ℕ
  pub file_offset : ℕ
  pub virtual_address : ℕ
  pub physical_address : ℕ
  pub file_size : ℕ
  pub memory_size : ℕ
  pub alignment : ℕ

-- `add_u64`.
unfoldable pub add_u64 : ℕ → ℕ → Option ℕ
add_u64 left right = if ltb (2 ^ 64 - 1 - right) left then none else some (left + right)

unfoldable pub canonical_region : ℕ → ℕ
canonical_region address =
    if ltb address lower_canonical_end
    then 1
    else if leb upper_canonical_start address
    then 2
    else 0

-- `end - 1` of an address above `start` does not wrap.
unfoldable pub canonical_range : ℕ → ℕ → Bool
canonical_range start end =
    let start_region = canonical_region start in
    if start_region == 0
    then false
    else if start == end
    then true
    else canonical_region ((end + 2 ^ 64 - 1) % 2 ^ 64) == start_region

unfoldable pub power_of_two : ℕ → Bool
power_of_two value = (value != 0) && (bit_and value (value - 1) == 0)

unfoldable pub ranges_overlap : ℕ → ℕ → ℕ → ℕ → Bool
ranges_overlap first_start first_end second_start second_end =
    ltb first_start second_end && ltb second_start first_end

-- The checks of one PT_LOAD header, up to its place in the plan; the ends of its three ranges are
-- at hand.
unfoldable pub check_alignment : LoadHeader → Bool
check_alignment h =
    if not (ltb 1 h.alignment)
    then true
    else let mask = h.alignment - 1 in
      power_of_two h.alignment
      && ((bit_and h.file_offset mask == bit_and h.virtual_address mask)
          && (bit_and h.file_offset mask == bit_and h.physical_address mask))

unfoldable pub check_ranges : ℕ → LoadHeader → ℕ → ℕ → ℕ → ElfStatus
check_ranges image_size h file_end virtual_end physical_end =
    if bit_and (bit_xor h.virtual_address h.physical_address) (page_size - 1) != 0
    then err_alignment
    else if ltb image_size file_end
    then err_file_range
    else if not (canonical_range h.virtual_address virtual_end)
    then err_address
    else if leb physical_limit h.physical_address || ltb physical_limit physical_end
    then err_physical_limit
    else ok

-- `page_base` and `page_end`.
unfoldable pub page_base_of : ℕ → ℕ
page_base_of address = bit_and address (2 ^ 64 - page_size)

unfoldable pub page_end_of : LoadHeader → ℕ → ℕ
page_end_of h physical_end =
    if h.memory_size == 0
    then page_base_of h.physical_address
    else bit_and ((physical_end + page_size - 1) % 2 ^ 64) (2 ^ 64 - page_size)

-- The loop over the previous segments.
unfoldable pub overlaps_previous : ℕ → ℕ → List Segment → Bool
overlaps_previous page_base page_end [] = false
overlaps_previous page_base page_end (other ∷ rest) =
    let other_end = (other.page_base + other.page_count * page_size) % 2 ^ 64 in
    ((other.page_count != 0) && ranges_overlap page_base page_end other.page_base other_end)
    || overlaps_previous page_base page_end rest

-- The segment's place in the plan.
unfoldable pub place : Candidate → LoadHeader → ℕ → ℕ → ℕ → ElfStatus × Candidate
place c h virtual_end page_base page_end =
    let page_count = (page_end + 2 ^ 64 - page_base) % 2 ^ 64 / page_size in
    let paged = page_count != 0 in
    let covers =
      (bit_and h.flags 1 != 0)
      && (leb h.virtual_address c.plan.entry && ltb c.plan.entry virtual_end) in
    let segment : Segment = record {
      file_offset = h.file_offset;
      file_size = h.file_size;
      memory_size = h.memory_size;
      virtual_address = h.virtual_address;
      physical_address = h.physical_address;
      page_base = page_base;
      page_count = page_count;
      alignment = h.alignment;
      flags = h.flags;
    } in
    let placed : Candidate = record {
      plan = record {
        entry = c.plan.entry;
        physical_base =
            if paged && (not c.have_envelope || ltb page_base c.plan.physical_base)
            then page_base
            else c.plan.physical_base;
        physical_end =
            if paged && (not c.have_envelope || ltb c.plan.physical_end page_end)
            then page_end
            else c.plan.physical_end;
        segments = c.plan.segments ++ (segment ∷ []);
      };
      entry_covered = covers || c.entry_covered;
      have_envelope = paged || c.have_envelope;
    } in
    if paged && overlaps_previous page_base page_end c.plan.segments
    then (err_page_overlap, c)
    else (ok, placed)

-- One PT_LOAD header, after the limit on their number.
unfoldable pub admit : ℕ → Candidate → LoadHeader → ElfStatus × Candidate
admit image_size c h =
    if ltb h.memory_size h.file_size
    then (err_memory_size, c)
    else if bit_and h.flags 3 == 3
    then (err_wx, c)
    else if not (check_alignment h)
    then (err_alignment, c)
    else elim (add_u64 h.file_offset h.file_size) [
      | none ↦ (err_overflow, c)
      | some file_end ↦ elim (add_u64 h.virtual_address h.memory_size) [
        | none ↦ (err_overflow, c)
        | some virtual_end ↦ elim (add_u64 h.physical_address h.memory_size) [
          | none ↦ (err_overflow, c)
          | some physical_end ↦
              proceed (check_ranges image_size h file_end virtual_end physical_end)
                (place c h virtual_end (page_base_of h.physical_address)
                  (page_end_of h physical_end))
                (λ status. (status, c))
        ]
      ]
    ]

-- The fields of the program header at `header`, past its type.
unfoldable pub read_load_header : Memory → ℕ → Option LoadHeader
read_load_header m header = do
  flags ← load m (header + 4) 4
  file_offset ← load m (header + 8) 8
  virtual_address ← load m (header + 16) 8
  physical_address ← load m (header + 24) 8
  file_size ← load m (header + 32) 8
  memory_size ← load m (header + 40) 8
  alignment ← load m (header + 48) 8
  some (record {
    flags = flags;
    file_offset = file_offset;
    virtual_address = virtual_address;
    physical_address = physical_address;
    file_size = file_size;
    memory_size = memory_size;
    alignment = alignment;
  })

-- The loop over the program headers, of which `left` are left.
unfoldable pub scan : Memory → ℕ → ℕ → ℕ → Candidate → Option (ElfStatus × Candidate)
scan m image_size zero header c = some (ok, c)
scan m image_size (suc left) header c = do
  kind ← load m header 4
  (if kind == 1
      then (if length c.plan.segments == max_load_segments then some (err_segment_limit, c) else (do
        h ← read_load_header m header
        proceed (admit image_size c h).0
            (scan m image_size left (header + program_header_size) (admit image_size c h).1)
            (λ bad. some (bad, (admit image_size c h).1))))
      else scan m image_size left (header + program_header_size) c)

-- The identification that the planner wants: ELFCLASS64, little-endian, current version, an
-- executable for x86-64.
unfoldable pub check_identity : Memory → ℕ → Option Bool
check_identity m image = do
  ident ← load m image 7
  kind ← load m (image + 16) 2
  machine ← load m (image + 18) 2
  version ← load m (image + 20) 4
  size ← load m (image + 52) 2
  some (
      (ident == 0x010102464C457F)
      && ((kind == 2) && ((machine == 62) && ((version == 1) && (size == header_size)))))

-- `bbp_elf64_plan`; an image or a plan that is NULL is 0 or none. The result is the status and what
-- the plan holds.
unfoldable pub plan_image : Memory → ℕ → ℕ → Option Plan → Option (ElfStatus × Option Plan)
plan_image m image image_size none = some (err_argument, none)
plan_image m image image_size (some before) =
    if image == 0
    then some (err_argument, some before)
    else if ltb image_size header_size
    then some (err_truncated, some before)
    else do
      known ← check_identity m image
      (if not known then some (err_format, some before) else (do
        entry ← load m (image + 24) 8
        program_offset ← load m (image + 32) 8
        program_count ← load m (image + 56) 2
        entry_size ← load m (image + 54) 2
        (if canonical_region entry == 0
            then some (err_address, some before)
            else if (entry_size != program_header_size)
                || ((program_count == 0) || ltb max_program_headers program_count)
            then some (err_program_headers, some before)
            else elim (add_u64 program_offset (program_count * program_header_size)) [
              | none ↦ some (err_overflow, some before)
              | some program_end ↦
                  (if ltb image_size program_end then some (err_truncated, some before) else (do
                    (status, c) ← scan m image_size program_count (image + program_offset) (record {
                      plan = record {
                        entry = entry;
                        physical_base = 0;
                        physical_end = 0;
                        segments = [];
                      };
                      entry_covered = false;
                      have_envelope = false;
                    })
                    proceed status
                        (if c.entry_covered
                          then some (ok, some c.plan)
                          else some (err_entry, some before))
                        (λ bad. some (bad, some before))))
            ])))
