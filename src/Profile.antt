-- ===== src/Profile.antt =====
-- v2/bbp_v2_profile.c and include/bbp/bbp_v2_profile.h: the profile P0 of a capsule.
pub mod Content
pub mod Regions
pub mod Mask
pub mod Slot
pub mod Round
pub mod Sound
use bear_boot.Prelude.{
  ℕ, zero, suc, ◌+◌, ◌-◌, ◌*◌, ◌^◌, Bool, true, false, ◌||◌, not, ltb, leb, ◌==◌, ◌!=◌,
  if◌then◌else◌, bit_and, bit_or, Option, none, some, ◌>>=◌,
}
use bear_boot.Memory.{Memory}
use bear_boot.Capsule.{
  CapsuleStatus, ok, err_null, err_format, proceed, View, EntryView, get16, get32, get64,
}
use bear_boot.Capsule.Entry.{get_entry}

abbrev pub p0_boot_identity : ℕ
p0_boot_identity = 0x4242503200000001

abbrev pub p0_memory_map : ℕ
p0_memory_map = 0x4242503200000002

abbrev pub p0_kernel_address : ℕ
p0_kernel_address = 0x4242503200000003

abbrev pub p0_devicetree : ℕ
p0_devicetree = 0x4242503200000004

abbrev p0_version : ℕ
p0_version = 1

-- `struct bbp_v2_p0_view`; `dtb` is an address.
pub record P0View : Type 0 where
  pub architecture : ℕ
  pub cpu_count : ℕ
  pub memory_entry_count : ℕ
  pub kernel_physical_base : ℕ
  pub kernel_virtual_base : ℕ
  pub dtb : ℕ
  pub dtb_size : ℕ

-- The bit of an entry's type; 0 for one that the profile does not know.
unfoldable pub kind_bit : ℕ → ℕ
kind_bit kind =
    if kind == p0_boot_identity
    then 1
    else if kind == p0_memory_map
    then 2
    else if kind == p0_kernel_address
    then 4
    else if kind == p0_devicetree
    then 8
    else 0

-- The content of an entry: the architecture and the number of processors; `some none` is
-- `BBP_V2_ERR_FORMAT`.
unfoldable pub check_identity : Memory → EntryView → Option (Option (ℕ × ℕ))
check_identity m entry = if entry.size != 16 then some none else do
  reserved0 ← get16 m (entry.base + 2)
  flags ← get32 m (entry.base + 8)
  reserved1 ← get32 m (entry.base + 12)
  architecture ← get16 m entry.base
  cpu_count ← get32 m (entry.base + 4)
  some (
      if (reserved0 != 0) || ((flags != 0) || (reserved1 != 0))
      then none
      else if (architecture == 0) || (ltb 4 architecture || (cpu_count == 0))
      then none
      else some (architecture, cpu_count))

-- The loop over the entries of the memory map.
unfoldable pub check_memory : Memory → ℕ → ℕ → Option Bool
check_memory m memory zero = some true
check_memory m memory (suc left) = do
  base ← get64 m memory
  length ← get64 m (memory + 8)
  kind ← get32 m (memory + 16)
  reserved ← get32 m (memory + 28)
  (let rest = check_memory m (memory + 32) left in
      if (length == 0) || (ltb (2 ^ 64 - 1 - length) base || ((kind == 0) || (reserved != 0)))
      then some false
      else rest)

-- The number of entries of the memory map.
unfoldable pub check_memory_map : Memory → EntryView → Option (Option ℕ)
check_memory_map m entry = if ltb entry.size 8 then some none else do
  count ← get32 m entry.base
  entry_size ← get32 m (entry.base + 4)
  (if (count == 0) || (ltb 4096 count || ((entry_size != 32) || (count * 32 != entry.size - 8)))
      then some none
      else (do
        good ← check_memory m (entry.base + 8) count
        some (if good then some count else none)))

-- The physical and the virtual base of the kernel.
unfoldable pub check_kernel_address : Memory → EntryView → Option (Option (ℕ × ℕ))
check_kernel_address m entry = if entry.size != 16 then some none else do
  physical ← get64 m entry.base
  virtual ← get64 m (entry.base + 8)
  some (if physical == 0 then none else some (physical, virtual))

-- The address and the size of the device tree.
unfoldable pub check_devicetree : Memory → EntryView → Option (Option (ℕ × ℕ))
check_devicetree m entry = if leb entry.size 8 then some none else do
  flags ← get32 m entry.base
  size ← get32 m (entry.base + 4)
  some (
      if flags != 0
      then none
      else if size != entry.size - 8
      then none
      else some (entry.base + 8, size))

abbrev pub with_identity : P0View → Option (ℕ × ℕ) → Option P0View
with_identity result none = none
with_identity result (some (architecture, cpu_count)) = some (record {
  architecture = architecture;
  cpu_count = cpu_count;
  memory_entry_count = result.memory_entry_count;
  kernel_physical_base = result.kernel_physical_base;
  kernel_virtual_base = result.kernel_virtual_base;
  dtb = result.dtb;
  dtb_size = result.dtb_size;
})

abbrev pub with_memory_map : P0View → Option ℕ → Option P0View
with_memory_map result none = none
with_memory_map result (some count) = some (record {
  architecture = result.architecture;
  cpu_count = result.cpu_count;
  memory_entry_count = count;
  kernel_physical_base = result.kernel_physical_base;
  kernel_virtual_base = result.kernel_virtual_base;
  dtb = result.dtb;
  dtb_size = result.dtb_size;
})

abbrev pub with_kernel_address : P0View → Option (ℕ × ℕ) → Option P0View
with_kernel_address result none = none
with_kernel_address result (some (physical, virtual)) = some (record {
  architecture = result.architecture;
  cpu_count = result.cpu_count;
  memory_entry_count = result.memory_entry_count;
  kernel_physical_base = physical;
  kernel_virtual_base = virtual;
  dtb = result.dtb;
  dtb_size = result.dtb_size;
})

abbrev pub with_devicetree : P0View → Option (ℕ × ℕ) → Option P0View
with_devicetree result none = none
with_devicetree result (some (dtb, size)) = some (record {
  architecture = result.architecture;
  cpu_count = result.cpu_count;
  memory_entry_count = result.memory_entry_count;
  kernel_physical_base = result.kernel_physical_base;
  kernel_virtual_base = result.kernel_virtual_base;
  dtb = dtb;
  dtb_size = size;
})

-- The branches on the entry's type, and the new result.
unfoldable pub check_content : Memory → EntryView → ℕ → P0View → Option (Option P0View)
check_content m entry bit result =
    if bit == 1
    then (do r ← check_identity m entry; some (with_identity result r))
    else if bit == 2
    then (do r ← check_memory_map m entry; some (with_memory_map result r))
    else if bit == 4
    then (do r ← check_kernel_address m entry; some (with_kernel_address result r))
    else (do r ← check_devicetree m entry; some (with_devicetree result r))

-- An entry, and a result, before they are written.
abbrev pub blank_entry : EntryView
blank_entry = record {
  kind = 0;
  flags = 0;
  version = 0;
  alignment = 0;
  offset = 0;
  size = 0;
  checksum = 0;
  base = 0;
}

abbrev pub blank_result : P0View
blank_result = record {
  architecture = 0;
  cpu_count = 0;
  memory_entry_count = 0;
  kernel_physical_base = 0;
  kernel_virtual_base = 0;
  dtb = 0;
  dtb_size = 0;
}

-- The loop over the entries, of which `left` are left from `index` on. A read through an `entry`
-- that is not there would fault.
unfoldable pub p0_loop : Memory → View → ℕ → ℕ → ℕ → P0View → Option (CapsuleStatus × P0View)
p0_loop m capsule zero index seen result = some ((if seen != 15 then err_format else ok), result)
p0_loop m capsule (suc left) index seen result = do
  (status, got) ← get_entry m (some capsule) index (some blank_entry)
  proceed status
      (do
        entry ← got
        (let bit = kind_bit entry.kind in
            if bit == 0
            then p0_loop m capsule left (index + 1) seen result
            else if (bit_and seen bit != 0) || ((entry.version != p0_version) || (entry.flags != 0))
            then some (err_format, result)
            else (do
              next ← check_content m entry bit result
              elim next [
                | none ↦ some (err_format, result)
                | some result' ↦ p0_loop m capsule left (index + 1) (bit_or seen bit) result'
              ])))
      (λ bad. some (bad, result))

-- `bbp_v2_p0_validate`: the status, and what `*out` holds at the return.
unfoldable pub p0_validate :
    Memory → Option View → Option P0View → Option (CapsuleStatus × Option P0View)
p0_validate m none out = some (err_null, out)
p0_validate m (some capsule) none = some (err_null, none)
p0_validate m (some capsule) (some before) = do
  (status, result) ← p0_loop m capsule capsule.entry_count 0 0 blank_result
  proceed status (some (ok, some result)) (λ bad. some (bad, some before))
