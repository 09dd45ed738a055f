-- ===== src/Bridge.antt =====
-- `tag_external_references` of bridge/bbp_bridge.c, with the tag identifiers and the sizes of
-- include/bbp/bbp.h that it uses.
pub mod Shape
pub mod Bounds
pub mod Arrays
pub mod Verdict
use bear_boot.Prelude.{
  ℕ, zero, suc, ◌+◌, ◌-◌, ◌*◌, ◌/◌, Bool, true, false, ◌||◌, not, ltb, leb, ◌==◌, ◌!=◌,
  if◌then◌else◌, Option, some, List, [], ◌∷◌, ◌>>=◌,
}
use bear_boot.Memory.{Memory}
use bear_boot.Wire.{tag_id_of, tag_hhdm_id}
use bear_boot.Capsule.{get16, get32, get64}

abbrev pub tag_smp_id : ℕ
tag_smp_id = tag_id_of 1 1

abbrev pub tag_modules_id : ℕ
tag_modules_id = tag_id_of 1 2

abbrev pub tag_cmdline_id : ℕ
tag_cmdline_id = tag_id_of 1 3

abbrev pub tag_memory_map_id : ℕ
tag_memory_map_id = tag_id_of 2 1

abbrev pub tag_kernel_address_id : ℕ
tag_kernel_address_id = tag_id_of 2 3

abbrev pub tag_framebuffer_id : ℕ
tag_framebuffer_id = tag_id_of 3 1

abbrev pub tag_pcie_id : ℕ
tag_pcie_id = tag_id_of 3 2

abbrev pub tag_security_id : ℕ
tag_security_id = tag_id_of 4 1

abbrev pub tag_acpi_id : ℕ
tag_acpi_id = tag_id_of 5 1

abbrev pub tag_devicetree_id : ℕ
tag_devicetree_id = tag_id_of 5 2

abbrev pub tag_efi_id : ℕ
tag_efi_id = tag_id_of 5 3

abbrev pub tag_hypervisor_id : ℕ
tag_hypervisor_id = tag_id_of 5 4

abbrev pub tag_smbios_id : ℕ
tag_smbios_id = tag_id_of 5 5

abbrev pub tag_metrics_id : ℕ
tag_metrics_id = tag_id_of 6 1

-- The result: -1 for a malformed tag, 0 for a self-contained one, 1 for one with references.
pub data References : Type 0 where
  malformed self_contained external : References

unfoldable pub array_fits : ℕ → ℕ → ℕ → ℕ → Bool
array_fits total base count stride =
    if ltb total base then false else leb count ((total - base) / stride)

-- Whether one of the 64-bit fields at these offsets is not zero.
unfoldable pub any_set : Memory → ℕ → List ℕ → Option Bool
any_set m p [] = some false
any_set m p (offset ∷ offsets) = do
  value ← get64 m (p + offset)
  (let rest = any_set m p offsets in if value != 0 then some true else rest)

-- Whether one of the `left` elements from the address `p` on has such a field.
unfoldable pub any_element_set : Memory → ℕ → ℕ → List ℕ → ℕ → Option Bool
any_element_set m p stride offsets zero = some false
any_element_set m p stride offsets (suc left) = do
  set ← any_set m p offsets
  (let rest = any_element_set m (p + stride) stride offsets left in if set then some true else rest)

abbrev pub references : Bool → References
references set = if set then external else self_contained

-- A tag of a fixed size with fields of references at these offsets.
unfoldable pub fixed : Memory → ℕ → ℕ → ℕ → List ℕ → Option References
fixed m tag size least offsets =
    if ltb size least then some malformed else do set ← any_set m tag offsets; some (references set)

-- A tag with `count` elements behind its fields, with references in each element.
unfoldable pub elements : Memory → ℕ → ℕ → ℕ → ℕ → ℕ → List ℕ → Option References
elements m tag size least count stride offsets =
    if not (array_fits size least count stride)
    then some malformed
    else do set ← any_element_set m (tag + least) stride offsets count; some (references set)

unfoldable pub memory_map_references : Memory → ℕ → ℕ → Option References
memory_map_references m tag size = if ltb size 40 then some malformed else do
  count ← get32 m (tag + 32)
  entry_size ← get32 m (tag + 36)
  some (
      if ltb entry_size 32 || not (array_fits size 40 count entry_size)
      then malformed
      else self_contained)

unfoldable pub framebuffer_references : Memory → ℕ → ℕ → Option References
framebuffer_references m tag size = if ltb size 72 then some malformed else do
  count ← get16 m (tag + 40)
  (if not (array_fits size 72 count 48) then some malformed else (do
    set ← any_set m tag (32 ∷ 56 ∷ [])
    (if set then some external else elements m tag size 72 count 48 (32 ∷ []))))

-- The tags whose elements are counted at the offset 32.
unfoldable pub counted : Memory → ℕ → ℕ → ℕ → ℕ → List ℕ → Option References
counted m tag size least stride offsets =
    if ltb size least
    then some malformed
    else do count ← get32 m (tag + 32); elements m tag size least count stride offsets

unfoldable pub pcie_references : Memory → ℕ → ℕ → Option References
pcie_references m tag size = if ltb size 48 then some malformed else do
  count ← get32 m (tag + 40)
  (if not (array_fits size 48 count 168)
      then some malformed
      else (do set ← any_set m tag (32 ∷ []); some (references (set || (count != 0)))))

unfoldable pub metrics_references : Memory → ℕ → ℕ → Option References
metrics_references m tag size = if ltb size 72 then some malformed else do
  count ← get32 m (tag + 40)
  some (if array_fits size 72 count 56 then self_contained else malformed)

-- `tag_external_references`.
unfoldable pub tag_external_references : Memory → ℕ → ℕ → Option References
tag_external_references m tag size = do
  id ← get64 m tag
  (if id == tag_hhdm_id
      then fixed m tag size 40 []
      else if id == tag_kernel_address_id
      then fixed m tag size 48 []
      else if id == tag_memory_map_id
      then memory_map_references m tag size
      else if id == tag_cmdline_id
      then fixed m tag size 56 (32 ∷ [])
      else if id == tag_acpi_id
      then fixed m tag size 56 (32 ∷ 40 ∷ [])
      else if id == tag_smbios_id
      then fixed m tag size 48 (32 ∷ 40 ∷ [])
      else if id == tag_efi_id
      then fixed m tag size 64 (32 ∷ 40 ∷ [])
      else if id == tag_devicetree_id
      then fixed m tag size 80 (32 ∷ 56 ∷ [])
      else if id == tag_security_id
      then fixed m tag size 128 (32 ∷ 64 ∷ 80 ∷ 96 ∷ [])
      else if id == tag_framebuffer_id
      then framebuffer_references m tag size
      else if id == tag_smp_id
      then counted m tag size 48 48 (32 ∷ [])
      else if id == tag_modules_id
      then counted m tag size 40 176 (0 ∷ 96 ∷ [])
      else if id == tag_pcie_id
      then pcie_references m tag size
      else if id == tag_metrics_id
      then metrics_references m tag size
      else if id == tag_hypervisor_id
      then fixed m tag size 64 []
      else some external)
