-- ===== src/Bridge/Shape.antt =====
-- What bridge/bbp_bridge.c should say of a tag, from the layout of each tag in include/bbp/bbp.h:
-- whether the tag is whole, and whether it refers to memory outside itself.
use bear_boot.Prelude.{ℕ, zero, suc, ◌+◌, ◌*◌, ◌≤◌, ◌≡◌, ◌≢◌, ◌⊎◌, some, List, [], ◌∷◌}
use bear_boot.Memory.{Memory, load}
use bear_boot.Wire.{tag_hhdm_id}
use bear_boot.Bridge.{
  tag_kernel_address_id, tag_memory_map_id, tag_cmdline_id, tag_acpi_id, tag_smbios_id, tag_efi_id,
  tag_devicetree_id, tag_security_id, tag_framebuffer_id, tag_smp_id, tag_modules_id, tag_pcie_id,
  tag_metrics_id, tag_hypervisor_id, References, malformed, self_contained, external,
}

-- The layout of a tag: of a least size with fields of references at offsets; a memory map; displays;
-- an array with its count at 32, of which each element has references; PCIe devices; boot phases;
-- or one that is not known.
pub data Shape : Type 0 where
  plain : ℕ → List ℕ → Shape
  map displays devices phases opaque : Shape
  array : ℕ → ℕ → List ℕ → Shape

pub data HasShape : ℕ → Shape → Type 0 where
  hhdm : HasShape tag_hhdm_id (plain 40 [])
  kernel_address : HasShape tag_kernel_address_id (plain 48 [])
  memory_map : HasShape tag_memory_map_id map
  cmdline : HasShape tag_cmdline_id (plain 56 (32 ∷ []))
  acpi : HasShape tag_acpi_id (plain 56 (32 ∷ 40 ∷ []))
  smbios : HasShape tag_smbios_id (plain 48 (32 ∷ 40 ∷ []))
  efi : HasShape tag_efi_id (plain 64 (32 ∷ 40 ∷ []))
  devicetree : HasShape tag_devicetree_id (plain 80 (32 ∷ 56 ∷ []))
  security : HasShape tag_security_id (plain 128 (32 ∷ 64 ∷ 80 ∷ 96 ∷ []))
  framebuffer : HasShape tag_framebuffer_id displays
  smp : HasShape tag_smp_id (array 48 48 (32 ∷ []))
  modules : HasShape tag_modules_id (array 40 176 (0 ∷ 96 ∷ []))
  pcie : HasShape tag_pcie_id devices
  metrics : HasShape tag_metrics_id phases
  hypervisor : HasShape tag_hypervisor_id (plain 64 [])
  other :
      {id : ℕ}
      → id ≢ tag_hhdm_id
      → id ≢ tag_kernel_address_id
      → id ≢ tag_memory_map_id
      → id ≢ tag_cmdline_id
      → id ≢ tag_acpi_id
      → id ≢ tag_smbios_id
      → id ≢ tag_efi_id
      → id ≢ tag_devicetree_id
      → id ≢ tag_security_id
      → id ≢ tag_framebuffer_id
      → id ≢ tag_smp_id
      → id ≢ tag_modules_id
      → id ≢ tag_pcie_id
      → id ≢ tag_metrics_id
      → id ≢ tag_hypervisor_id
      → HasShape id opaque

module _ (m : Memory) where
  -- One of the fields at these offsets is a reference; none of them is.
  abbrev pub SomeSet : ℕ → List ℕ → Type 0
  SomeSet p [] = ⊥
  SomeSet p (o ∷ os) = ((v : ℕ) × (load m (p + o) 8 ≡ some v) × (v ≢ 0)) ⊎ SomeSet p os

  abbrev pub AllClear : ℕ → List ℕ → Type 0
  AllClear p [] = Unit {0}
  AllClear p (o ∷ os) = (load m (p + o) 8 ≡ some 0) × AllClear p os

  -- So for the elements of an array.
  abbrev pub SomeElement : ℕ → ℕ → List ℕ → ℕ → Type 0
  SomeElement p stride os zero = ⊥
  SomeElement p stride os (suc n) = SomeSet p os ⊎ SomeElement (p + stride) stride os n

  abbrev pub AllElements : ℕ → ℕ → List ℕ → ℕ → Type 0
  AllElements p stride os zero = Unit {0}
  AllElements p stride os (suc n) = AllClear p os × AllElements (p + stride) stride os n

module _ (m : Memory) (tag size : ℕ) where
  -- The tag has its fields, and the array that it counts in the field at `at` is in it.
  abbrev pub Holds : ℕ → ℕ → ℕ → ℕ → Type 0
  Holds least at width stride =
      (least ≤ size)
      × (count : ℕ) × (load m (tag + at) width ≡ some count)
      × (least + count * stride ≤ size)

  abbrev pub IsWhole : Shape → Type 0
  IsWhole (plain least offsets) = least ≤ size
  IsWhole map =
      (40 ≤ size)
      × (count stride : ℕ) × (load m (tag + 32) 4 ≡ some count)
      × (load m (tag + 36) 4 ≡ some stride)
      × (32 ≤ stride)
      × (40 + count * stride ≤ size)
  IsWhole displays = Holds 72 40 2 48
  IsWhole devices = Holds 48 40 4 168
  IsWhole phases = Holds 72 40 4 56
  IsWhole opaque = Unit {0}
  IsWhole (array least stride offsets) = Holds least 32 4 stride

  -- An element of the array counted in the field at `at` has a reference; none has.
  abbrev pub Refers : ℕ → ℕ → ℕ → ℕ → List ℕ → Type 0
  Refers least at width stride offsets =
      (count : ℕ) × (load m (tag + at) width ≡ some count)
      × SomeElement m (tag + least) stride offsets count

  abbrev pub Lacks : ℕ → ℕ → ℕ → ℕ → List ℕ → Type 0
  Lacks least at width stride offsets =
      (count : ℕ) × (load m (tag + at) width ≡ some count)
      × AllElements m (tag + least) stride offsets count

  abbrev pub IsExternal : Shape → Type 0
  IsExternal (plain least offsets) = SomeSet m tag offsets
  IsExternal map = ⊥
  IsExternal displays = SomeSet m tag (32 ∷ 56 ∷ []) ⊎ Refers 72 40 2 48 (32 ∷ [])
  IsExternal devices =
      SomeSet m tag (32 ∷ []) ⊎ ((count : ℕ) × (load m (tag + 40) 4 ≡ some count) × (count ≢ 0))
  IsExternal phases = ⊥
  IsExternal opaque = Unit {0}
  IsExternal (array least stride offsets) = Refers least 32 4 stride offsets

  abbrev pub IsSelfContained : Shape → Type 0
  IsSelfContained (plain least offsets) = AllClear m tag offsets
  IsSelfContained map = Unit {0}
  IsSelfContained displays = AllClear m tag (32 ∷ 56 ∷ []) × Lacks 72 40 2 48 (32 ∷ [])
  IsSelfContained devices = AllClear m tag (32 ∷ []) × (load m (tag + 40) 4 ≡ some 0)
  IsSelfContained phases = Unit {0}
  IsSelfContained opaque = ⊥
  IsSelfContained (array least stride offsets) = Lacks least 32 4 stride offsets

  -- The verdict on a tag of this layout.
  abbrev pub IsVerdict : Shape → References → Type 0
  IsVerdict s r =
      ((r ≡ malformed) × (IsWhole s → ⊥))
      ⊎ (IsWhole s × (((r ≡ external) × IsExternal s) ⊎ ((r ≡ self_contained) × IsSelfContained s)))
