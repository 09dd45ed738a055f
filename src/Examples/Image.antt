-- ===== src/Examples/Image.antt =====
-- The planner of bootloader/uefi/elf64_loader.c on a concrete image of one segment.
use bear_boot.Prelude.{ℕ, ◌-◌, ◌≡◌, refl, Option, none, some, List, [], ◌∷◌, Ensures}
use bear_boot.Bytes.{le}
use bear_boot.Memory.{Memory, load, load_bytes, IsMapped}
use bear_boot.Uefi.Elf.{
  ElfStatus, ok, Plan, add_u64, canonical_region, canonical_range, power_of_two, check_alignment,
  check_ranges, page_base_of, page_end_of, overlaps_previous, place, admit, read_load_header, scan,
  check_identity, plan_image,
}
use bear_boot.Uefi.Elf.Image.{IsImagePlan, plan_image-IsImagePlan}
use bear_boot.Examples.Sample.{nth}

abbrev elf_bytes : List ℕ
elf_bytes =
    127 ∷ 69 ∷ 76 ∷ 70 ∷ 2 ∷ 1 ∷ 1 ∷ 0 ∷ 0 ∷ 0 ∷ 0 ∷ 0 ∷ 0 ∷ 0 ∷ 0 ∷ 0 ∷ 2 ∷ 0 ∷ 62 ∷ 0 ∷ 1 ∷ 0 ∷ 0
    ∷ 0 ∷ 0 ∷ 0 ∷ 32 ∷ 0 ∷ 0 ∷ 0 ∷ 0 ∷ 0 ∷ 64 ∷ 0 ∷ 0 ∷ 0 ∷ 0 ∷ 0 ∷ 0 ∷ 0 ∷ 0 ∷ 0 ∷ 0 ∷ 0 ∷ 0 ∷ 0
    ∷ 0 ∷ 0 ∷ 0 ∷ 0 ∷ 0 ∷ 0 ∷ 64 ∷ 0 ∷ 56 ∷ 0 ∷ 1 ∷ 0 ∷ 0 ∷ 0 ∷ 0 ∷ 0 ∷ 0 ∷ 0 ∷ 1 ∷ 0 ∷ 0 ∷ 0 ∷ 5
    ∷ 0 ∷ 0 ∷ 0 ∷ 0 ∷ 0 ∷ 0 ∷ 0 ∷ 0 ∷ 0 ∷ 0 ∷ 0 ∷ 0 ∷ 0 ∷ 32 ∷ 0 ∷ 0 ∷ 0 ∷ 0 ∷ 0 ∷ 0 ∷ 0 ∷ 32 ∷ 0
    ∷ 0 ∷ 0 ∷ 0 ∷ 0 ∷ 120 ∷ 0 ∷ 0 ∷ 0 ∷ 0 ∷ 0 ∷ 0 ∷ 0 ∷ 120 ∷ 0 ∷ 0 ∷ 0 ∷ 0 ∷ 0 ∷ 0 ∷ 0 ∷ 0 ∷ 16 ∷ 0
    ∷ 0 ∷ 0 ∷ 0 ∷ 0 ∷ 0 ∷ []

-- The image at 20480, and zeros elsewhere.
abbrev image : Memory
image x = some (nth elf_bytes (x - 20480))

abbrev untouched : Plan
untouched = record { entry = 0; physical_base = 0; physical_end = 0; segments = [] }

abbrev status : Option (ElfStatus × Option Plan) → Option ElfStatus
status none = none
status (some r) = some r.0

image_plans : status (plan_image image 20480 120 (some untouched)) ≡ some ok
unfolding plan_image scan admit place add_u64 canonical_region canonical_range power_of_two
    check_alignment check_ranges page_base_of page_end_of overlaps_previous read_load_header
    check_identity load load_bytes le
image_plans = refl

image-IsMapped : IsMapped image 20480 120
image-IsMapped x p q = (_, refl)

plan_image-IsImagePlan_example :
    Ensures (IsImagePlan 120 untouched) (plan_image image 20480 120 (some untouched))
plan_image-IsImagePlan_example = plan_image-IsImagePlan image 20480 120 untouched image-IsMapped
