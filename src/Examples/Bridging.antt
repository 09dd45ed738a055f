-- ===== src/Examples/Bridging.antt =====
-- The search for references in a command line tag at 8192, whose string is at 1.
use bear_boot.Prelude.{ℕ, Ensures, ◌≡◌, refl, if◌then◌else◌, ◌==◌, ◌||◌, some, arith}
use bear_boot.Bytes.{le}
use bear_boot.Memory.{Memory, IsMapped, load, load_bytes}
use bear_boot.Bridge.{external, malformed, any_set, fixed, tag_external_references}
use bear_boot.Bridge.Shape.{Shape, HasShape, IsVerdict}
use bear_boot.Bridge.Verdict.{tag_external_references-IsVerdict}

abbrev cmdline : Memory
cmdline x = some (if x == 8192 then 3 else if (x == 8198) || (x == 8224) then 1 else 0)

cmdline-IsMapped : IsMapped cmdline 8192 56
cmdline-IsMapped x p q = (_, refl)

cmdline_refers : tag_external_references cmdline 8192 56 ≡ some external
unfolding tag_external_references fixed any_set load load_bytes le
cmdline_refers = refl

short_malformed : tag_external_references cmdline 8192 55 ≡ some malformed
unfolding tag_external_references fixed load load_bytes le
short_malformed = refl

tag_external_references-IsVerdict_example :
    (id : ℕ) × (shape : Shape) × (load cmdline 8192 8 ≡ some id)
    × HasShape id shape
    × Ensures (IsVerdict cmdline 8192 56 shape) (tag_external_references cmdline 8192 56)
tag_external_references-IsVerdict_example =
    tag_external_references-IsVerdict cmdline 8192 56 cmdline-IsMapped (omega arith)
