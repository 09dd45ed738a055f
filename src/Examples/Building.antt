-- ===== src/Examples/Building.antt =====
-- The builder of version 2 on one entry: the array is at 20480, the payload at 8192.
use bear_boot.Prelude.{ℕ, ◌-◌, ◌%◌, ◌≡◌, refl, some, List, [], ◌∷◌}
use bear_boot.Memory.{Memory}
use bear_boot.Capsule.{err_null}
use bear_boot.Capsule.Build.{BuildEntry, build}
use bear_boot.Examples.Sample.{nth}

abbrev array_bytes : List ℕ
array_bytes =
    52 ∷ 18 ∷ 0 ∷ 0 ∷ 0 ∷ 0 ∷ 0 ∷ 0 ∷ 0 ∷ 0 ∷ 0 ∷ 0 ∷ 1 ∷ 0 ∷ 0 ∷ 0 ∷ 16 ∷ 0 ∷ 0 ∷ 0 ∷ 0 ∷ 0 ∷ 0 ∷ 0
    ∷ 0 ∷ 32 ∷ 0 ∷ 0 ∷ 0 ∷ 0 ∷ 0 ∷ 0 ∷ 8 ∷ 0 ∷ 0 ∷ 0 ∷ 0 ∷ 0 ∷ 0 ∷ 0 ∷ []

abbrev prepared : Memory
prepared x = some (nth array_bytes (x - 20480) % 256)

abbrev entry : BuildEntry
entry = record { kind = 4660; flags = 0; version = 1; alignment = 16; base = 8192; size = 8 }

null_entries : build prepared 4096 256 0 1 (some 7) ≡ some (err_null, prepared, some 0)
unfolding build
null_entries = refl
