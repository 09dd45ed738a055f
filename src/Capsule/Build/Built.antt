-- ===== src/Capsule/Build/Built.antt =====
-- The outcome of `bbp_v2_build` of v2/bbp_v2.c.
use bear_boot.Prelude.{ℕ, ◌-◌, ◌≤◌, ◌≡◌, ◌≢◌, ◌⊎◌, ltb, if◌then◌else◌, Option, some, List, ◌>>=◌}
use bear_boot.Memory.{Memory}
use bear_boot.Memory.Within.{IsWithin}
use bear_boot.Capsule.{CapsuleStatus, ok, err_work, err_capacity, err_source}
use bear_boot.Capsule.Build.{BuildEntry, source_overlaps, write_capsule}
use bear_boot.Capsule.Build.Emit.{AllClear}
use bear_boot.Capsule.Build.Seal.{IsCapsule}

module _ (m : Memory) (output capacity : ℕ) (entries : ℕ) (es : List BuildEntry) (n : ℕ) where
  -- A capsule of `total` bytes is written, and nothing outside it.
  pub record IsWritten (m' : Memory) (total : ℕ) : Type 0 where
    pub few : n ≤ 1024
    pub fits : total ≤ capacity
    pub short : total ≤ 67108864
    pub clear : AllClear output total n es
    pub within : IsWithin output total m m'
    pub capsule : IsCapsule m m' output n es total

  -- Refused: the memory is as before and nothing counts as written. Or built.
  abbrev pub IsBuild : CapsuleStatus × Memory × ℕ → Type 0
  IsBuild r = ((r.0 ≢ ok) × (r.1 ≡ m) × (r.2 ≡ 0)) ⊎ ((r.0 ≡ ok) × IsWritten r.1 r.2)

  abbrev body : ℕ → ℕ → Option (CapsuleStatus × Memory × ℕ)
  body total work =
      if ltb (100663296 - work) total
      then some (err_work, m, 0)
      else if ltb capacity total
      then some (err_capacity, m, 0)
      else do
        overlap ← source_overlaps m entries n 0 output total
        (if overlap
            then some (err_source, m, 0)
            else (do m' ← write_capsule m output entries n total; some (ok, m', total)))
