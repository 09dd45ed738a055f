-- ===== src/Examples/Producer.antt =====
-- The theorems on bootloader/bbp_build.c at the concrete hand-off.
use bear_boot.Prelude.{ℕ, ◌≡◌, refl, some, arith, Ensures}
use bear_boot.Memory.{Memory}
use bear_boot.Kernel.Region.{Kctx}
use bear_boot.Kernel.Walk.{find_tag}
use bear_boot.Kernel.Handoff.{ok, init_bounded}
use bear_boot.Builder.{arena_bump, alloc_tag, seal_all, finalize}
use bear_boot.Builder.Bump.{IsBumped, arena_bump-IsBumped}
use bear_boot.Builder.Alloc.{IsAllocated, alloc_tag-IsAllocated}
use bear_boot.Builder.Sealing.{IsResealed, seal_all-IsResealed}
use bear_boot.Builder.Handover.{IsHandover, placed_at, finalize-IsHandover, finalize-find_tag}
use bear_boot.Examples.Sample.{
  sample, consumer, producer, placements, sample-IsByteMemory, sample-IsMapped,
}
use bear_boot.Examples.Chain.{ordered, linked, producer-IsBuilder, info_space, span}

arena_bump-IsBumped_example : IsBumped producer 20 (arena_bump producer 20)
arena_bump-IsBumped_example =
    arena_bump-IsBumped producer 20 (record { capacity_lt = omega arith; used_le = omega arith })

alloc_tag-IsAllocated_example :
    Ensures (IsAllocated sample producer placements 7 40) (alloc_tag sample (some producer) 7 1 40)
alloc_tag-IsAllocated_example =
    alloc_tag-IsAllocated sample producer placements 7 1 40 producer-IsBuilder (omega arith)

seal_all-IsResealed_example :
    (m' : Memory) × (seal_all 1025 sample producer 8192 ≡ some m')
    × IsResealed sample m' producer 8192 placements
seal_all-IsResealed_example =
    seal_all-IsResealed producer 72 (omega arith) (omega arith) 1025 sample 8192 0 placements
      ordered (sample-IsMapped 73728 72) sample-IsByteMemory linked (omega arith)

finalize-IsHandover_example :
    (m' : Memory) × (finalize sample (some producer) 4096 4096 ≡ some (4096, some producer, m'))
    × IsHandover sample m' producer placements 4096
finalize-IsHandover_example =
    finalize-IsHandover sample producer placements 4096 4096 producer-IsBuilder refl (omega arith)
      info_space

finalize-find_tag_example :
    (m' : Memory) × (k : Kctx) × (finalize sample (some producer) 4096 4096
      ≡ some (4096, some producer, m'))
    × (init_bounded m' consumer (some consumer) 4096 65536 8192 96 ≡ some (ok, some k))
    × ((id : ℕ) → find_tag m' k id ≡ some (placed_at producer id placements))
finalize-find_tag_example =
    finalize-find_tag sample producer placements 4096 4096 65536 96 consumer consumer
      producer-IsBuilder refl (omega arith) info_space span (λ e. omega (arith, e))
