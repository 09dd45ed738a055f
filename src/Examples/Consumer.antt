-- ===== src/Examples/Consumer.antt =====
-- The theorems on kernel/bbp_kernel.c and include/bbp/bbp_crc64.h at the concrete hand-off.
use bear_boot.Prelude.{
  ◌+◌, ◌*◌, ℕ, ◌≤◌, ◌<◌, ◌≡◌, ◌≢◌, ap, ◌⊎◌, ◌↔◌, inr, refl, Bool, true, false, Option, some, List,
  [], ◌∷◌, ◌++◌, arith, take, drop, Returns, Ensures,
}
use mathlib.Core.List.{foldl}
use bear_boot.Bytes.{le}
use bear_boot.Memory.{Memory, load, load_bytes, write, IsByteMemory}
use bear_boot.Memory.Stores.{write-IsByteMemory}
use bear_boot.Crc.{crc64}
use bear_boot.Crc.Detect.{crc64-detects_burst}
use bear_boot.Wire.{header_magic}
use bear_boot.Wire.Tag
use bear_boot.Kernel.Region.{address_region_ok, tag_region_ok}
use bear_boot.Kernel.Region.Bounds.{IsRegion, IsInWindow, address_region_ok_iff, tag_region_ok_iff}
use bear_boot.Kernel.Seal.{memcmp, crc_skip}
use bear_boot.Kernel.Seal.Laws.{memcmp_iff, crc_skip-zero_field, zero_field}
use bear_boot.Kernel.Seal.Detect.{tag_crc_ok-detects_burst}
use bear_boot.Kernel.Walk.{find_tag, tag_crc_ok, for_each_tag, evidence, evidence_domain}
use bear_boot.Kernel.Payload.{tag_array, tag_array-fits}
use bear_boot.Kernel.Walk.Chain.{
  first_match, delivered, visit, Extents, extent, none_left, find_tag-first_match,
  for_each_tag-visit, evidence-stream,
}
use bear_boot.Kernel.Walk.Safety.{IsFound, find_tag-safe, for_each_tag-safe, evidence-safe}
use bear_boot.Kernel.Handoff.{ok, fresh_context, verify_header, verify_blob, init_bounded}
use bear_boot.Kernel.Handoff.Checks.{IsHeader, IsBlob, verify_header_iff, verify_blob_iff}
use bear_boot.Kernel.Handoff.Init.{IsBounded, init_bounded-IsBounded}
use bear_boot.Examples.Sample.{
  nth, sample, consumer, info_bytes, tag_bytes, sample-IsByteMemory, sample-IsMapped,
  sample-IsWindowMapped, consumer-IsContext,
}
use bear_boot.Examples.Chain.{entries, starts, chain, halts, sized_first, sized_second, sound_first}

crc64-detects_burst_example : crc64 (7 ∷ 1 ∷ 2 ∷ 9 ∷ []) ≢ crc64 (7 ∷ 1 ∷ 3 ∷ 9 ∷ [])
crc64-detects_burst_example =
    crc64-detects_burst (7 ∷ []) (1 ∷ 2 ∷ []) (1 ∷ 3 ∷ []) (9 ∷ []) (omega arith) (omega arith)
      (omega arith) (omega arith) refl (omega arith) (λ e. omega (arith, ap (λ l. nth l 1) e))

address_region_ok_iff_example :
    (address_region_ok consumer 8192 40 ≡ true) ↔ IsRegion consumer 8192 40
address_region_ok_iff_example = address_region_ok_iff consumer 8192 40 (omega arith)

tag_region_ok_iff_example : (tag_region_ok consumer 8192 40 ≡ true) ↔ IsInWindow consumer 8192 40
tag_region_ok_iff_example = tag_region_ok_iff consumer 8192 40 (omega arith)

memcmp_iff_example :
    (memcmp sample 12288 header_magic ≡ some 0) ↔ (load_bytes sample 12288 16 ≡ some header_magic)
memcmp_iff_example = memcmp_iff sample 12288 header_magic sample-IsByteMemory (omega arith)

extent_first : load_bytes sample 73728 40 ≡ some (take 40 tag_bytes)
unfolding load_bytes
extent_first = refl

extent_second : load_bytes sample 73768 32 ≡ some (drop 40 tag_bytes)
unfolding load_bytes
extent_second = refl

crc_skip-zero_field_example :
    crc_skip sample 73728 40 24 ≡ some (crc64 (zero_field 24 (take 40 tag_bytes)))
crc_skip-zero_field_example =
    crc_skip-zero_field sample 73728 40 24 (take 40 tag_bytes) (omega arith) extent_first

sealed_first : Tag.checksum sample 73728 ≡ some 15455469234469843158
unfolding load load_bytes le
sealed_first = refl

-- The first tag's payload damaged.
abbrev damaged : Memory
damaged = write sample 73760 (67 ∷ [])

damaged-IsByteMemory : IsByteMemory damaged
damaged-IsByteMemory = write-IsByteMemory sample 73760 (67 ∷ []) sample-IsByteMemory (omega arith)

damaged_sized : Tag.tag_size damaged 73728 ≡ some 40
unfolding load load_bytes le write
damaged_sized = refl

damaged_sealed : Tag.checksum damaged 73728 ≡ some 15455469234469843158
unfolding load load_bytes le write
damaged_sealed = refl

damaged_extent :
    load_bytes damaged 73728 40 ≡ some (take 32 tag_bytes ++ (67 ∷ take 7 (drop 33 tag_bytes)))
unfolding load_bytes write
damaged_extent = refl

tag_crc_ok-detects_burst_example : tag_crc_ok damaged 73728 ≡ some false
tag_crc_ok-detects_burst_example =
    tag_crc_ok-detects_burst sample damaged 73728 40 15455469234469843158 (take 32 tag_bytes)
      (66 ∷ []) (67 ∷ []) (take 7 (drop 33 tag_bytes)) sample-IsByteMemory damaged-IsByteMemory
      (omega arith) sized_first damaged_sized sealed_first damaged_sealed extent_first
      damaged_extent refl (omega arith) (inr (omega arith)) sound_first
      (λ e. omega (arith, ap (λ l. nth l 0) e))

find_tag-safe_example :
    Ensures (λ t. (t ≡ 0) ⊎ IsFound sample consumer 9 t) (find_tag sample consumer 9)
find_tag-safe_example =
    find_tag-safe sample consumer consumer-IsContext (omega arith) (sample-IsWindowMapped consumer)
      (sample-IsMapped 4096 144) 9

find_tag-first_match_example : find_tag sample consumer 9 ≡ some (first_match 9 entries)
find_tag-first_match_example = find_tag-first_match sample consumer refl starts chain halts 9

-- A callback that collects the tags.
abbrev collect : ℕ → List ℕ → Option (List ℕ × Bool)
collect tag user = some (tag ∷ user, false)

for_each_tag-safe_example : Ensures (λ r. r.1 ≤ 1024) (for_each_tag collect sample consumer [])
for_each_tag-safe_example =
    for_each_tag-safe sample consumer consumer-IsContext (omega arith)
      (sample-IsWindowMapped consumer) (sample-IsMapped 4096 144) collect
      (λ cur tag user f sound. (_, refl)) []

for_each_tag-visit_example :
    for_each_tag collect sample consumer [] ≡ visit collect (delivered entries) 0 []
for_each_tag-visit_example = for_each_tag-visit sample consumer refl starts chain halts collect []

-- A hash that keeps all that it is given.
abbrev transcript : List ℕ → List ℕ → List ℕ
transcript state bytes = state ++ bytes

evidence-safe_example : Ensures (λ r. r.1 ≤ 1024) (evidence transcript sample consumer [])
evidence-safe_example =
    evidence-safe sample consumer consumer-IsContext (omega arith) (sample-IsWindowMapped consumer)
      (sample-IsMapped 4096 144) transcript []

info_first : load_bytes sample 4096 144 ≡ some info_bytes
unfolding load_bytes
info_first = refl

extents : Extents sample (delivered entries) (take 40 tag_bytes ∷ drop 40 tag_bytes ∷ [])
unfolding delivered
extents = extent sized_first extent_first (extent sized_second extent_second none_left)

evidence-stream_example :
    evidence transcript sample consumer []
    ≡ some (
      foldl transcript
          (transcript (transcript [] evidence_domain) info_bytes)
          (take 40 tag_bytes ∷ drop 40 tag_bytes ∷ []),
      2,
    )
evidence-stream_example =
    evidence-stream sample consumer refl starts chain halts transcript [] info_first extents

verify_header_iff_example :
    Returns (verify_header sample 12288)
    × ((verify_header sample 12288 ≡ some ok) ↔ IsHeader sample 12288)
verify_header_iff_example =
    verify_header_iff sample 12288 sample-IsByteMemory (sample-IsMapped 12288 160)

verify_blob_iff_example :
    (verify_blob sample (some consumer) 8224 8 13662188091193098354 false ≡ some ok)
    ↔ IsBlob sample consumer 8224 8 13662188091193098354 false
verify_blob_iff_example =
    verify_blob_iff sample consumer 8224 8 13662188091193098354 false (omega arith)

init_bounded-IsBounded_example :
    Ensures
      (IsBounded sample consumer 4096 65536 8192 96)
      (init_bounded sample consumer (some consumer) 4096 65536 8192 96)
init_bounded-IsBounded_example =
    init_bounded-IsBounded sample consumer consumer 4096 65536 8192 96 sample-IsByteMemory
      (sample-IsMapped 4096 144) (omega arith)
      (sample-IsWindowMapped (fresh_context 4096 65536 8192 8288))

tag_array-fits_example :
    (count : ℕ) × (tag_array sample 73728 32 8 5 ≡ some (73728 + 32, count))
    × (count ≤ 5)
    × ((i : ℕ) → i < count → 32 + (i + 1) * 8 ≤ 40)
tag_array-fits_example = tag_array-fits sample 73728 32 8 5 40 sized_first
