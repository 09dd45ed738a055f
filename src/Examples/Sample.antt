-- ===== src/Examples/Sample.antt =====
-- A concrete hand-off: INFO at 4096, two tags at the physical address 8192 that the offset 65536
-- maps to 73728, a kernel header at 12288, and zeros everywhere else.
use bear_boot.Prelude.{
  ℕ, zero, suc, ◌+◌, ◌-◌, ◌<◌, refl, Bool, true, false, ◌&&◌, ltb, leb, some, List, [], ◌∷◌, arith,
  if◌then◌else◌, eq_of_some, subst,
}
use bear_boot.Bytes.{IsBytes}
use bear_boot.Memory.{Memory, IsByteMemory, IsMapped}
use bear_boot.Kernel.Region.{Kctx}
use bear_boot.Kernel.Region.Bounds.{IsContext}
use bear_boot.Kernel.Walk.Framing.{IsWindowMapped}
use bear_boot.Builder.{Builder}
use bear_boot.Builder.Layout.{Placement}

abbrev pub info_bytes : List ℕ
info_bytes =
    66 ∷ 69 ∷ 65 ∷ 82 ∷ 95 ∷ 73 ∷ 78 ∷ 70 ∷ 79 ∷ 0 ∷ 0 ∷ 0 ∷ 0 ∷ 0 ∷ 0 ∷ 0 ∷ 1 ∷ 0 ∷ 1 ∷ 0 ∷ 216 ∷ 0
    ∷ 0 ∷ 0 ∷ 0 ∷ 0 ∷ 0 ∷ 0 ∷ 0 ∷ 0 ∷ 0 ∷ 0 ∷ 0 ∷ 0 ∷ 0 ∷ 0 ∷ 0 ∷ 0 ∷ 0 ∷ 0 ∷ 0 ∷ 0 ∷ 0 ∷ 0 ∷ 0 ∷ 0
    ∷ 0 ∷ 0 ∷ 0 ∷ 0 ∷ 0 ∷ 0 ∷ 0 ∷ 0 ∷ 0 ∷ 0 ∷ 0 ∷ 0 ∷ 0 ∷ 0 ∷ 0 ∷ 0 ∷ 0 ∷ 0 ∷ 0 ∷ 0 ∷ 0 ∷ 0 ∷ 0 ∷ 0
    ∷ 0 ∷ 0 ∷ 0 ∷ 0 ∷ 0 ∷ 0 ∷ 0 ∷ 0 ∷ 0 ∷ 0 ∷ 0 ∷ 0 ∷ 0 ∷ 0 ∷ 0 ∷ 0 ∷ 0 ∷ 0 ∷ 0 ∷ 0 ∷ 0 ∷ 0 ∷ 0 ∷ 0
    ∷ 0 ∷ 0 ∷ 0 ∷ 0 ∷ 0 ∷ 0 ∷ 0 ∷ 0 ∷ 0 ∷ 0 ∷ 0 ∷ 0 ∷ 0 ∷ 0 ∷ 0 ∷ 0 ∷ 0 ∷ 0 ∷ 0 ∷ 0 ∷ 0 ∷ 0 ∷ 2 ∷ 0
    ∷ 0 ∷ 0 ∷ 0 ∷ 32 ∷ 0 ∷ 0 ∷ 0 ∷ 0 ∷ 0 ∷ 0 ∷ 0 ∷ 0 ∷ 0 ∷ 0 ∷ 0 ∷ 0 ∷ 0 ∷ 0 ∷ 51 ∷ 210 ∷ 138 ∷ 160
    ∷ 208 ∷ 152 ∷ 244 ∷ 4 ∷ []

abbrev pub tag_bytes : List ℕ
tag_bytes =
    7 ∷ 0 ∷ 0 ∷ 0 ∷ 0 ∷ 0 ∷ 0 ∷ 0 ∷ 40 ∷ 0 ∷ 0 ∷ 0 ∷ 1 ∷ 0 ∷ 0 ∷ 0 ∷ 40 ∷ 32 ∷ 0 ∷ 0 ∷ 0 ∷ 0 ∷ 0 ∷ 0
    ∷ 214 ∷ 176 ∷ 141 ∷ 213 ∷ 97 ∷ 219 ∷ 124 ∷ 214 ∷ 66 ∷ 69 ∷ 65 ∷ 82 ∷ 66 ∷ 79 ∷ 79 ∷ 84 ∷ 9 ∷ 0
    ∷ 0 ∷ 0 ∷ 0 ∷ 0 ∷ 0 ∷ 0 ∷ 32 ∷ 0 ∷ 0 ∷ 0 ∷ 1 ∷ 0 ∷ 0 ∷ 0 ∷ 0 ∷ 0 ∷ 0 ∷ 0 ∷ 0 ∷ 0 ∷ 0 ∷ 0 ∷ 238
    ∷ 118 ∷ 130 ∷ 70 ∷ 218 ∷ 79 ∷ 82 ∷ 193 ∷ []

abbrev pub header_bytes : List ℕ
header_bytes =
    66 ∷ 69 ∷ 65 ∷ 82 ∷ 95 ∷ 66 ∷ 79 ∷ 79 ∷ 84 ∷ 0 ∷ 0 ∷ 0 ∷ 0 ∷ 0 ∷ 0 ∷ 0 ∷ 1 ∷ 0 ∷ 1 ∷ 0 ∷ 160 ∷ 0
    ∷ 0 ∷ 0 ∷ 0 ∷ 0 ∷ 0 ∷ 0 ∷ 0 ∷ 0 ∷ 0 ∷ 0 ∷ 0 ∷ 0 ∷ 0 ∷ 0 ∷ 0 ∷ 0 ∷ 0 ∷ 0 ∷ 0 ∷ 0 ∷ 0 ∷ 0 ∷ 0 ∷ 0
    ∷ 0 ∷ 0 ∷ 0 ∷ 0 ∷ 0 ∷ 0 ∷ 0 ∷ 0 ∷ 0 ∷ 0 ∷ 0 ∷ 0 ∷ 0 ∷ 0 ∷ 0 ∷ 0 ∷ 0 ∷ 0 ∷ 0 ∷ 0 ∷ 0 ∷ 0 ∷ 0 ∷ 0
    ∷ 0 ∷ 0 ∷ 0 ∷ 0 ∷ 0 ∷ 0 ∷ 0 ∷ 0 ∷ 0 ∷ 0 ∷ 0 ∷ 0 ∷ 0 ∷ 0 ∷ 0 ∷ 0 ∷ 0 ∷ 0 ∷ 0 ∷ 0 ∷ 0 ∷ 0 ∷ 0 ∷ 0
    ∷ 0 ∷ 0 ∷ 0 ∷ 0 ∷ 0 ∷ 0 ∷ 0 ∷ 0 ∷ 0 ∷ 0 ∷ 0 ∷ 0 ∷ 0 ∷ 0 ∷ 0 ∷ 0 ∷ 0 ∷ 0 ∷ 0 ∷ 0 ∷ 0 ∷ 0 ∷ 0 ∷ 0
    ∷ 0 ∷ 0 ∷ 0 ∷ 0 ∷ 0 ∷ 0 ∷ 0 ∷ 0 ∷ 0 ∷ 0 ∷ 0 ∷ 0 ∷ 0 ∷ 0 ∷ 0 ∷ 0 ∷ 0 ∷ 0 ∷ 0 ∷ 0 ∷ 0 ∷ 0 ∷ 0 ∷ 0
    ∷ 0 ∷ 0 ∷ 0 ∷ 0 ∷ 0 ∷ 0 ∷ 0 ∷ 0 ∷ 0 ∷ 0 ∷ 101 ∷ 173 ∷ 64 ∷ 72 ∷ 43 ∷ 99 ∷ 70 ∷ 235 ∷ []

abbrev pub nth : List ℕ → ℕ → ℕ
nth [] i = 0
nth (b ∷ bs) zero = b
nth (b ∷ bs) (suc i) = nth bs i

nth-lt : (bs : List ℕ) → IsBytes bs → (i : ℕ) → nth bs i < 256
nth-lt [] h i = omega arith
nth-lt (b ∷ bs) h zero = h.0
nth-lt (b ∷ bs) h (suc i) = nth-lt bs h.1 i

-- The structure that an address belongs to: INFO, the tags, the kernel header, or zeros.
abbrev cell : ℕ → ℕ
cell x =
    if leb 4096 x && ltb x 4240
    then nth info_bytes (x - 4096)
    else if leb 73728 x && ltb x 73800
    then nth tag_bytes (x - 73728)
    else if leb 12288 x && ltb x 12448
    then nth header_bytes (x - 12288)
    else 0

abbrev pub sample : Memory
sample x = some (cell x)

abbrev pub consumer : Kctx
consumer = record {
  info = 4096;
  hhdm_offset = 65536;
  verify_tag_crc = true;
  walk_lo = 8192;
  walk_hi = 8288;
}

abbrev pub producer : Builder
producer = record {
  arena = 73728;
  arena_phys = 8192;
  capacity = 96;
  used = 72;
  last = 73768;
  first_phys = 8192;
  tag_count = 2;
  overflow = false;
}

abbrev pub placements : List Placement
placements =
    record { offset = 0; id = 7; size = 40 } ∷ record { offset = 40; id = 9; size = 32 } ∷ []

if-lt : (b : Bool) (x y : ℕ) → x < 256 → y < 256 → (if b then x else y) < 256
if-lt true x y p q = p
if-lt false x y p q = q

cell-lt : (x : ℕ) → cell x < 256
cell-lt x = if-lt (leb 4096 x && ltb x 4240) _ _ (nth-lt info_bytes (omega arith) (x - 4096)) (
    if-lt (leb 73728 x && ltb x 73800) _ _ (nth-lt tag_bytes (omega arith) (x - 73728)) (
      if-lt (leb 12288 x && ltb x 12448) _ 0 (nth-lt header_bytes (omega arith) (x - 12288))
        (omega arith)))

pub sample-IsByteMemory : IsByteMemory sample
sample-IsByteMemory a b e = subst (λ c. c < 256) (eq_of_some e) (cell-lt a)

pub sample-IsMapped : (a n : ℕ) → IsMapped sample a n
sample-IsMapped a n x p q = (cell x, refl)

pub consumer-IsContext : IsContext consumer
consumer-IsContext = record { hhdm_lt = omega arith; hi_lt = omega arith }

pub sample-IsWindowMapped : (k : Kctx) → IsWindowMapped sample k
sample-IsWindowMapped k p lo hi wrap = (cell (p + k.hhdm_offset), refl)
