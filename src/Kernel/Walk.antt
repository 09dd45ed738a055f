-- ===== src/Kernel/Walk.antt =====
-- The walks of kernel/bbp_kernel.c over the chain of tags.
pub mod Chain
pub mod Framing
pub mod Safety
use bear_boot.Prelude.{
  ℕ, zero, suc, ◌+◌, Bool, false, not, ◌==◌, if◌then◌else◌, Option, none, some, List, [], ◌∷◌,
  ◌>>=◌,
}
use bear_boot.Memory.{Memory, load_bytes}
use bear_boot.Wire
use bear_boot.Kernel.Region.{Kctx, phys_to_virt, tag_len_ok, tag_ptr_ok, tag_region_ok}
use bear_boot.Kernel.Seal.{crc_skip}

abbrev pub max_tags : ℕ
max_tags = 1024

-- `bbp_tag_at`: `some none` stops the walk, `some (some tag)` gives the tag's virtual address.
unfoldable pub tag_at : Memory → Kctx → ℕ → Option (Option ℕ)
tag_at m k cur =
    if not (tag_ptr_ok cur)
    then some none
    else if not (tag_region_ok k cur 32)
    then some none
    else do
      let tag = phys_to_virt k cur
      size ← Wire.Tag.tag_size m tag
      (if not (tag_len_ok size)
          then some none
          else if not (tag_region_ok k cur size)
          then some none
          else some (some tag))

-- `bbp_tag_crc_ok`.
unfoldable pub tag_crc_ok : Memory → ℕ → Option Bool
tag_crc_ok m tag = do
  size ← Wire.Tag.tag_size m tag
  got ← crc_skip m tag size Wire.Tag.checksum_offset
  sealed ← Wire.Tag.checksum m tag
  some (got == sealed)

-- The test `k->verify_tag_crc && !bbp_tag_crc_ok(tag)`.
unfoldable pub is_corrupt : Memory → Kctx → ℕ → Option Bool
is_corrupt m k tag =
    if k.verify_tag_crc then (do sound ← tag_crc_ok m tag; some (not sound)) else some false

-- The loop of `bbp_find_tag`, with the rounds that `steps` leaves; 0 is NULL.
unfoldable pub find_tag_loop : Memory → Kctx → ℕ → ℕ → ℕ → Option ℕ
find_tag_loop m k tag_id zero cur = some 0
find_tag_loop m k tag_id (suc left) cur = if cur == 0 then some 0 else do
  at ← tag_at m k cur
  (elim at [
    | none ↦ some 0
    | some tag ↦ (do
      id ← Wire.Tag.tag_id m tag
      (if id == tag_id
          then (do
            corrupt ← is_corrupt m k tag
            (if corrupt
                then (do next ← Wire.Tag.next_tag m tag; find_tag_loop m k tag_id left next)
                else some tag))
          else (do next ← Wire.Tag.next_tag m tag; find_tag_loop m k tag_id left next)))
  ])

unfoldable pub find_tag : Memory → Kctx → ℕ → Option ℕ
find_tag m k tag_id =
    if k.info == 0
    then some 0
    else do first ← Wire.Info.first_tag m k.info; find_tag_loop m k tag_id max_tags first

-- `bbp_for_each_tag`. The callback takes the tag's address and the user's state, and gives the new
-- state and whether to stop; it may read memory, so it may fault.
module _ {S : Type 0} (cb : ℕ → S → Option (S × Bool)) where
  unfoldable pub for_each_loop : Memory → Kctx → ℕ → ℕ → ℕ → S → Option (S × ℕ)
  for_each_loop m k zero cur n user = some (user, n)
  for_each_loop m k (suc left) cur n user = if cur == 0 then some (user, n) else do
    at ← tag_at m k cur
    (elim at [
      | none ↦ some (user, n)
      | some tag ↦ (do
        corrupt ← is_corrupt m k tag
        (if corrupt
            then (do next ← Wire.Tag.next_tag m tag; for_each_loop m k left next n user)
            else (do
              (user', stop) ← cb tag user
              (if stop then some (user', n + 1) else (do
                next ← Wire.Tag.next_tag m tag
                for_each_loop m k left next (n + 1) user')))))
    ])

  unfoldable pub for_each_tag : Memory → Kctx → S → Option (S × ℕ)
  for_each_tag m k user =
      if k.info == 0
      then some (user, 0)
      else do first ← Wire.Info.first_tag m k.info; for_each_loop m k max_tags first 0 user

abbrev pub evidence_domain : List ℕ
evidence_domain =
    b'B' ∷ b'B' ∷ b'P' ∷ b'-' ∷ b'E' ∷ b'V' ∷ b'I' ∷ b'D' ∷ b'E' ∷ b'N' ∷ b'C' ∷ b'E' ∷ 0 ∷ 1 ∷ 0
    ∷ 0 ∷ []

-- `bbp_evidence`: a hash is its update function on bytes.
module _ {S : Type 0} (update : S → List ℕ → S) where
  unfoldable pub evidence_cb : Memory → ℕ → S → Option (S × Bool)
  evidence_cb m tag state = do
    size ← Wire.Tag.tag_size m tag
    bytes ← load_bytes m tag size
    some (update state bytes, false)

  unfoldable pub evidence : Memory → Kctx → S → Option (S × ℕ)
  evidence m k state = if k.info == 0 then some (state, 0) else do
    let state' = update state evidence_domain
    info ← load_bytes m k.info Wire.Info.size
    for_each_tag (evidence_cb m) m k (update state' info)
