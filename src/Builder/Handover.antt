-- ===== src/Builder/Handover.antt =====
-- What bootloader/bbp_build.c hands over is what kernel/bbp_kernel.c reads.
use bear_boot.Prelude.{
  ℕ, suc, ◌+◌, ◌-◌, ◌%◌, ◌^◌, ◌≤◌, ◌<◌, ◌≡◌, ◌≢◌, ◌⊎◌, inl, inr, refl, sym, ap, ◌∙◌, true, false,
  ◌||◌, ltb, ◌==◌, Option, some, List, [], ◌∷◌, arith, length, if◌then◌else◌, subst,
}
use bear_boot.Memory.{Memory, IsByteMemory, IsMapped}
use bear_boot.Memory.Stores.{Extends, Extends-trans, IsMapped-Extends}
use bear_boot.Wire.Tag
use bear_boot.Kernel.Region.{Kctx}
use bear_boot.Kernel.Region.Bounds.{IsContext, IsInWindow}
use bear_boot.Kernel.Walk.{find_tag, is_corrupt, tag_at, tag_crc_ok}
use bear_boot.Kernel.Walk.Chain.{
  Entry, Segment, done, link, ended, first_match, find_tag-first_match,
}
use bear_boot.Kernel.Walk.Framing.{tag_at-accepts, IsWindowMapped}
use bear_boot.Kernel.Handoff.{Status, ok, fresh_context, init_bounded}
use bear_boot.Kernel.Handoff.Init.{
  IsAdopted, kept, taken, IsBounded, refused, accepted, init_bounded-IsBounded,
}
use bear_boot.Builder.{Builder, finalize}
use bear_boot.Builder.Layout.{
  Placement, Ordered, Linked, IsBuilder, Ordered-bounds, Ordered-weaken, Linked-Agree,
}
use bear_boot.Builder.Sealing.{Sealed, Spared, seal_all-IsResealed, Sealed-Agree}
use bear_boot.Builder.Info.{IsFilled, fill_info-IsFilled}

-- The first tag that was allocated with the identifier; 0 if none was.
unfoldable pub placed_at : Builder → ℕ → List Placement → ℕ
placed_at b id [] = 0
placed_at b id (p ∷ ps) = if p.id == id then b.arena + p.offset else placed_at b id ps

-- The tags as the consumer sees them.
abbrev entries : Builder → List Placement → List Entry
entries b [] = []
entries b (p ∷ ps) = record { tag = b.arena + p.offset; id = p.id; intact = true } ∷ entries b ps

first_match-placed_at :
    (b : Builder) (id : ℕ) (ps : List Placement) → first_match id (entries b ps) ≡ placed_at b id ps
unfolding first_match placed_at
first_match-placed_at b id [] = refl
first_match-placed_at b id (p ∷ ps) = ground (arith, first_match-placed_at b id ps)

length-entries : (b : Builder) (ps : List Placement) → length (entries b ps) ≡ length ps
length-entries b [] = refl
length-entries b (p ∷ ps) = ap suc (length-entries b ps)

is_corrupt_sound :
    (m : Memory) (k : Kctx) (tag : ℕ)
    → k.verify_tag_crc ≡ true
    → tag_crc_ok m tag ≡ some true
    → is_corrupt m k tag ≡ some false
unfolding is_corrupt
is_corrupt_sound m k tag v e = rw (v, e) refl

module _ (m : Memory) (b : Builder) (k : Kctx) (n : ℕ) (words : IsContext k)
    (phys_pos : 0 < b.arena_phys) (aligned : b.arena_phys % 8 ≡ 0)
    (same_map : b.arena ≡ b.arena_phys + k.hhdm_offset) (virt_lt : b.arena + n < 2 ^ 64)
    (low : b.arena_phys + n ≤ 2 ^ 48) (lo : k.walk_lo ≡ b.arena_phys)
    (hi : k.walk_hi ≡ b.arena_phys + n) (verify : k.verify_tag_crc ≡ true) where
  Linked-Segment :
      (cur base : ℕ) (ps : List Placement)
      → Ordered base ps n
      → Linked m b cur ps
      → Sealed m b ps
      → Segment m k 0 cur (entries b ps)
  Linked-Segment cur base [] o l s = subst (λ c. Segment m k 0 c []) (sym l) done
  Linked-Segment cur base (p ∷ ps) (above, al, least, most, o) (here, id, size, (next, en, l))
        (crc, s) =
      link (ground (arith, phys_pos)) at id (is_corrupt_sound m k (b.arena + p.offset) verify crc)
        en (Linked-Segment next (p.offset + p.size) ps o l s)
    where
      bound : p.offset + p.size ≤ n
      bound = Ordered-bounds (p.offset + p.size) ps n o

      virt : cur + k.hhdm_offset ≡ b.arena + p.offset
      virt = omega arith

      inside : IsInWindow k cur p.size
      inside = record {
        region = record {
          nonzero = omega arith;
          nonempty = omega (arith, least);
          below_max = omega (arith, bound);
          no_wrap = omega (arith, bound);
        };
        window = λ a. (omega arith, omega (arith, bound));
      }

      at : tag_at m k cur ≡ some (some (b.arena + p.offset))
      at =
          subst (λ v. tag_at m k cur ≡ some (some v)) virt
            (tag_at-accepts m k cur p.size words (omega arith) least most inside
              (subst (λ v. Tag.tag_size m v ≡ some p.size) (sym virt) size))

-- INFO and the arena lie apart, and INFO is mapped.
pub record IsInfoSpace (m : Memory) (b : Builder) (info : ℕ) : Type 0 where
  pub there : info ≢ 0
  pub mapped : IsMapped m info 144
  pub apart : (info + 144 ≤ b.arena) ⊎ (b.arena + b.capacity ≤ info)

-- What the finished hand-off holds: INFO names the first tag, and the tags are as they were laid
-- out, each with its checksum. No byte outside INFO and the checksum fields has changed.
pub record IsHandover (m m' : Memory) (b : Builder) (ps : List Placement) (info : ℕ) : Type 0 where
  pub filled : (m1 : Memory) × IsFilled m1 m' b info
  pub linked : Linked m' b b.first_phys ps
  pub sealed : Sealed m' b ps
  pub same : (x : ℕ) → (x < info) ⊎ (info + 144 ≤ x) → Spared b x ps → m' x ≡ m x
  pub extends : Extends m m'
  pub bytes : IsByteMemory m'

first_phys-lt :
    (m : Memory) (b : Builder) (cur lo : ℕ) (ps : List Placement) (hi : ℕ)
    → Ordered lo ps hi
    → b.arena_phys + hi ≤ 2 ^ 48
    → Linked m b cur ps
    → cur < 2 ^ 64
first_phys-lt m b cur lo [] hi o low l = omega arith
first_phys-lt m b cur lo (p ∷ ps) hi (a, al, least, most, o) low l =
    omega (arith, l.0, Ordered-bounds (p.offset + p.size) ps hi o)

-- On a good builder that has not overflowed and fits the 64 MiB limit, with INFO mapped and apart
-- from the arena, finalisation returns the address that it was given. Afterwards INFO is well
-- formed and names the first tag, every tag is linked as laid out and carries a matching checksum,
-- and no other byte has changed.
pub finalize-IsHandover :
    (m : Memory) (b : Builder) (ps : List Placement) (info info_phys : ℕ)
    → IsBuilder m b ps
    → b.overflow ≡ false
    → b.used ≤ 67108720
    → IsInfoSpace m b info
    → (m' : Memory) × (finalize m (some b) info info_phys ≡ some (info_phys, some b, m'))
      × IsHandover m m' b ps info
unfolding finalize
finalize-IsHandover m b ps info info_phys good clean small space =
    let (m1, e1, r) =
      seal_all-IsResealed b b.used good.phys_pos good.below_max 1025 m b.first_phys 0 ps
        good.ordered (λ x u v. good.mapped x (omega arith) (omega (arith, good.sized.used_le)))
        good.bytes good.linked (omega (arith, good.few)) in
    let (m2, e2, f) =
      fill_info-IsFilled m1 b info space.there (r.bytes good.bytes)
        (IsMapped-Extends m m1 info 144 r.extends space.mapped)
        (first_phys-lt m b b.first_phys 0 ps b.used good.ordered good.below_max good.linked)
        small in
    let here : (info == 0) ≡ false = ground (arith, space.there) in
    let within : (b.overflow
          || (ltb 1024 b.tag_count || (ltb b.capacity b.used || ltb (67108864 - 144) b.used)))
        ≡ false =
      ground (arith, good.count, good.few, good.sized.used_le) in
    let calm = λ (x : ℕ) (u : b.arena + 0 ≤ x) (v : x < b.arena + 0 + (b.used - 0)).
      f.same x (outside space.apart u (omega (arith, good.sized.used_le))) in
    (
      m2,
      rw (here, within, e1, e2) refl,
      record {
        filled = (m1, f);
        linked = Linked-Agree m1 m2 b b.first_phys 0 ps b.used good.ordered calm r.linked;
        sealed = Sealed-Agree m1 m2 b b.first_phys 0 ps b.used good.ordered calm r.linked r.sealed;
        same = λ x o s. f.same x o ∙ r.same x s;
        extends = Extends-trans m m1 m2 r.extends f.extends;
        bytes = f.bytes (r.bytes good.bytes);
      },
    )
  where
    outside :
        {x : ℕ}
        → (info + 144 ≤ b.arena) ⊎ (b.arena + b.capacity ≤ info)
        → b.arena + 0 ≤ x
        → x < b.arena + b.capacity
        → (x < info) ⊎ (info + 144 ≤ x)
    outside (inl h) u v = inr (omega arith)
    outside (inr h) u v = inl (omega arith)

pair_path : {A B : Type 0} (r : A × B) {a : A} {c : B} → r.0 ≡ a → r.1 ≡ c → r ≡ (a, c)
pair_path r p q = λ i. (p i, q i)

-- The bytes `[arena_phys, arena_phys + n)` are what the consumer takes for the arena, mapped at the
-- offset `hint`.
pub record IsSpan (b : Builder) (hint n : ℕ) : Type 0 where
  pub same_map : b.arena ≡ b.arena_phys + hint
  pub hint_lt : hint < 2 ^ 64
  pub nonempty : 0 < n
  pub covers : b.used ≤ n
  pub within : n ≤ b.capacity
  pub low : b.arena_phys + n ≤ 2 ^ 48

module _ (m m' : Memory) (b : Builder) (ps : List Placement) (info hint n : ℕ)
    (good : IsBuilder m b ps) (h : IsHandover m m' b ps info) (space : IsInfoSpace m b info)
    (span : IsSpan b hint n) where
  abbrev consumer : Kctx
  consumer = fresh_context info hint b.arena_phys (b.arena_phys + n)

  handover-find_tag : (id : ℕ) → find_tag m' consumer id ≡ some (placed_at b id ps)
  handover-find_tag id =
      find_tag-first_match m' consumer (ground (arith, space.there)) h.filled.1.first
        (Linked-Segment m' b consumer n
          (record { hhdm_lt = span.hint_lt; hi_lt = omega (arith, span.low) }) good.phys_pos
          good.phys_aligned span.same_map (omega (arith, good.virt_lt, span.within)) span.low refl
          refl refl b.first_phys 0 ps (Ordered-weaken 0 ps b.used n good.ordered span.covers)
          h.linked h.sealed)
        (ended refl (omega (arith, length-entries b ps, good.few))) id
      ∙ ap some (first_match-placed_at b id ps)

  window-mapped : IsWindowMapped m' consumer
  window-mapped p lo hi wrap =
      IsMapped-Extends m m' b.arena b.capacity h.extends good.mapped (p + hint)
        (omega (arith, span.same_map)) (omega (arith, span.same_map, span.within))

  handover-init :
      (scratch before : Kctx)
      → hint ≢ 0
      → init_bounded m' scratch (some before) info hint b.arena_phys n ≡ some (ok, some consumer)
  handover-init scratch before nonzero =
      let (r, e, out) =
        init_bounded-IsBounded m' scratch before info hint b.arena_phys n h.bytes
          (IsMapped-Extends m m' info 144 h.extends space.mapped) span.hint_lt window-mapped in
      e ∙ ap some (settle r out)
    where
      adopted : (k : Kctx) → IsAdopted m' hint consumer k → k ≡ consumer
      adopted k (kept e) = e
      adopted k (taken t o z f g e) = absurd (nonzero z)

      settle :
          (r : Status × Option Kctx)
          → IsBounded m' before info hint b.arena_phys n r
          → r ≡ (ok, some consumer)
      settle r (refused bad out invalid) =
          absurd (invalid h.filled.1.valid good.phys_pos span.nonempty span.low)
      settle r (accepted k good_status out valid p q l a) =
          pair_path r good_status (out ∙ ap some (adopted k a))

-- Finalisation and the consumer agree. Take a good builder that has not overflowed and fits the
-- 64 MiB limit, with INFO mapped and apart from the arena, and a consumer that maps the arena at
-- the nonzero HHDM offset `hint`. The consumer's bounded initialisation on the finished hand-off
-- succeeds, and in its context the lookup of any identifier gives the first tag that was allocated
-- with it, or NULL if none was.
pub finalize-find_tag :
    (m : Memory) (b : Builder) (ps : List Placement) (info info_phys hint n : ℕ)
    (scratch before : Kctx)
    → IsBuilder m b ps
    → b.overflow ≡ false
    → b.used ≤ 67108720
    → IsInfoSpace m b info
    → IsSpan b hint n
    → hint ≢ 0
    → (m' : Memory) × (k : Kctx) × (finalize m (some b) info info_phys
        ≡ some (info_phys, some b, m'))
      × (init_bounded m' scratch (some before) info hint b.arena_phys n ≡ some (ok, some k))
      × ((id : ℕ) → find_tag m' k id ≡ some (placed_at b id ps))
finalize-find_tag m b ps info info_phys hint n scratch before good clean small space span nonzero =
    let (m', e, h) = finalize-IsHandover m b ps info info_phys good clean small space in
    (
      m',
      consumer m m' b ps info hint n good h space span,
      e,
      handover-init m m' b ps info hint n good h space span scratch before nonzero,
      handover-find_tag m m' b ps info hint n good h space span,
    )
