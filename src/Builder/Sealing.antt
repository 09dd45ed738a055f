-- ===== src/Builder/Sealing.antt =====
-- `bbp_builder_finalize` of bootloader/bbp_build.c seals every tag of the chain.
use bear_boot.Prelude.{
  ℕ, zero, suc, ◌+◌, ◌-◌, ◌%◌, ◌^◌, ◌≤◌, ◌<◌, ◌≡◌, ◌⊎◌, inl, inr, refl, sym, ap, ◌∙◌, true, false,
  ◌==◌, some, List, [], ◌∷◌, arith, length, ltb,
}
use bear_boot.Bytes.{le-le_bytes8}
use bear_boot.Memory.{Memory, store, IsByteMemory, IsMapped}
use bear_boot.Memory.Loads.{load_bytes-Returns, load_bytes-IsBytes, IsMapped-part}
use bear_boot.Memory.Stores.{
  Agree, Extends, Extends-trans, IsMapped-Extends, store-IsStored, load-IsStored, load-Agree,
  load_bytes-Agree,
}
use bear_boot.Wire.Tag
use bear_boot.Kernel.Seal as KernelSeal
use bear_boot.Kernel.Seal.Laws.{crc_skip-zero_field}
use bear_boot.Kernel.Seal.Detect.{zero_field-IsBytes}
use bear_boot.Crc.Detect.{crc64-lt}
use bear_boot.Kernel.Walk.{tag_crc_ok}
use bear_boot.Builder.{Builder, crc_skip, seal_tag, seal_all, phys_to_virt}
use bear_boot.Builder.Layout.{Placement, Ordered, Linked, Ordered-bounds, Linked-Agree}

-- The builder's checksum and the consumer's are one function where the field fits.
pub crc_skip-consumer :
    (m : Memory) (base len off : ℕ)
    → off + 8 ≤ len
    → len < 2 ^ 64
    → crc_skip m base len off ≡ KernelSeal.crc_skip m base len off
unfolding crc_skip KernelSeal.crc_skip
crc_skip-consumer m base len off room small =
    let long : ltb len (off + 8) ≡ false = ground arith in
    let count : (len + 2 ^ 64 - off - 8) % 2 ^ 64 ≡ len - off - 8 = omega arith in
    rw (long, count) refl

-- The checksum of a mapped structure exists and fits in 64 bits.
pub crc_skip-value :
    (m : Memory) (base len off : ℕ)
    → IsByteMemory m
    → IsMapped m base len
    → off + 8 ≤ len
    → len < 2 ^ 64
    → (sum : ℕ) × (crc_skip m base len off ≡ some sum) × (sum < 2 ^ 64)
crc_skip-value m base len off hm mapped room small =
    let (bs, e) = load_bytes-Returns m base len mapped in
    (
      _,
      crc_skip-consumer m base len off room small ∙ crc_skip-zero_field m base len off bs room e,
      crc64-lt _ (zero_field-IsBytes off bs (load_bytes-IsBytes m base len bs hm e)),
    )

-- The checksum does not read its own field.
pub crc_skip-Agree :
    (m m' : Memory) (base len off : ℕ)
    → Agree m m' base off
    → Agree m m' (base + off + 8) (len - off - 8)
    → KernelSeal.crc_skip m' base len off ≡ KernelSeal.crc_skip m base len off
unfolding KernelSeal.crc_skip
crc_skip-Agree m m' base len off head tail =
    rw
      (
        load_bytes-Agree m m' base off head,
        load_bytes-Agree m m' (base + off + 8) (len - off - 8) tail,
      )
      refl

pub tag_crc_ok-true :
    (m : Memory) (tag size sum : ℕ)
    → Tag.tag_size m tag ≡ some size
    → KernelSeal.crc_skip m tag size 24 ≡ some sum
    → Tag.checksum m tag ≡ some sum
    → tag_crc_ok m tag ≡ some true
unfolding tag_crc_ok
tag_crc_ok-true m tag size sum a b c = rw (a, b, c) (ap some (same sum))
  where
    same : (n : ℕ) → (n == n) ≡ true
    same n = ground arith

pub tag_crc_ok-Agree :
    (m m' : Memory) (tag size : ℕ)
    → Tag.tag_size m tag ≡ some size
    → 32 ≤ size
    → Agree m m' tag size
    → tag_crc_ok m tag ≡ some true
    → tag_crc_ok m' tag ≡ some true
unfolding tag_crc_ok
tag_crc_ok-Agree m m' tag size e least same ok =
    rw
      (
        load-Agree m m' (tag + 8) 4 (λ x u v. same x (omega arith) (omega arith)),
        e,
        crc_skip-Agree m m' tag size 24 (λ x u v. same x u (omega arith))
            (λ x u v. same x (omega arith) (omega arith)),
        load-Agree m m' (tag + 24) 8 (λ x u v. same x (omega arith) (omega arith)),
      )
      (rw e at ok)

-- Every tag of the chain has a matching checksum.
abbrev pub Sealed : Memory → Builder → List Placement → Type 0
Sealed m b [] = Unit {0}
Sealed m b (p ∷ ps) = (tag_crc_ok m (b.arena + p.offset) ≡ some true) × Sealed m b ps

-- The address lies in no checksum field of the tags.
abbrev pub Spared : Builder → ℕ → List Placement → Type 0
Spared b x [] = Unit {0}
Spared b x (p ∷ ps) =
    ((x < b.arena + p.offset + 24) ⊎ (b.arena + p.offset + 32 ≤ x)) × Spared b x ps

Spared-below :
    (b : Builder) (x lo : ℕ) (ps : List Placement) (hi : ℕ)
    → Ordered lo ps hi
    → x < b.arena + lo
    → Spared b x ps
Spared-below b x lo [] hi o h = tt
Spared-below b x lo (p ∷ ps) hi (a, al, least, most, o) h =
    (inl (omega arith), Spared-below b x (p.offset + p.size) ps hi o (omega arith))

pub Spared-above :
    (b : Builder) (x lo : ℕ) (ps : List Placement) (hi : ℕ)
    → Ordered lo ps hi
    → b.arena + hi ≤ x
    → Spared b x ps
Spared-above b x lo [] hi o h = tt
Spared-above b x lo (p ∷ ps) hi (a, al, least, most, o) h = (
  inr (omega (arith, Ordered-bounds (p.offset + p.size) ps hi o)),
  Spared-above b x (p.offset + p.size) ps hi o h,
)

-- The memory after sealing: the chain as before with every checksum in place, and no byte outside
-- the checksum fields changed.
pub record IsResealed (m m' : Memory) (b : Builder) (cur : ℕ) (ps : List Placement) : Type 0 where
  pub linked : Linked m' b cur ps
  pub sealed : Sealed m' b ps
  pub same : (x : ℕ) → Spared b x ps → m' x ≡ m x
  pub extends : Extends m m'
  pub bytes : IsByteMemory m → IsByteMemory m'

seal_all-stop :
    (fuel : ℕ) (m : Memory) (b : Builder) (cur : ℕ) → cur ≡ 0 → seal_all (suc fuel) m b cur ≡ some m
unfolding seal_all
seal_all-stop fuel m b cur e = rw e refl

seal_all-step :
    (fuel : ℕ) (m m' : Memory) (b : Builder) (cur h next : ℕ)
    → (cur == 0) ≡ false
    → phys_to_virt b cur ≡ h
    → seal_tag m h ≡ some m'
    → Tag.next_tag m' h ≡ some next
    → seal_all (suc fuel) m b cur ≡ seal_all fuel m' b next
unfolding seal_all
seal_all-step fuel m m' b cur h next going here sealed en = rw (going, here, sealed, en) refl

seal_tag-store :
    (m m' : Memory) (h size sum : ℕ)
    → Tag.tag_size m h ≡ some size
    → crc_skip m h size 24 ≡ some sum
    → store m (h + 24) 8 sum ≡ some m'
    → seal_tag m h ≡ some m'
unfolding seal_tag
seal_tag-store m m' h size sum a b c = rw (a, b) c

module _ (b : Builder) (hi : ℕ) (phys_pos : 0 < b.arena_phys)
    (low : b.arena_phys + hi ≤ 2 ^ 48) where
  virt : (offset : ℕ) → offset ≤ hi → phys_to_virt b (b.arena_phys + offset) ≡ b.arena + offset
  unfolding phys_to_virt
  virt offset h = ap (λ t. b.arena + t) (wraps offset b.arena_phys (omega arith))
    where
      wraps : (o p : ℕ) → o < 2 ^ 64 → (p + o + 2 ^ 64 - p) % 2 ^ 64 ≡ o
      wraps o p h = omega arith

  -- On a chain of aligned, separate tags in mapped memory that ends below 2 ^ 48, sealing returns,
  -- given more rounds than there are tags. Afterwards the chain is linked as before, every tag on it
  -- has a matching checksum, and no byte outside the checksum fields has changed.
  pub seal_all-IsResealed :
      (fuel : ℕ) (m : Memory) (cur lo : ℕ) (ps : List Placement)
      → Ordered lo ps hi
      → IsMapped m (b.arena + lo) (hi - lo)
      → IsByteMemory m
      → Linked m b cur ps
      → length ps < fuel
      → (m' : Memory) × (seal_all fuel m b cur ≡ some m') × IsResealed m m' b cur ps
  seal_all-IsResealed zero m cur lo ps o mapped bytes l enough = absurd (omega arith)
  seal_all-IsResealed (suc fuel) m cur lo [] o mapped bytes l enough = (
    m,
    seal_all-stop fuel m b cur l,
    record {
      linked = l;
      sealed = tt;
      same = λ x s. refl;
      extends = λ x v e. (v, e);
      bytes = λ h. h;
    },
  )
  seal_all-IsResealed (suc fuel) m cur lo (p ∷ ps) (above, al, least, most, o) mapped bytes
        (here, id, size, (next, en, l)) enough =
      let (sum, ec, small) =
        crc_skip-value m h p.size 24 bytes whole (omega (arith, least)) (omega (arith, most)) in
      let (m1, e1, s) =
        store-IsStored m (h + 24) 8 sum
          (IsMapped-part m h p.size 24 8 whole (omega (arith, least))) in
      let l1 : Linked m1 b next ps =
        Linked-Agree m m1 b next (p.offset + p.size) ps hi o
          (λ x u v. s.same x (inr (omega (arith, least)))) l in
      let (m2, e2, r) =
        seal_all-IsResealed fuel m1 next (p.offset + p.size) ps o
          (λ x u v.
            IsMapped-Extends m m1 (b.arena + lo) (hi - lo) s.extends mapped x (omega arith)
              (omega (arith, bound)))
          (s.bytes bytes) l1 (omega arith) in
      let mine : Agree m1 m2 h p.size =
        λ x u v. r.same x (Spared-below b x (p.offset + p.size) ps hi o (omega arith)) in
      let en1 = load-IsStored s (h + 16) 8 (inl (omega arith)) ∙ en in
      let size2 : Tag.tag_size m2 h ≡ some p.size =
        load-Agree m1 m2 (h + 8) 4 (λ x u v. mine x (omega arith) (omega (arith, least)))
        ∙ load-IsStored s (h + 8) 4 (inl (omega arith))
        ∙ size in
      let sum2 : Tag.checksum m2 h ≡ some sum =
        load-Agree m1 m2 (h + 24) 8 (λ x u v. mine x (omega arith) (omega (arith, least)))
        ∙ s.back (le-le_bytes8 sum small) in
      let crc2 : KernelSeal.crc_skip m2 h p.size 24 ≡ some sum =
        crc_skip-Agree m m2 h p.size 24
          (λ x u v. mine x u (omega (arith, least)) ∙ s.same x (inl (omega arith)))
          (λ x u v. mine x (omega arith) (omega (arith, least)) ∙ s.same x (inr (omega arith)))
        ∙ sym (crc_skip-consumer m h p.size 24 (omega (arith, least)) (omega (arith, most)))
        ∙ ec in
      (
        m2,
        seal_all-step fuel m m1 b cur h next (ground (arith, phys_pos))
              (ap (phys_to_virt b) here ∙ virt p.offset (omega (arith, bound)))
              (seal_tag-store m m1 h p.size sum size ec e1) en1
            ∙ e2,
        record {
          linked = (
            here,
            load-Agree m1 m2 h 8 (λ x u v. mine x u (omega (arith, least)))
                ∙ load-IsStored s h 8 (inl (omega arith))
                ∙ id,
            size2,
            (
              next,
              load-Agree m1 m2 (h + 16) 8 (λ x u v. mine x (omega arith) (omega (arith, least)))
                  ∙ en1,
              r.linked,
            ),
          );
          sealed = (tag_crc_ok-true m2 h p.size sum size2 crc2 sum2, r.sealed);
          same = λ x sp. r.same x sp.1 ∙ s.same x (field x sp.0);
          extends = Extends-trans m m1 m2 s.extends r.extends;
          bytes = λ c. r.bytes (s.bytes c);
        },
      )
    where
      h : ℕ
      h = b.arena + p.offset

      bound : p.offset + p.size ≤ hi
      bound = Ordered-bounds (p.offset + p.size) ps hi o

      whole : IsMapped m h p.size
      whole x u v = mapped x (omega arith) (omega (arith, bound))

      field :
          (x : ℕ)
          → (x < b.arena + p.offset + 24) ⊎ (b.arena + p.offset + 32 ≤ x)
          → (x < h + 24) ⊎ (h + 24 + 8 ≤ x)
      field x (inl u) = inl u
      field x (inr u) = inr (omega arith)

-- Seals survive any change outside the tags.
pub Sealed-Agree :
    (m m' : Memory) (b : Builder) (cur lo : ℕ) (ps : List Placement) (hi : ℕ)
    → Ordered lo ps hi
    → Agree m m' (b.arena + lo) (hi - lo)
    → Linked m b cur ps
    → Sealed m b ps
    → Sealed m' b ps
Sealed-Agree m m' b cur lo [] hi o same l s = tt
Sealed-Agree m m' b cur lo (p ∷ ps) hi (above, al, least, most, o) same
      (here, id, size, (next, en, l)) (crc, s) =
    (
      tag_crc_ok-Agree m m' (b.arena + p.offset) p.size size least
          (λ x u v. same x (omega arith) (omega (arith, bound))) crc,
      Sealed-Agree m m' b next (p.offset + p.size) ps hi o
          (λ x u v. same x (omega arith) (omega arith)) l s,
    )
  where
    bound : p.offset + p.size ≤ hi
    bound = Ordered-bounds (p.offset + p.size) ps hi o
