-- ===== src/Kernel/Walk/Framing.antt =====
-- `bbp_tag_at` of kernel/bbp_kernel.c: what a tag that passes it satisfies, and that it reads
-- mapped memory alone when the walk window is mapped.
use bear_boot.Prelude.{
  ℕ, ◌+◌, ◌-◌, ◌%◌, ◌^◌, ◌≤◌, ◌<◌, ◌≡◌, refl, sym, ◌∙◌, inl, inr, none, some, arith, >>=-eq-some,
  eq_of_some, Bool-cases, Returns, subst,
}
use bear_boot.Memory.{Memory, IsMapped}
use bear_boot.Memory.Loads.{load-Returns, IsMapped-part}
use bear_boot.Wire.Tag
use bear_boot.Kernel.Region.{
  Kctx, max_tag_size, phys_to_virt, tag_len_ok, tag_ptr_ok, tag_region_ok,
}
use bear_boot.Kernel.Region.Bounds.{
  IsContext, IsInWindow, tag_region_ok_iff, tag_ptr_ok_iff, tag_len_ok_iff, phys_to_virt-IsRegion,
}
use bear_boot.Kernel.Walk.{tag_at}

-- The tag at the physical address `cur` and the virtual address `tag` is framed: its declared size
-- is plausible, and its whole extent passes the region guards.
pub record IsFramed (m : Memory) (k : Kctx) (cur tag : ℕ) : Type 0 where
  pub size : ℕ
  pub translated : tag ≡ cur + k.hhdm_offset
  pub aligned : cur % 8 ≡ 0
  pub sized : Tag.tag_size m tag ≡ some size
  pub at_least : 32 ≤ size
  pub at_most : size ≤ max_tag_size
  pub inside : IsInWindow k cur size

-- Every address that the window admits holds a byte.
abbrev pub IsWindowMapped : Memory → Kctx → Type 0
IsWindowMapped m k =
    (p : ℕ)
    → k.walk_lo ≤ p
    → p < k.walk_hi
    → p + k.hhdm_offset < 2 ^ 64
    → (b : ℕ) × (m (p + k.hhdm_offset) ≡ some b)

module _ (m : Memory) (k : Kctx) (words : IsContext k) where
  pub tag_at-IsFramed : (cur tag : ℕ) → tag_at m k cur ≡ some (some tag) → IsFramed m k cur tag
  unfolding tag_at
  tag_at-IsFramed cur tag e = elim (Bool-cases (tag_ptr_ok cur)) [
    | inr bad ↦ absurd (no_tag (rw bad at e))
    | inl aligned ↦ elim (Bool-cases (tag_region_ok k cur 32)) [
      | inr bad ↦ absurd (no_tag (rw (aligned, bad) at e))
      | inl fits ↦
          let (size, sized, e') =
            >>=-eq-some (Tag.tag_size m (phys_to_virt k cur)) _ (rw (aligned, fits) at e) in
          elim (Bool-cases (tag_len_ok size)) [
            | inr bad ↦ absurd (no_tag (rw bad at e'))
            | inl plausible ↦ elim (Bool-cases (tag_region_ok k cur size)) [
              | inr bad ↦ absurd (no_tag (rw (plausible, bad) at e'))
              | inl whole ↦
                  let w = (tag_region_ok_iff k cur size words.hhdm_lt).0 whole in
                  let here : phys_to_virt k cur ≡ tag =
                    eq_of_some (eq_of_some (rw (plausible, whole) at e')) in
                  let bounds = (tag_len_ok_iff size).0 plausible in
                  record {
                    size = size;
                    translated = sym here ∙ phys_to_virt-IsRegion k cur size w.region;
                    aligned = ((tag_ptr_ok_iff cur).0 aligned).1;
                    sized = subst (λ t. Tag.tag_size m t ≡ some size) here sized;
                    at_least = bounds.0;
                    at_most = bounds.1;
                    inside = w;
                  }
            ]
          ]
    ]
  ]
    where
      no_tag : some none ≡ some (some tag) → ⊥
      no_tag h = cc

  module _ (active : k.walk_lo < k.walk_hi) (mapped : IsWindowMapped m k) where
    pub IsMapped-window :
        (cur len : ℕ) → IsInWindow k cur len → IsMapped m (cur + k.hhdm_offset) len
    IsMapped-window cur len w x p q =
        let here : x - k.hhdm_offset + k.hhdm_offset ≡ x = omega arith in
        let (lo, hi) = w.window active in
        subst (λ y. (b : ℕ) × (m y ≡ some b)) here
          (mapped (x - k.hhdm_offset) (omega arith) (omega arith) (omega (arith, w.region.no_wrap)))

    tag_size-Returns :
        (cur : ℕ) → IsInWindow k cur 32 → Returns (Tag.tag_size m (phys_to_virt k cur))
    tag_size-Returns cur w = rw (phys_to_virt-IsRegion k cur 32 w.region) (
        load-Returns m _ 4
          (IsMapped-part m (cur + k.hhdm_offset) 32 8 4 (IsMapped-window cur 32 w) (omega arith)))

    pub tag_at-Returns : (cur : ℕ) → Returns (tag_at m k cur)
    unfolding tag_at
    tag_at-Returns cur = elim (Bool-cases (tag_ptr_ok cur)) [
      | inr bad ↦ rw bad (none, refl)
      | inl aligned ↦ elim (Bool-cases (tag_region_ok k cur 32)) [
        | inr bad ↦ rw (aligned, bad) (none, refl)
        | inl fits ↦
            let (size, e) =
              tag_size-Returns cur ((tag_region_ok_iff k cur 32 words.hhdm_lt).0 fits) in
            rw (aligned, fits, e)
              (elim (Bool-cases (tag_len_ok size)) [
                | inr bad ↦ rw bad (none, refl)
                | inl plausible ↦ elim (Bool-cases (tag_region_ok k cur size)) [
                  | inr bad ↦ rw (plausible, bad) (none, refl)
                  | inl whole ↦ rw (plausible, whole) (some (phys_to_virt k cur), refl)
                ]
              ])
      ]
    ]

-- A tag that is aligned, of plausible size and wholly in the window is accepted.
pub tag_at-accepts :
    (m : Memory) (k : Kctx) (cur size : ℕ)
    → IsContext k
    → cur % 8 ≡ 0
    → 32 ≤ size
    → size ≤ max_tag_size
    → IsInWindow k cur size
    → Tag.tag_size m (cur + k.hhdm_offset) ≡ some size
    → tag_at m k cur ≡ some (some (cur + k.hhdm_offset))
unfolding tag_at
tag_at-accepts m k cur size words aligned least most w sized =
    rw
      (
        (tag_ptr_ok_iff cur).1 (w.region.nonzero, aligned),
        (tag_region_ok_iff k cur 32 words.hhdm_lt).1 small,
        phys_to_virt-IsRegion k cur size w.region,
        sized,
        (tag_len_ok_iff size).1 (least, most),
        (tag_region_ok_iff k cur size words.hhdm_lt).1 w,
      )
      refl
  where
    small : IsInWindow k cur 32
    small = record {
      region = record {
        nonzero = w.region.nonzero;
        nonempty = omega arith;
        below_max = omega (arith, w.region.below_max);
        no_wrap = omega (arith, w.region.no_wrap);
      };
      window = λ a. let (lo, hi) = w.window a in (lo, omega arith);
    }
