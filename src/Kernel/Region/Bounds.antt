-- ===== src/Kernel/Region/Bounds.antt =====
-- What the guards of kernel/bbp_kernel.c establish.
use bear_boot.Prelude.{
  ℕ, ◌+◌, ◌%◌, ◌^◌, ◌≤◌, ◌<◌, ◌≡◌, refl, ◌↔◌, true, inl, inr, Bool-cases, arith,
}
use bear_boot.Word.Bits.{bit_and_mask}
use bear_boot.Kernel.Region.{
  Kctx, max_tag_size, phys_to_virt, tag_len_ok, tag_ptr_ok, address_region_ok, tag_region_ok,
}

-- The words of a context fit in 64 bits.
pub record IsContext (k : Kctx) : Type 0 where
  pub hhdm_lt : k.hhdm_offset < 2 ^ 64
  pub hi_lt : k.walk_hi < 2 ^ 64

-- A region that may be dereferenced: it is not empty, it ends below 2 ^ 48, and neither its
-- translation nor the end of its translation wraps.
pub record IsRegion (k : Kctx) (phys len : ℕ) : Type 0 where
  pub nonzero : 0 < phys
  pub nonempty : 0 < len
  pub below_max : phys + len ≤ 2 ^ 48
  pub no_wrap : phys + k.hhdm_offset + len < 2 ^ 64

-- When the window is active, the region lies in it.
pub record IsInWindow (k : Kctx) (phys len : ℕ) : Type 0 where
  pub region : IsRegion k phys len
  pub window : k.walk_lo < k.walk_hi → (k.walk_lo ≤ phys) × (phys + len ≤ k.walk_hi)

-- `bbp_address_region_ok` accepts exactly the regions that fit, for every 64-bit offset.
pub address_region_ok_iff :
    (k : Kctx) (phys len : ℕ)
    → k.hhdm_offset < 2 ^ 64
    → (address_region_ok k phys len ≡ true) ↔ IsRegion k phys len
unfolding address_region_ok
address_region_ok_iff k phys len h = (λ e. ground arith, λ r. ground arith)

-- `bbp_tag_region_ok` accepts exactly the regions that fit and, when the walk window is active, lie
-- in it, for every 64-bit offset.
pub tag_region_ok_iff :
    (k : Kctx) (phys len : ℕ)
    → k.hhdm_offset < 2 ^ 64
    → (tag_region_ok k phys len ≡ true) ↔ IsInWindow k phys len
unfolding tag_region_ok
tag_region_ok_iff k phys len h = elim (Bool-cases (address_region_ok k phys len)) [
  | inl e ↦ rw e (
    λ t. record { region = (address_region_ok_iff k phys len h).0 e; window = λ a. ground arith },
    λ w. ground (arith, w.window),
  )
  | inr e ↦ rw e (λ t. cc, λ w. cc ((address_region_ok_iff k phys len h).1 w.region, e))
]

-- A region that was accepted is translated by adding the offset.
pub phys_to_virt-IsRegion :
    (k : Kctx) (phys len : ℕ) → IsRegion k phys len → phys_to_virt k phys ≡ phys + k.hhdm_offset
unfolding phys_to_virt
phys_to_virt-IsRegion k phys len r = ground arith

pub tag_ptr_ok_iff : (p : ℕ) → (tag_ptr_ok p ≡ true) ↔ ((0 < p) × (p % 8 ≡ 0))
unfolding tag_ptr_ok
tag_ptr_ok_iff p = ground (arith, bit_and_mask 3 p 7 refl)

pub tag_len_ok_iff : (n : ℕ) → (tag_len_ok n ≡ true) ↔ ((32 ≤ n) × (n ≤ max_tag_size))
unfolding tag_len_ok
tag_len_ok_iff n = ground arith
