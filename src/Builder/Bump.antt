-- ===== src/Builder/Bump.antt =====
-- `arena_bump` of bootloader/bbp_build.c: aligned, within the arena, and sticky on overflow.
use bear_boot.Prelude.{
  ℕ, ◌+◌, ◌-◌, ◌*◌, ◌/◌, ◌%◌, ◌^◌, ◌≤◌, ◌<◌, ◌≡◌, inl, inr, refl, false, ◌||◌, ltb, ◌==◌, bit_and,
  Option, some, none, arith, Bool-cases,
}
use bear_boot.Word.Bits.{bit_and_step, bit_and_mask}
use bear_boot.Builder.{Builder, overflowed, arena_bump}

-- Clearing the three low bits of a 64-bit word.
pub bit_and_align : (x : ℕ) → x < 2 ^ 64 → bit_and x (2 ^ 64 - 8) ≡ x / 8 * 8
bit_and_align x h = omega (
  arith,
  bit_and_step x (2 ^ 64 - 8),
  bit_and_step (x / 2) (2 ^ 63 - 4),
  bit_and_step (x / 2 / 2) (2 ^ 62 - 2),
  bit_and_mask 61 (x / 2 / 2 / 2) (2 ^ 61 - 1) refl,
)

-- The words of a builder fit in 64 bits.
pub record IsSized (b : Builder) : Type 0 where
  pub capacity_lt : b.capacity < 2 ^ 64
  pub used_le : b.used ≤ b.capacity

-- The room that `arena_bump` wants for `len` bytes.
pub record HasRoom (b : Builder) (len start : ℕ) : Type 0 where
  pub arena_pos : 0 < b.arena
  pub clean : b.overflow ≡ false
  pub aligned : start % 8 ≡ 0
  pub at_least : b.used ≤ start
  pub at_most : start < b.used + 8
  pub used_small : b.used + 7 < 2 ^ 64
  pub fits : start + len ≤ b.capacity
  pub below_max : b.arena_phys + start + len ≤ 2 ^ 48

pub data IsBumped (b : Builder) (len : ℕ) : Option (ℕ × ℕ) × Builder → Type 0 where
  refused : ((start : ℕ) → HasRoom b len start → ⊥) → IsBumped b len (none, overflowed b)
  bumped :
      (start : ℕ)
      → HasRoom b len start
      → IsBumped b len
          (some (b.arena + start, b.arena_phys + start), record b { used = start + len })

align_unique : (u s : ℕ) → u ≤ s → s < u + 8 → s % 8 ≡ 0 → s ≡ (u + 7) / 8 * 8
align_unique u s p q r = omega arith

-- On a builder whose capacity is a 64-bit word and whose used bytes fit it, a bump succeeds
-- exactly when the next multiple of eight leaves room for len bytes in the arena and below 2 ^ 48
-- and no bump has failed before; otherwise it marks the builder as overflowed.
pub arena_bump-IsBumped : (b : Builder) (len : ℕ) → IsSized b → IsBumped b len (arena_bump b len)
unfolding arena_bump
arena_bump-IsBumped b len sized =
    elim (Bool-cases ((b.arena == 0) || (b.overflow || ltb (2 ^ 64 - 1 - 7) b.used))) [
      | inl bad ↦ rw bad (refused (λ s r. ground (arith, r.arena_pos, r.clean, r.used_small)))
      | inr good ↦
          let start : bit_and (b.used + 7) (2 ^ 64 - 8) ≡ (b.used + 7) / 8 * 8 =
            bit_and_align (b.used + 7) (ground arith) in
          rw (good, start)
            (elim (Bool-cases (
              ltb b.capacity ((b.used + 7) / 8 * 8)
              || ltb (b.capacity - (b.used + 7) / 8 * 8) len)) [
                | inl bad ↦ rw bad (
                    refused (λ s r.
                      let e = align_unique b.used s r.at_least r.at_most r.aligned in
                      ground (arith, r.fits)))
                | inr room ↦
                    elim (Bool-cases (
                      ltb (2 ^ 48) b.arena_phys
                      || ltb (2 ^ 48 - b.arena_phys) ((b.used + 7) / 8 * 8))) [
                        | inl bad ↦
                            rw (room, bad)
                              (refused (λ s r.
                                let e = align_unique b.used s r.at_least r.at_most r.aligned in
                                ground (arith, r.below_max)))
                        | inr low ↦
                            elim (Bool-cases
                              (ltb (2 ^ 48 - (b.arena_phys + (b.used + 7) / 8 * 8)) len)) [
                                | inl bad ↦
                                    rw (room, low, bad)
                                      (refused (λ s r.
                                        let e =
                                          align_unique b.used s r.at_least r.at_most r.aligned in
                                        ground (arith, r.below_max)))
                                | inr below ↦
                                    rw (room, low, below)
                                      (bumped ((b.used + 7) / 8 * 8) (record {
                                        arena_pos = ground arith;
                                        clean = ground arith;
                                        aligned = omega arith;
                                        at_least = omega arith;
                                        at_most = omega arith;
                                        used_small = ground arith;
                                        fits = ground arith;
                                        below_max = ground arith;
                                      }))
                              ]
                      ]
              ])
    ]
