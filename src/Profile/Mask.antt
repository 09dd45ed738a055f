-- ===== src/Profile/Mask.antt =====
-- The types of the profile in v2/bbp_v2_profile.c, and the bit of each.
use bear_boot.Prelude.{
  ℕ, ◌+◌, ◌≡◌, ◌≢◌, ◌⊎◌, inl, inr, refl, Bool, true, false, ◌==◌, ◌!=◌, if◌then◌else◌, bit_and,
  bit_or, arith, Bool-cases,
}
use bear_boot.Profile.{p0_boot_identity, p0_memory_map, p0_kernel_address, p0_devicetree, kind_bit}

-- The set of types seen, as the loop has it.
abbrev pub mask : Bool → Bool → Bool → Bool → ℕ
mask a b c d =
    (if a then 1 else 0) + (if b then 2 else 0) + (if c then 4 else 0) + (if d then 8 else 0)

-- The tests and the updates of the set.
pub record HasBits (a b c d : Bool) : Type 0 where
  pub has1 : (bit_and (mask a b c d) 1 != 0) ≡ a
  pub has2 : (bit_and (mask a b c d) 2 != 0) ≡ b
  pub has4 : (bit_and (mask a b c d) 4 != 0) ≡ c
  pub has8 : (bit_and (mask a b c d) 8 != 0) ≡ d
  pub set1 : bit_or (mask a b c d) 1 ≡ mask true b c d
  pub set2 : bit_or (mask a b c d) 2 ≡ mask a true c d
  pub set4 : bit_or (mask a b c d) 4 ≡ mask a b true d
  pub set8 : bit_or (mask a b c d) 8 ≡ mask a b c true
  pub full : (mask a b c d != 15) ≡ false → (a ≡ true) × (b ≡ true) × (c ≡ true) × (d ≡ true)

pub mask-HasBits : (a b c d : Bool) → HasBits a b c d
mask-HasBits true true true true = record {
  has1 = refl;
  has2 = refl;
  has4 = refl;
  has8 = refl;
  set1 = refl;
  set2 = refl;
  set4 = refl;
  set8 = refl;
  full = λ _. (refl, refl, refl, refl);
}
mask-HasBits true true true false = record {
  has1 = refl;
  has2 = refl;
  has4 = refl;
  has8 = refl;
  set1 = refl;
  set2 = refl;
  set4 = refl;
  set8 = refl;
  full = λ g. cc;
}
mask-HasBits true true false true = record {
  has1 = refl;
  has2 = refl;
  has4 = refl;
  has8 = refl;
  set1 = refl;
  set2 = refl;
  set4 = refl;
  set8 = refl;
  full = λ g. cc;
}
mask-HasBits true true false false = record {
  has1 = refl;
  has2 = refl;
  has4 = refl;
  has8 = refl;
  set1 = refl;
  set2 = refl;
  set4 = refl;
  set8 = refl;
  full = λ g. cc;
}
mask-HasBits true false true true = record {
  has1 = refl;
  has2 = refl;
  has4 = refl;
  has8 = refl;
  set1 = refl;
  set2 = refl;
  set4 = refl;
  set8 = refl;
  full = λ g. cc;
}
mask-HasBits true false true false = record {
  has1 = refl;
  has2 = refl;
  has4 = refl;
  has8 = refl;
  set1 = refl;
  set2 = refl;
  set4 = refl;
  set8 = refl;
  full = λ g. cc;
}
mask-HasBits true false false true = record {
  has1 = refl;
  has2 = refl;
  has4 = refl;
  has8 = refl;
  set1 = refl;
  set2 = refl;
  set4 = refl;
  set8 = refl;
  full = λ g. cc;
}
mask-HasBits true false false false = record {
  has1 = refl;
  has2 = refl;
  has4 = refl;
  has8 = refl;
  set1 = refl;
  set2 = refl;
  set4 = refl;
  set8 = refl;
  full = λ g. cc;
}
mask-HasBits false true true true = record {
  has1 = refl;
  has2 = refl;
  has4 = refl;
  has8 = refl;
  set1 = refl;
  set2 = refl;
  set4 = refl;
  set8 = refl;
  full = λ g. cc;
}
mask-HasBits false true true false = record {
  has1 = refl;
  has2 = refl;
  has4 = refl;
  has8 = refl;
  set1 = refl;
  set2 = refl;
  set4 = refl;
  set8 = refl;
  full = λ g. cc;
}
mask-HasBits false true false true = record {
  has1 = refl;
  has2 = refl;
  has4 = refl;
  has8 = refl;
  set1 = refl;
  set2 = refl;
  set4 = refl;
  set8 = refl;
  full = λ g. cc;
}
mask-HasBits false true false false = record {
  has1 = refl;
  has2 = refl;
  has4 = refl;
  has8 = refl;
  set1 = refl;
  set2 = refl;
  set4 = refl;
  set8 = refl;
  full = λ g. cc;
}
mask-HasBits false false true true = record {
  has1 = refl;
  has2 = refl;
  has4 = refl;
  has8 = refl;
  set1 = refl;
  set2 = refl;
  set4 = refl;
  set8 = refl;
  full = λ g. cc;
}
mask-HasBits false false true false = record {
  has1 = refl;
  has2 = refl;
  has4 = refl;
  has8 = refl;
  set1 = refl;
  set2 = refl;
  set4 = refl;
  set8 = refl;
  full = λ g. cc;
}
mask-HasBits false false false true = record {
  has1 = refl;
  has2 = refl;
  has4 = refl;
  has8 = refl;
  set1 = refl;
  set2 = refl;
  set4 = refl;
  set8 = refl;
  full = λ g. cc;
}
mask-HasBits false false false false = record {
  has1 = refl;
  has2 = refl;
  has4 = refl;
  has8 = refl;
  set1 = refl;
  set2 = refl;
  set4 = refl;
  set8 = refl;
  full = λ g. cc;
}

-- The type of an entry, and its bit.
pub kind_bit-cases :
    (k : ℕ)
    → ((k ≡ p0_boot_identity) × (kind_bit k ≡ 1))
      ⊎ (((k ≡ p0_memory_map) × (kind_bit k ≡ 2))
          ⊎ (((k ≡ p0_kernel_address) × (kind_bit k ≡ 4))
              ⊎ (((k ≡ p0_devicetree) × (kind_bit k ≡ 8))
                  ⊎ ((kind_bit k ≡ 0)
                      × (k ≢ p0_boot_identity)
                      × (k ≢ p0_memory_map)
                      × (k ≢ p0_kernel_address)
                      × (k ≢ p0_devicetree)))))
unfolding kind_bit
kind_bit-cases k = elim (Bool-cases (k == p0_boot_identity)) [
  | inl t1 ↦ let e : k ≡ p0_boot_identity = ground arith in inl (e, rw t1 refl)
  | inr f1 ↦ elim (Bool-cases (k == p0_memory_map)) [
    | inl t2 ↦ let e : k ≡ p0_memory_map = ground arith in inr (inl (e, rw (f1, t2) refl))
    | inr f2 ↦ elim (Bool-cases (k == p0_kernel_address)) [
      | inl t3 ↦
          let e : k ≡ p0_kernel_address = ground arith in inr (inr (inl (e, rw (f1, f2, t3) refl)))
      | inr f3 ↦ elim (Bool-cases (k == p0_devicetree)) [
        | inl t4 ↦
            let e : k ≡ p0_devicetree = ground arith in
            inr (inr (inr (inl (e, rw (f1, f2, f3, t4) refl))))
        | inr f4 ↦ inr (
            inr (
              inr (
                inr (
                  rw (f1, f2, f3, f4) refl,
                  (λ e. ground arith),
                  (λ e. ground arith),
                  (λ e. ground arith),
                  (λ e. ground arith),
                ))))
      ]
    ]
  ]
]
