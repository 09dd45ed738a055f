-- ===== src/Capsule/Build/Header.antt =====
-- The header that `bbp_v2_build` of v2/bbp_v2.c writes.
use bear_boot.Prelude.{ℕ, zero, suc, ◌≤◌, ◌≡◌, refl, ap, ◌∙◌, some, List, [], ◌∷◌, arith, length}
use bear_boot.Bytes.{IsBytes, le-le_bytes2, le-le_bytes4, le-le_bytes8}
use bear_boot.Memory.{Memory, IsMapped, load_bytes}
use bear_boot.Memory.Stores.{Agree, load_bytes-Agree, store_bytes-IsStored, IsMapped-Extends}
use bear_boot.Memory.Within.{IsWithin, IsWithin-refl, IsWithin-trans, IsWithin-widen}
use bear_boot.Memory.Fields.{AllHold, AllHold-Agree, put_fields-AllSet}
use bear_boot.Capsule.{magic, zeros}
use bear_boot.Capsule.Build.{zero_bytes, header_fields, emit_header}

zero_bytes-IsBytes : (n : ℕ) → IsBytes (zero_bytes n) × (length (zero_bytes n) ≡ n)
unfolding zero_bytes
zero_bytes-IsBytes zero = (tt, refl)
zero_bytes-IsBytes (suc n) = let (is, len) = zero_bytes-IsBytes n in ((omega arith, is), ap suc len)

magic-IsBytes : IsBytes magic
magic-IsBytes = (
  omega arith,
  (
    omega arith,
    (omega arith, (omega arith, (omega arith, (omega arith, (omega arith, (omega arith, tt)))))),
  ),
)

-- The header's fields, in the layout of the format.
abbrev pub header_slots : ℕ → ℕ → List (ℕ × ℕ × ℕ)
header_slots count total =
    (8, 2, 2)
    ∷ (10, 2, 0)
    ∷ (12, 2, 64)
    ∷ (14, 2, 48)
    ∷ (16, 4, 0)
    ∷ (20, 4, count)
    ∷ (24, 8, total)
    ∷ (32, 8, 64)
    ∷ []

-- The magic and the header of a capsule with `count` entries in `total` bytes.
pub record IsHeaded (m : Memory) (output count total : ℕ) : Type 0 where
  pub magic_is : load_bytes m output 8 ≡ some magic
  pub fields : AllHold m output (header_slots count total)

pub IsHeaded-Agree :
    (m m' : Memory) (output count total : ℕ)
    → Agree m m' output 40
    → IsHeaded m output count total
    → IsHeaded m' output count total
IsHeaded-Agree m m' output count total agree h = record {
  magic_is = load_bytes-Agree m m' output 8 (λ x p q. agree x p (omega arith)) ∙ h.magic_is;
  fields =
      AllHold-Agree m m' output 0 40 (header_slots count total) (λ x p q. agree x (omega arith) q)
        (
          omega arith,
          omega arith,
          (
            omega arith,
            omega arith,
            (
              omega arith,
              omega arith,
              (
                omega arith,
                omega arith,
                (
                  omega arith,
                  omega arith,
                  (
                    omega arith,
                    omega arith,
                    (omega arith, omega arith, (omega arith, omega arith, tt)),
                  ),
                ),
              ),
            ),
          ),
        )
        h.fields;
}

module _ (output total : ℕ) (long : 64 ≤ total) (short : total ≤ 67108864) where
  pub emit_header-IsHeaded :
      (m : Memory) (count : ℕ)
      → IsMapped m output total
      → count ≤ 1024
      → (m' : Memory) × (emit_header m output count total ≡ some m')
        × IsWithin output total m m'
        × IsHeaded m' output count total
  unfolding emit_header header_fields
  emit_header-IsHeaded m count mapped few =
      let (zeros, len) = zero_bytes-IsBytes total in
      let (m1, e1, _, same1, ext1, bytes1) =
        store_bytes-IsStored m output (zero_bytes total)
          (λ x p q. mapped x p (omega (arith, q, len))) zeros in
      let w1 : IsWithin output total m m1 =
        IsWithin-widen output total output (length (zero_bytes total)) m m1 (omega arith)
          (omega (arith, len)) (record { outside = same1; extends = ext1; bytes = bytes1 }) in
      let mapped1 = IsMapped-Extends m m1 output total w1.extends mapped in
      let (m2, e2, back2, same2, ext2, bytes2) =
        store_bytes-IsStored m1 output magic (λ x p q. mapped1 x p (omega arith)) magic-IsBytes in
      let w2 : IsWithin output total m1 m2 =
        IsWithin-widen output total output 8 m1 m2 (omega arith) (omega arith)
          (record { outside = same2; extends = ext2; bytes = bytes2 }) in
      let mapped2 = IsMapped-Extends m1 m2 output total w2.extends mapped1 in
      let (m3, e3, w3, same3, set) =
        put_fields-AllSet m2 output 40 8 (header_fields count total)
          (2 ∷ 0 ∷ 64 ∷ 48 ∷ 0 ∷ count ∷ total ∷ 64 ∷ []) m2 (λ x p q. mapped2 x p (omega arith))
          (IsWithin-refl output 40 m2)
          (
            omega arith,
            omega arith,
            le-le_bytes2 2 (omega arith),
            (λ m v. refl),
            (
              omega arith,
              omega arith,
              le-le_bytes2 0 (omega arith),
              (λ m v. refl),
              (
                omega arith,
                omega arith,
                le-le_bytes2 64 (omega arith),
                (λ m v. refl),
                (
                  omega arith,
                  omega arith,
                  le-le_bytes2 48 (omega arith),
                  (λ m v. refl),
                  (
                    omega arith,
                    omega arith,
                    le-le_bytes4 0 (omega arith),
                    (λ m v. refl),
                    (
                      omega arith,
                      omega arith,
                      le-le_bytes4 count (omega arith),
                      (λ m v. refl),
                      (
                        omega arith,
                        omega arith,
                        le-le_bytes8 total (omega arith),
                        (λ m v. refl),
                        (
                          omega arith,
                          omega arith,
                          le-le_bytes8 64 (omega arith),
                          (λ m v. refl),
                          omega arith,
                        ),
                      ),
                    ),
                  ),
                ),
              ),
            ),
          ) in
      (
        m3,
        rw (e1, e2) e3,
        IsWithin-trans output total m m1 m3 w1 (
            IsWithin-trans output total m1 m2 m3 w2
              (IsWithin-widen output total output 40 m2 m3 (omega arith) (omega arith) w3)),
        record {
          magic_is = load_bytes-Agree m2 m3 output 8 (λ x p q. same3 x q) ∙ back2;
          fields = set;
        },
      )
