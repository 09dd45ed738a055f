-- ===== src/Capsule/Build/Seal.antt =====
-- The checksum that `bbp_v2_build` of v2/bbp_v2.c writes, and all its writes together.
use bear_boot.Prelude.{
  ℕ, ◌+◌, ◌-◌, ◌*◌, ◌^◌, ◌≤◌, ◌<◌, ◌≡◌, ◌⊎◌, inl, inr, refl, ◌∙◌, some, List, arith, Ensures,
}
use bear_boot.Bytes.{IsBytes, le-le_bytes8}
use bear_boot.Memory.{Memory, IsByteMemory, IsMapped, load}
use bear_boot.Memory.Loads.{IsMapped-part, IsMapped-prefix, load_bytes-Returns, load_bytes-IsBytes}
use bear_boot.Memory.Stores.{load_bytes-Agree, store-IsStored, IsMapped-Extends}
use bear_boot.Memory.Within.{IsWithin, IsWithin-trans, IsWithin-store}
use bear_boot.Word.Bits.{bit_xor-lt}
use bear_boot.Crc.{crc64_init, crc64_update, crc64_final}
use bear_boot.Crc.Detect.{crc64_init-lt}
use bear_boot.Crc.Round.{crc64_update-lt}
use bear_boot.Capsule.{zeros, crc_with_zero_checksum}
use bear_boot.Capsule.Build.{BuildEntry, seal, data_start, write_capsule}
use bear_boot.Capsule.Build.Plan.{IsLaid, IsLaid-le, IsArray}
use bear_boot.Capsule.Build.Entry.{Apart}
use bear_boot.Capsule.Build.Emit.{
  AllMapped, AllClear, AllEmitted, AllEmitted-Agree, emit-AllEmitted,
}
use bear_boot.Capsule.Build.Header.{IsHeaded, IsHeaded-Agree, emit_header-IsHeaded}

module _ (output total : ℕ) (long : 64 ≤ total) (short : total ≤ 67108864) where
  crc-Agree :
      (m m' : Memory)
      → ((x : ℕ) → (x < output + 40) ⊎ (output + 48 ≤ x) → m' x ≡ m x)
      → crc_with_zero_checksum m' output total ≡ crc_with_zero_checksum m output total
  unfolding crc_with_zero_checksum
  crc-Agree m m' same =
      rw
        (
          load_bytes-Agree m m' output 40 (λ x p q. same x (inl q)),
          load_bytes-Agree m m' (output + 48) (total - 48) (λ x p q. same x (inr p)),
        )
        refl

  crc_with_zero_checksum-lt :
      (m : Memory)
      → IsMapped m output total
      → IsByteMemory m
      → Ensures (λ c. c < 2 ^ 64) (crc_with_zero_checksum m output total)
  unfolding crc_with_zero_checksum crc64_final
  crc_with_zero_checksum-lt m mapped bytes =
      let (head, eh) =
        load_bytes-Returns m output 40 (IsMapped-prefix m output total 40 mapped (omega arith)) in
      let (tail, et) =
        load_bytes-Returns m (output + 48) (total - 48)
          (IsMapped-part m output total 48 (total - 48) mapped (omega (arith, long))) in
      let c1 =
        crc64_update-lt head crc64_init (load_bytes-IsBytes m output 40 head bytes eh)
          crc64_init-lt in
      let c2 = crc64_update-lt zeros (crc64_update crc64_init head) zeros-IsBytes c1 in
      let c3 =
        crc64_update-lt tail (crc64_update (crc64_update crc64_init head) zeros)
          (load_bytes-IsBytes m (output + 48) (total - 48) tail bytes et) c2 in
      (
        crc64_final (crc64_update (crc64_update (crc64_update crc64_init head) zeros) tail),
        rw (eh, et) refl,
        bit_xor-lt 64 _ _ c3 (omega arith),
      )
    where
      zeros-IsBytes : IsBytes zeros
      zeros-IsBytes = (
        omega arith,
        (
          omega arith,
          (
            omega arith,
            (omega arith, (omega arith, (omega arith, (omega arith, (omega arith, tt))))),
          ),
        ),
      )

  -- The checksum is in its field, and holds for what is there.
  seal-IsSealed :
      (m : Memory)
      → IsMapped m output total
      → IsByteMemory m
      → (m' : Memory) × (seal m output total ≡ some m')
        × IsWithin output total m m'
        × ((x : ℕ) → (x < output + 40) ⊎ (output + 48 ≤ x) → m' x ≡ m x)
        × ((crc : ℕ) × (crc_with_zero_checksum m' output total ≡ some crc)
            × (load m' (output + 40) 8 ≡ some crc))
  unfolding seal
  seal-IsSealed m mapped bytes =
      let (crc, e, small) = crc_with_zero_checksum-lt m mapped bytes in
      let (m', e', s) =
        store-IsStored m (output + 40) 8 crc (λ x p q. mapped x (omega arith) (omega arith)) in
      let same : (x : ℕ) → (x < output + 40) ⊎ (output + 48 ≤ x) → m' x ≡ m x =
        λ x h. s.same x (past x h) in
      (
        m',
        rw e e',
        IsWithin-store output total m m' (output + 40) 8 crc s (omega arith) (omega arith),
        same,
        (crc, crc-Agree m m' same ∙ e, s.back (le-le_bytes8 crc small)),
      )
    where
      past :
          (x : ℕ)
          → (x < output + 40) ⊎ (output + 48 ≤ x)
          → (x < output + 40) ⊎ (output + 40 + 8 ≤ x)
      past x (inl h) = inl h
      past x (inr h) = inr (omega arith)

-- A capsule of these entries is at `output`: its header, the entries, whose payloads are what their
-- sources held, and the checksum of the whole.
pub record IsCapsule (m m' : Memory) (output count : ℕ) (es : List BuildEntry) (total : ℕ)
    : Type 0 where
  pub headed : IsHeaded m' output count total
  pub emitted : AllEmitted m m' output 0 count es (64 + count * 48) total
  pub checksum : ℕ
  pub computed : crc_with_zero_checksum m' output total ≡ some checksum
  pub stored : load m' (output + 40) 8 ≡ some checksum

pub write_capsule-IsCapsule :
    (m : Memory) (output total entries n : ℕ) (es : List BuildEntry)
    → IsByteMemory m
    → total ≤ 67108864
    → n ≤ 1024
    → IsMapped m output total
    → IsArray m entries 0 n es
    → Apart entries (n * 40) output total
    → AllMapped m n es
    → AllClear output total n es
    → IsLaid n es (64 + n * 48) total
    → (m' : Memory) × (write_capsule m output entries n total ≡ some m')
      × IsWithin output total m m'
      × IsCapsule m m' output n es total
unfolding write_capsule
write_capsule-IsCapsule m output total entries n es bytes short few mapped arr apart sources clear
      laid =
    let end = IsLaid-le n es (64 + n * 48) total laid in
    let long : 64 ≤ total = omega (arith, end) in
    let (m1, e1, w1, headed) = emit_header-IsHeaded output total long short m n mapped few in
    let mapped1 = IsMapped-Extends m m1 output total w1.extends mapped in
    let first : 0 + n ≡ n = omega arith in
    let (m2, e2, w2, all, same2) =
      emit-AllEmitted m output total entries bytes short n es 0 (data_start n) m1 mapped1 w1 arr
        (rw first apart) sources clear laid (omega arith) in
    let w02 = IsWithin-trans output total m m1 m2 w1 w2 in
    let (m3, e3, w3, same3, (crc, computed, stored)) =
      seal-IsSealed output total long short m2
        (IsMapped-Extends m1 m2 output total w2.extends mapped1) (w02.bytes bytes) in
    (
      m3,
      rw (e1, e2) e3,
      IsWithin-trans output total m m2 m3 w02 w3,
      record {
        headed =
            IsHeaded-Agree m1 m3 output n total
              (λ x p q. same3 x (inl q) ∙ same2 x (inl (omega arith)) (inl (omega arith))) headed;
        emitted =
            AllEmitted-Agree m m2 m3 output 0 n es (64 + n * 48) total
              (λ x p q. same3 x (inr (omega arith))) (omega arith) all;
        checksum = crc;
        computed = computed;
        stored = stored;
      },
    )
