-- ===== src/Profile/Content.antt =====
-- The contents of the entries that v2/bbp_v2_profile.c accepts, one predicate for each type.
use bear_boot.Prelude.{
  ℕ, zero, suc, ◌+◌, ◌-◌, ◌*◌, ◌^◌, ◌≤◌, ◌<◌, ◌≡◌, inl, inr, refl, sym, ◌∙◌, ◌||◌, ltb, leb, ◌==◌,
  ◌!=◌, none, some, arith, Bool-cases, Ensures, eq_of_some, ap,
}
use bear_boot.Memory.{Memory, load, IsMapped}
use bear_boot.Memory.Loads.{IsMapped-part, load-Returns}
use bear_boot.Capsule.{EntryView, get16, get32, get64}
use bear_boot.Profile.{check_identity, check_kernel_address, check_devicetree}

pub record IsIdentity (m : Memory) (architecture cpu_count : ℕ) (e : EntryView) : Type 0 where
  pub size : e.size ≡ 16
  pub architecture_is : get16 m e.base ≡ some architecture
  pub cpu_count_is : get32 m (e.base + 4) ≡ some cpu_count
  pub known : 0 < architecture
  pub last : architecture ≤ 4
  pub some_cpu : 0 < cpu_count
  pub reserved : get16 m (e.base + 2) ≡ some 0
  pub flags : get32 m (e.base + 8) ≡ some 0
  pub reserved1 : get32 m (e.base + 12) ≡ some 0

-- A region of the memory map: not empty, of a type, and below 2^64.
pub record IsRegion (m : Memory) (a : ℕ) : Type 0 where
  pub base : ℕ
  pub length : ℕ
  pub kind : ℕ
  pub base_is : get64 m a ≡ some base
  pub length_is : get64 m (a + 8) ≡ some length
  pub kind_is : get32 m (a + 16) ≡ some kind
  pub reserved : get32 m (a + 28) ≡ some 0
  pub nonempty : 0 < length
  pub bounded : base + length < 2 ^ 64
  pub typed : 0 < kind

abbrev pub AllRegions : Memory → ℕ → ℕ → Type 0
AllRegions m a zero = Unit {0}
AllRegions m a (suc n) = IsRegion m a × AllRegions m (a + 32) n

pub record IsMemoryMap (m : Memory) (count : ℕ) (e : EntryView) : Type 0 where
  pub size : e.size ≡ 8 + count * 32
  pub count_is : get32 m e.base ≡ some count
  pub entry_size : get32 m (e.base + 4) ≡ some 32
  pub nonempty : 0 < count
  pub few : count ≤ 4096
  pub regions : AllRegions m (e.base + 8) count

pub record IsKernelAddress (m : Memory) (physical virtual : ℕ) (e : EntryView) : Type 0 where
  pub size : e.size ≡ 16
  pub physical_is : get64 m e.base ≡ some physical
  pub virtual_is : get64 m (e.base + 8) ≡ some virtual
  pub placed : 0 < physical

pub record IsDevicetree (m : Memory) (dtb dtb_size : ℕ) (e : EntryView) : Type 0 where
  pub size : e.size ≡ 8 + dtb_size
  pub nonempty : 0 < dtb_size
  pub at : dtb ≡ e.base + 8
  pub flags : get32 m e.base ≡ some 0
  pub size_is : get32 m (e.base + 4) ≡ some dtb_size

first : (m : Memory) (a n k : ℕ) → IsMapped m a n → k ≤ n → IsMapped m a k
first m a n k mapped fits x u v = mapped x u (omega arith)

module _ (m : Memory) (e : EntryView) (mapped : IsMapped m e.base e.size) where
  field_at : (o n : ℕ) → o + n ≤ e.size → (v : ℕ) × (load m (e.base + o) n ≡ some v)
  field_at o n fits = load-Returns m (e.base + o) n (IsMapped-part m e.base e.size o n mapped fits)

  head : (n : ℕ) → n ≤ e.size → (v : ℕ) × (load m e.base n ≡ some v)
  head n fits = load-Returns m e.base n (first m e.base e.size n mapped fits)

  pub check_identity-IsIdentity :
      Ensures (λ o. (a c : ℕ) → o ≡ some (a, c) → IsIdentity m a c e) (check_identity m e)
  check_identity-IsIdentity = elim (Bool-cases (e.size != 16)) [
    | inl wrong ↦ (none, unfold check_identity in rw wrong refl, λ a c g. cc)
    | inr right ↦
        let size : e.size ≡ 16 = ground arith in
        let (r0, e0) = field_at 2 2 (omega (arith, size)) in
        let (f, ef) = field_at 8 4 (omega (arith, size)) in
        let (r1, e1) = field_at 12 4 (omega (arith, size)) in
        let (a, ea) = head 2 (omega (arith, size)) in
        let (c, ec) = field_at 4 4 (omega (arith, size)) in
        elim (Bool-cases ((r0 != 0) || ((f != 0) || (r1 != 0)))) [
          | inl bad ↦
              (none, unfold check_identity in rw (right, e0, ef, e1, ea, ec, bad) refl, λ x y g. cc)
          | inr zeros ↦ elim (Bool-cases ((a == 0) || (ltb 4 a || (c == 0)))) [
            | inl bad ↦ (
              none,
              unfold check_identity in rw (right, e0, ef, e1, ea, ec, zeros, bad) refl,
              λ x y g. cc,
            )
            | inr good ↦
                let null0 : r0 ≡ 0 = ground arith in
                let null : f ≡ 0 = ground arith in
                let null1 : r1 ≡ 0 = ground arith in
                let known : 0 < a = ground arith in
                let last : a ≤ 4 = ground arith in
                let cpu : 0 < c = ground arith in
                (
                  some (a, c),
                  unfold check_identity in rw (right, e0, ef, e1, ea, ec, zeros, good) refl,
                  λ x y g.
                      let same : (a, c) ≡ (x, y) = eq_of_some g in
                      let ax : a ≡ x = ap (λ p. p.0) same in
                      let cy : c ≡ y = ap (λ p. p.1) same in
                      record {
                        size = size;
                        architecture_is = ea ∙ ap some ax;
                        cpu_count_is = ec ∙ ap some cy;
                        known = omega (arith, ax, known);
                        last = omega (arith, ax, last);
                        some_cpu = omega (arith, cy, cpu);
                        reserved = e0 ∙ ap some null0;
                        flags = ef ∙ ap some null;
                        reserved1 = e1 ∙ ap some null1;
                      },
                )
          ]
        ]
  ]

  pub check_kernel_address-IsKernelAddress :
      Ensures
        (λ o. (p v : ℕ) → o ≡ some (p, v) → IsKernelAddress m p v e)
        (check_kernel_address m e)
  check_kernel_address-IsKernelAddress = elim (Bool-cases (e.size != 16)) [
    | inl wrong ↦ (none, unfold check_kernel_address in rw wrong refl, λ a c g. cc)
    | inr right ↦
        let size : e.size ≡ 16 = ground arith in
        let (p, ep) = head 8 (omega (arith, size)) in
        let (v, ev) = field_at 8 8 (omega (arith, size)) in
        elim (Bool-cases (p == 0)) [
          | inl bad ↦
              (none, unfold check_kernel_address in rw (right, ep, ev, bad) refl, λ x y g. cc)
          | inr good ↦
              let placed : 0 < p = ground arith in
              (
                some (p, v),
                unfold check_kernel_address in rw (right, ep, ev, good) refl,
                λ x y g.
                    let same : (p, v) ≡ (x, y) = eq_of_some g in
                    let px : p ≡ x = ap (λ q. q.0) same in
                    let vy : v ≡ y = ap (λ q. q.1) same in
                    record {
                      size = size;
                      physical_is = ep ∙ ap some px;
                      virtual_is = ev ∙ ap some vy;
                      placed = omega (arith, px, placed);
                    },
              )
        ]
  ]

  pub check_devicetree-IsDevicetree :
      Ensures (λ o. (d s : ℕ) → o ≡ some (d, s) → IsDevicetree m d s e) (check_devicetree m e)
  check_devicetree-IsDevicetree = elim (Bool-cases (leb e.size 8)) [
    | inl short ↦ (none, unfold check_devicetree in rw short refl, λ a c g. cc)
    | inr long ↦
        let size : 8 < e.size = ground arith in
        let (f, ef) = head 4 (omega (arith, size)) in
        let (s, es) = field_at 4 4 (omega (arith, size)) in
        elim (Bool-cases (f != 0)) [
          | inl bad ↦ (none, unfold check_devicetree in rw (long, ef, es, bad) refl, λ x y g. cc)
          | inr clear ↦ elim (Bool-cases (s != e.size - 8)) [
            | inl off ↦
                (none, unfold check_devicetree in rw (long, ef, es, clear, off) refl, λ x y g. cc)
            | inr fit ↦
                let null : f ≡ 0 = ground arith in
                let exact : e.size ≡ 8 + s = ground arith in
                (
                  some (e.base + 8, s),
                  unfold check_devicetree in rw (long, ef, es, clear, fit) refl,
                  λ x y g.
                      let same : (e.base + 8, s) ≡ (x, y) = eq_of_some g in
                      let dx : e.base + 8 ≡ x = ap (λ q. q.0) same in
                      let sy : s ≡ y = ap (λ q. q.1) same in
                      record {
                        size = omega (arith, exact, sy);
                        nonempty = omega (arith, exact, sy, size);
                        at = sym dx;
                        flags = ef ∙ ap some null;
                        size_is = es ∙ ap some sy;
                      },
                )
          ]
        ]
  ]
