-- ===== src/Profile/Round.antt =====
-- One round of the loop in v2/bbp_v2_profile.c.
use bear_boot.Prelude.{
  ℕ, suc, ◌+◌, ◌≡◌, ◌≢◌, inl, inr, refl, sym, ◌∙◌, Bool, true, false, ◌||◌, ◌==◌, ◌!=◌,
  if◌then◌else◌, bit_and, bit_or, Option, none, some, Bool-cases, Ensures, subst,
}
use bear_boot.Memory.{Memory}
use bear_boot.Capsule.{CapsuleStatus, ok, err_format, View, EntryView}
use bear_boot.Capsule.Entry.{get_entry}
use bear_boot.Capsule.Status.{proceed-stop}
use bear_boot.Profile.{
  p0_boot_identity, p0_memory_map, p0_kernel_address, p0_devicetree, P0View, kind_bit,
  check_content, blank_entry, p0_loop,
}
use bear_boot.Profile.Content.{IsIdentity, IsMemoryMap, IsKernelAddress, IsDevicetree}
use bear_boot.Profile.Slot.{IsAt, Slot}

-- The entries below `n`, and the result so far.
pub record IsSeen (m : Memory) (view : View) (n : ℕ) (result : P0View) (a b c d : Bool)
    : Type 0 where
  pub identity :
      Slot m view p0_boot_identity (IsIdentity m result.architecture result.cpu_count) n a
  pub memory_map : Slot m view p0_memory_map (IsMemoryMap m result.memory_entry_count) n b
  pub kernel_address :
      Slot m view p0_kernel_address
        (IsKernelAddress m result.kernel_physical_base result.kernel_virtual_base)
        n
        c
  pub devicetree : Slot m view p0_devicetree (IsDevicetree m result.dtb result.dtb_size) n d

module _ (m : Memory) (view : View) where
  abbrev pub Goal : ℕ → CapsuleStatus × P0View → Type 0
  Goal n r = r.0 ≡ ok → IsSeen m view n r.1 true true true true

  pub p0_loop-refused :
      (left n seen : ℕ) (result : P0View) {status : CapsuleStatus} {got : Option EntryView}
      → get_entry m (some view) n (some blank_entry) ≡ some (status, got)
      → status ≢ ok
      → p0_loop m view (suc left) n seen result ≡ some (status, result)
  unfolding p0_loop
  p0_loop-refused left n seen result e bad = rw e (proceed-stop _ _ _ bad)

  pub p0_loop-unknown :
      (left n seen : ℕ) (result : P0View) {e : EntryView}
      → IsAt m view n e
      → kind_bit e.kind ≡ 0
      → p0_loop m view (suc left) n seen result ≡ p0_loop m view left (n + 1) seen result
  unfolding p0_loop
  p0_loop-unknown left n seen result g null = rw (g, null) refl

  abbrev branch :
      ℕ → ℕ → ℕ → P0View → EntryView → Option P0View → ℕ → Option (CapsuleStatus × P0View)
  branch left n seen result e next bit =
      if (bit_and seen bit != 0) || ((e.version != 1) || (e.flags != 0))
      then some (err_format, result)
      else elim next [
        | none ↦ some (err_format, result)
        | some result' ↦ p0_loop m view left (n + 1) (bit_or seen bit) result'
      ]

  p0_loop-known :
      (left n seen bit : ℕ) (result : P0View) {e : EntryView} {next : Option P0View}
      → IsAt m view n e
      → kind_bit e.kind ≡ bit
      → (bit == 0) ≡ false
      → check_content m e bit result ≡ some next
      → p0_loop m view (suc left) n seen result ≡ branch left n seen result e next bit
  p0_loop-known left n seen bit result {e} {next} g b =
      subst
        (λ t.
          (t == 0) ≡ false
          → check_content m e t result ≡ some next
          → p0_loop m view (suc left) n seen result ≡ branch left n seen result e next t)
        b (λ known c. unfold p0_loop in rw (g, known, c) refl)

  module _ (Q : CapsuleStatus × P0View → Type 0)
      (Q_format : (result : P0View) → Q (err_format, result)) where
    -- An entry of a known type: the type is new, and its content is accepted; or the loop stops.
    pub finish :
        (left n seen seen' bit : ℕ) (result : P0View) (e : EntryView) (f : Bool)
        (next : Option P0View)
        → IsAt m view n e
        → kind_bit e.kind ≡ bit
        → (bit == 0) ≡ false
        → (bit_and seen bit != 0) ≡ f
        → bit_or seen bit ≡ seen'
        → check_content m e bit result ≡ some next
        → (f ≡ false
            → (result' : P0View) → next ≡ some result'
            → Ensures Q (p0_loop m view left (n + 1) seen' result'))
        → Ensures Q (p0_loop m view (suc left) n seen result)
    finish left n seen seen' bit result e f none g b known has set c go =
        let step = p0_loop-known left n seen bit result g b known c in
        elim (Bool-cases ((bit_and seen bit != 0) || ((e.version != 1) || (e.flags != 0)))) [
          | inl bad ↦ ((err_format, result), step ∙ (rw bad refl), Q_format result)
          | inr good ↦ ((err_format, result), step ∙ (rw good refl), Q_format result)
        ]
    finish left n seen seen' bit result e f (some result') g b known has set c go =
        let step = p0_loop-known left n seen bit result g b known c in
        elim (Bool-cases ((bit_and seen bit != 0) || ((e.version != 1) || (e.flags != 0)))) [
          | inl bad ↦ ((err_format, result), step ∙ (rw bad refl), Q_format result)
          | inr good ↦
              let new : (bit_and seen bit != 0) ≡ false =
                first_false (bit_and seen bit != 0) _ good in
              let (r, er, q) = go (sym has ∙ new) result' refl in (r, step ∙ (rw (good, set) er), q)
        ]
      where
        first_false : (x y : Bool) → (x || y) ≡ false → x ≡ false
        first_false true y h = absurd (cc)
        first_false false y h = refl
