-- ===== src/Profile/Sound.antt =====
-- What `bbp_v2_p0_validate` of v2/bbp_v2_profile.c accepts.
use bear_boot.Prelude.{
  ℕ, zero, suc, ◌+◌, ◌≡◌, ◌≢◌, ◌⊎◌, inl, inr, refl, sym, ap, ◌∙◌, Bool, true, false, ◌!=◌, Option,
  none, some, arith, Bool-cases, Ensures, eq_of_some, subst,
}
use bear_boot.Memory.{Memory, IsByteMemory, IsMapped}
use bear_boot.Memory.Loads.{IsMapped-part}
use bear_boot.Capsule.{CapsuleStatus, ok, err_format, View, EntryView}
use bear_boot.Capsule.Entry.{get_entry}
use bear_boot.Capsule.Entry.Inside.{get_entry-IsGot}
use bear_boot.Capsule.Status.{CapsuleStatus-ok, proceed-stop}
use bear_boot.Profile.{
  p0_boot_identity, p0_memory_map, p0_kernel_address, p0_devicetree, P0View, with_identity,
  with_memory_map, with_kernel_address, with_devicetree, check_content, blank_entry, blank_result,
  p0_loop, p0_validate,
}
use bear_boot.Profile.Content.{
  IsIdentity, IsMemoryMap, IsKernelAddress, IsDevicetree, check_identity-IsIdentity,
  check_kernel_address-IsKernelAddress, check_devicetree-IsDevicetree,
}
use bear_boot.Profile.Regions.{check_memory_map-IsMemoryMap}
use bear_boot.Profile.Slot.{IsAt, IsOther, Slot-skip, Slot-fill, IsAt-IsOther}
use bear_boot.Profile.Mask.{mask, mask-HasBits, kind_bit-cases}
use bear_boot.Profile.Round.{Goal, IsSeen, finish, p0_loop-refused, p0_loop-unknown}

-- What a validation means: refused, and `*out` is as before; or accepted, with a result such that
-- the directory has exactly one entry of each of the four types, whose content is the result.
abbrev pub IsValidated : Memory → View → Option P0View → CapsuleStatus × Option P0View → Type 0
IsValidated m view before r =
    ((r.0 ≢ ok) × (r.1 ≡ before))
    ⊎ ((r.0 ≡ ok)
        × (result : P0View) × (r.1 ≡ some result)
        × IsSeen m view view.entry_count result true true true true)

module _ (m : Memory) (view : View) (bytes : IsByteMemory m)
    (mapped : IsMapped m view.base view.total_size) where
  module _ (n : ℕ) (e : EntryView) (g : IsAt m view n e) {result : P0View} {a b c d : Bool}
      (seen : IsSeen m view n result a b c d) where
    -- The three types that the entry is not of.
    others : (k k' : ℕ) → e.kind ≡ k → k ≢ k' → IsOther m view k' n
    others k k' same apart = IsAt-IsOther m view k k' n e g same apart

    IsSeen-identity :
        (o : Option (ℕ × ℕ)) (result' : P0View)
        → ((x y : ℕ) → o ≡ some (x, y) → IsIdentity m x y e)
        → e.kind ≡ p0_boot_identity
        → a ≡ false
        → with_identity result o ≡ some result'
        → IsSeen m view (n + 1) result' true b c d
    IsSeen-identity none result' is same new r = absurd (cc)
    IsSeen-identity (some (x, y)) result' is same new r =
        subst (λ t. IsSeen m view (n + 1) t true b c d) (eq_of_some r)
          (record {
            identity =
                Slot-fill m view p0_boot_identity _ (IsIdentity m x y) n a e new g same
                  (is x y refl) seen.identity;
            memory_map =
                Slot-skip m view p0_memory_map _ n b (others _ _ same (λ q. ground arith))
                  seen.memory_map;
            kernel_address =
                Slot-skip m view p0_kernel_address _ n c (others _ _ same (λ q. ground arith))
                  seen.kernel_address;
            devicetree =
                Slot-skip m view p0_devicetree _ n d (others _ _ same (λ q. ground arith))
                  seen.devicetree;
          })

    IsSeen-memory_map :
        (o : Option (ℕ)) (result' : P0View)
        → ((x : ℕ) → o ≡ some x → IsMemoryMap m x e)
        → e.kind ≡ p0_memory_map
        → b ≡ false
        → with_memory_map result o ≡ some result'
        → IsSeen m view (n + 1) result' a true c d
    IsSeen-memory_map none result' is same new r = absurd (cc)
    IsSeen-memory_map (some x) result' is same new r =
        subst (λ t. IsSeen m view (n + 1) t a true c d) (eq_of_some r)
          (record {
            identity =
                Slot-skip m view p0_boot_identity _ n a (others _ _ same (λ q. ground arith))
                  seen.identity;
            memory_map =
                Slot-fill m view p0_memory_map _ (IsMemoryMap m x) n b e new g same (is x refl)
                  seen.memory_map;
            kernel_address =
                Slot-skip m view p0_kernel_address _ n c (others _ _ same (λ q. ground arith))
                  seen.kernel_address;
            devicetree =
                Slot-skip m view p0_devicetree _ n d (others _ _ same (λ q. ground arith))
                  seen.devicetree;
          })

    IsSeen-kernel_address :
        (o : Option (ℕ × ℕ)) (result' : P0View)
        → ((x y : ℕ) → o ≡ some (x, y) → IsKernelAddress m x y e)
        → e.kind ≡ p0_kernel_address
        → c ≡ false
        → with_kernel_address result o ≡ some result'
        → IsSeen m view (n + 1) result' a b true d
    IsSeen-kernel_address none result' is same new r = absurd (cc)
    IsSeen-kernel_address (some (x, y)) result' is same new r =
        subst (λ t. IsSeen m view (n + 1) t a b true d) (eq_of_some r)
          (record {
            identity =
                Slot-skip m view p0_boot_identity _ n a (others _ _ same (λ q. ground arith))
                  seen.identity;
            memory_map =
                Slot-skip m view p0_memory_map _ n b (others _ _ same (λ q. ground arith))
                  seen.memory_map;
            kernel_address =
                Slot-fill m view p0_kernel_address _ (IsKernelAddress m x y) n c e new g same
                  (is x y refl) seen.kernel_address;
            devicetree =
                Slot-skip m view p0_devicetree _ n d (others _ _ same (λ q. ground arith))
                  seen.devicetree;
          })

    IsSeen-devicetree :
        (o : Option (ℕ × ℕ)) (result' : P0View)
        → ((x y : ℕ) → o ≡ some (x, y) → IsDevicetree m x y e)
        → e.kind ≡ p0_devicetree
        → d ≡ false
        → with_devicetree result o ≡ some result'
        → IsSeen m view (n + 1) result' a b c true
    IsSeen-devicetree none result' is same new r = absurd (cc)
    IsSeen-devicetree (some (x, y)) result' is same new r =
        subst (λ t. IsSeen m view (n + 1) t a b c true) (eq_of_some r)
          (record {
            identity =
                Slot-skip m view p0_boot_identity _ n a (others _ _ same (λ q. ground arith))
                  seen.identity;
            memory_map =
                Slot-skip m view p0_memory_map _ n b (others _ _ same (λ q. ground arith))
                  seen.memory_map;
            kernel_address =
                Slot-skip m view p0_kernel_address _ n c (others _ _ same (λ q. ground arith))
                  seen.kernel_address;
            devicetree =
                Slot-fill m view p0_devicetree _ (IsDevicetree m x y) n d e new g same (is x y refl)
                  seen.devicetree;
          })

    IsSeen-skip :
        e.kind ≢ p0_boot_identity
        → e.kind ≢ p0_memory_map
        → e.kind ≢ p0_kernel_address
        → e.kind ≢ p0_devicetree
        → IsSeen m view (n + 1) result a b c d
    IsSeen-skip n1 n2 n3 n4 = record {
      identity = Slot-skip m view p0_boot_identity _ n a (unknown _ n1) seen.identity;
      memory_map = Slot-skip m view p0_memory_map _ n b (unknown _ n2) seen.memory_map;
      kernel_address = Slot-skip m view p0_kernel_address _ n c (unknown _ n3) seen.kernel_address;
      devicetree = Slot-skip m view p0_devicetree _ n d (unknown _ n4) seen.devicetree;
    }
      where
        unknown : (k : ℕ) → e.kind ≢ k → IsOther m view k n
        unknown k apart x h bad =
            let one : (ok, some e) ≡ (ok, some x) = eq_of_some (sym g ∙ h) in
            let this : e ≡ x = eq_of_some (ap (λ p. p.1) one) in apart (ap (λ v. v.kind) this ∙ bad)

  published-IsAt :
      (n : ℕ) (r : CapsuleStatus × Option EntryView) (e : EntryView)
      → get_entry m (some view) n (some blank_entry) ≡ some r
      → r.0 ≡ ok
      → r.1 ≡ some e
      → IsAt m view n e
  published-IsAt n (status, got) e h good published = rw (good, published) at h

  p0_loop_sound :
      (left n : ℕ) (result : P0View) (a b c d : Bool)
      → n + left ≡ view.entry_count
      → IsSeen m view n result a b c d
      → Ensures (Goal m view view.entry_count) (p0_loop m view left n (mask a b c d) result)
  p0_loop_sound zero n result a b c d len seen = elim (Bool-cases (mask a b c d != 15)) [
    | inl few ↦ ((err_format, result), unfold p0_loop in rw few refl, λ g. cc)
    | inr full ↦
        let (a1, b1, c1, d1) = (mask-HasBits a b c d).full full in
        let last : n ≡ view.entry_count = omega (arith, len) in
        (
          (ok, result),
          unfold p0_loop in rw full refl,
          λ _.
              subst (λ t. IsSeen m view t result true true true true) last
                (rw (a1, b1, c1, d1) at seen),
        )
  ]
  p0_loop_sound (suc left) n result a b c d len seen =
      let (got, eg, is) = get_entry-IsGot m view n blank_entry mapped in
      let count : n + 1 + left ≡ view.entry_count = omega (arith, len) in
      elim is [
        | inl refused ↦ (
          (got.0, result),
          p0_loop-refused m view left n (mask a b c d) result eg refused.1,
          λ q. absurd (refused.1 q),
        )
        | inr (good, e, published, (sane, below, fields, inside)) ↦
            let g = published-IsAt n got e eg good published in
            let there : IsMapped m e.base e.size =
              subst (λ t. IsMapped m t e.size) (sym fields.based)
                (IsMapped-part m view.base view.total_size e.offset e.size mapped inside) in
            let t = mask-HasBits a b c d in
            let done =
              finish m view (Goal m view view.entry_count) (λ r q. cc) left n (mask a b c d) in
            elim (kind_bit-cases e.kind) [
              | inl (same, bit) ↦
                  let (o, eo, k) = check_identity-IsIdentity m e there in
                  done (mask true b c d) 1 result e a (with_identity result o) g bit refl t.has1
                    t.set1 (unfold check_content in rw eo refl)
                    (λ new r q.
                      p0_loop_sound left (n + 1) r true b c d count
                        (IsSeen-identity n e g seen o r k same new q))
              | inr (inl (same, bit)) ↦
                  let (o, eo, k) = check_memory_map-IsMemoryMap m e bytes there in
                  done (mask a true c d) 2 result e b (with_memory_map result o) g bit refl t.has2
                    t.set2 (unfold check_content in rw eo refl)
                    (λ new r q.
                      p0_loop_sound left (n + 1) r a true c d count
                        (IsSeen-memory_map n e g seen o r k same new q))
              | inr (inr (inl (same, bit))) ↦
                  let (o, eo, k) = check_kernel_address-IsKernelAddress m e there in
                  done (mask a b true d) 4 result e c (with_kernel_address result o) g bit refl
                    t.has4 t.set4 (unfold check_content in rw eo refl)
                    (λ new r q.
                      p0_loop_sound left (n + 1) r a b true d count
                        (IsSeen-kernel_address n e g seen o r k same new q))
              | inr (inr (inr (inl (same, bit)))) ↦
                  let (o, eo, k) = check_devicetree-IsDevicetree m e there in
                  done (mask a b c true) 8 result e d (with_devicetree result o) g bit refl t.has8
                    t.set8 (unfold check_content in rw eo refl)
                    (λ new r q.
                      p0_loop_sound left (n + 1) r a b c true count
                        (IsSeen-devicetree n e g seen o r k same new q))
              | inr (inr (inr (inr (null, n1, n2, n3, n4)))) ↦
                  let (r, er, q) =
                    p0_loop_sound left (n + 1) result a b c d count
                      (IsSeen-skip n e g seen n1 n2 n3 n4) in
                  (r, p0_loop-unknown m view left n (mask a b c d) result g null ∙ er, q)
            ]
      ]

  -- `bbp_v2_p0_validate`, of whatever view whose bytes are mapped in a memory of bytes, returns. It
  -- refuses with an error and leaves `*out` as it was; or the directory has exactly one entry of
  -- each of the four types of the profile, each with the content that the profile wants: a known
  -- architecture and a processor; 1 to 4096 regions, not empty and below 2^64; a physical base; a
  -- device tree of the rest of the entry. `*out` has the values of these entries.
  pub p0_validate-IsValidated :
      (before : P0View)
      → Ensures (IsValidated m view (some before)) (p0_validate m (some view) (some before))
  p0_validate-IsValidated before =
      let ((status, result), e, k) =
        p0_loop_sound view.entry_count 0 blank_result false false false false (omega arith)
          (record {
            identity = λ j u. absurd (omega arith);
            memory_map = λ j u. absurd (omega arith);
            kernel_address = λ j u. absurd (omega arith);
            devicetree = λ j u. absurd (omega arith);
          }) in
      elim (CapsuleStatus-ok status) [
        | inr bad ↦ (
          (status, some before),
          unfold p0_validate in rw e (proceed-stop status _ _ bad),
          inl (bad, refl),
        )
        | inl good ↦ (
          (ok, some result),
          unfold p0_validate in rw (e, good) refl,
          inr (refl, result, refl, k good),
        )
      ]
