-- ===== src/Bridge/Arrays.antt =====
-- The tags of bridge/bbp_bridge.c with layouts of their own: the memory map, the boot phases, the
-- PCIe devices and the displays.
use bear_boot.Prelude.{
  ℕ, ◌+◌, ◌*◌, ◌≤◌, ◌<◌, ◌≡◌, inl, inr, refl, ap, sym, ◌∙◌, true, ltb, ◌!=◌, some, [], ◌∷◌, arith,
  Bool-cases, Ensures, eq_of_some, subst,
}
use bear_boot.Memory.{Memory, IsMapped}
use bear_boot.Bridge.{
  malformed, self_contained, external, array_fits, memory_map_references, framebuffer_references,
  pcie_references, metrics_references,
}
use bear_boot.Bridge.Shape.{map, displays, devices, phases, Holds, IsVerdict}
use bear_boot.Bridge.Bounds.{
  any_set-Decides, array_fits-le, array_fits-not, field-Returns, too_many, elements-Decides,
}

module _ (m : Memory) (tag size : ℕ) (mapped : IsMapped m tag size) where
  pub memory_map-IsVerdict : Ensures (IsVerdict m tag size map) (memory_map_references m tag size)
  unfolding memory_map_references
  memory_map-IsVerdict = elim (Bool-cases (ltb size 40)) [
    | inl short ↦ (malformed, rw short refl, inl (refl, λ h. off short h.0))
    | inr long ↦
        let whole : 40 ≤ size = ground arith in
        let (count, ec) = field-Returns m tag size mapped 32 4 (omega (arith, whole)) in
        let (stride, es) = field-Returns m tag size mapped 36 4 (omega (arith, whole)) in
        elim (Bool-cases (ltb stride 32)) [
          | inl thin ↦ (
            malformed,
            rw (long, ec, es, thin) refl,
            inl (refl, λ (_, c, s, _, f, g, _). thin_not stride s thin (eq_of_some (sym es ∙ f)) g),
          )
          | inr wide ↦
              let pos : 0 < stride = ground arith in
              elim (Bool-cases (array_fits size 40 count stride)) [
                | inr over ↦ (
                  malformed,
                  rw (long, ec, es, wide, over) refl,
                  inl (
                    refl,
                    λ (_, c, s, e, f, _, g). array_fits-not size 40 count stride pos over (
                        subst (λ t. 40 + t * stride ≤ size) (sym (eq_of_some (sym ec ∙ e)))
                          (subst (λ t. 40 + c * t ≤ size) (sym (eq_of_some (sym es ∙ f))) g)),
                  ),
                )
                | inl fits ↦ (
                  self_contained,
                  rw (long, ec, es, wide, fits) refl,
                  inr (
                    (
                      whole,
                      count,
                      stride,
                      ec,
                      es,
                      ground arith,
                      array_fits-le size 40 count stride pos fits,
                    ),
                    inr (refl, tt),
                  ),
                )
              ]
        ]
  ]
    where
      off : ltb size 40 ≡ true → 40 ≤ size → ⊥
      off short whole = ground arith

      thin_not : (stride s : ℕ) → ltb stride 32 ≡ true → stride ≡ s → 32 ≤ s → ⊥
      thin_not stride s thin e g = ground arith

  pub metrics-IsVerdict : Ensures (IsVerdict m tag size phases) (metrics_references m tag size)
  unfolding metrics_references
  metrics-IsVerdict = elim (Bool-cases (ltb size 72)) [
    | inl short ↦ (malformed, rw short refl, inl (refl, λ h. off short h.0))
    | inr long ↦
        let whole : 72 ≤ size = ground arith in
        let (count, ec) = field-Returns m tag size mapped 40 4 (omega (arith, whole)) in
        elim (Bool-cases (array_fits size 72 count 56)) [
          | inr over ↦ (
            malformed,
            rw (long, ec, over) refl,
            inl (refl, too_many m tag size mapped 72 40 4 56 (omega arith) ec over),
          )
          | inl fits ↦ (
            self_contained,
            rw (long, ec, fits) refl,
            inr (
              (whole, count, ec, array_fits-le size 72 count 56 (omega arith) fits),
              inr (refl, tt),
            ),
          )
        ]
  ]
    where
      off : ltb size 72 ≡ true → 72 ≤ size → ⊥
      off short whole = ground arith

  pub pcie-IsVerdict : Ensures (IsVerdict m tag size devices) (pcie_references m tag size)
  unfolding pcie_references
  pcie-IsVerdict = elim (Bool-cases (ltb size 48)) [
    | inl short ↦ (malformed, rw short refl, inl (refl, λ h. off short h.0))
    | inr long ↦
        let whole : 48 ≤ size = ground arith in
        let (count, ec) = field-Returns m tag size mapped 40 4 (omega (arith, whole)) in
        elim (Bool-cases (array_fits size 48 count 168)) [
          | inr over ↦ (
            malformed,
            rw (long, ec, over) refl,
            inl (refl, too_many m tag size mapped 48 40 4 168 (omega arith) ec over),
          )
          | inl fits ↦
              let holds : Holds m tag size 48 40 4 168 =
                (whole, count, ec, array_fits-le size 48 count 168 (omega arith) fits) in
              let (set, es, d) =
                any_set-Decides m tag size (32 ∷ []) mapped (omega (arith, whole), tt) in
              elim d [
                | inl t ↦
                    (external, rw (long, ec, fits, es, t.0) refl, inr (holds, inl (refl, inl t.1)))
                | inr f ↦ elim (Bool-cases (count != 0)) [
                  | inl some_devices ↦ (
                    external,
                    rw (long, ec, fits, es, f.0, some_devices) refl,
                    inr (holds, inl (refl, inr (count, ec, λ z. ground arith))),
                  )
                  | inr no_devices ↦
                      let null : count ≡ 0 = ground arith in
                      (
                        self_contained,
                        rw (long, ec, fits, es, f.0, no_devices) refl,
                        inr (holds, inr (refl, (f.1, ec ∙ ap some null))),
                      )
                ]
              ]
        ]
  ]
    where
      off : ltb size 48 ≡ true → 48 ≤ size → ⊥
      off short whole = ground arith

  pub framebuffer-IsVerdict :
      Ensures (IsVerdict m tag size displays) (framebuffer_references m tag size)
  unfolding framebuffer_references
  framebuffer-IsVerdict = elim (Bool-cases (ltb size 72)) [
    | inl short ↦ (malformed, rw short refl, inl (refl, λ h. off short h.0))
    | inr long ↦
        let whole : 72 ≤ size = ground arith in
        let (count, ec) = field-Returns m tag size mapped 40 2 (omega (arith, whole)) in
        elim (Bool-cases (array_fits size 72 count 48)) [
          | inr over ↦ (
            malformed,
            rw (long, ec, over) refl,
            inl (refl, too_many m tag size mapped 72 40 2 48 (omega arith) ec over),
          )
          | inl fits ↦
              let holds : Holds m tag size 72 40 2 48 =
                (whole, count, ec, array_fits-le size 72 count 48 (omega arith) fits) in
              let (set, es, d) =
                any_set-Decides m tag size (32 ∷ 56 ∷ []) mapped
                  (omega (arith, whole), (omega (arith, whole), tt)) in
              elim d [
                | inl t ↦
                    (external, rw (long, ec, fits, es, t.0) refl, inr (holds, inl (refl, inl t.1)))
                | inr f ↦
                    let (r, er, k) =
                      elements-Decides m tag size mapped 72 count 48 (32 ∷ []) (omega arith)
                        (omega arith, tt) fits in
                    (
                      r,
                      rw (long, ec, fits, es, f.0) er,
                      inr (
                        holds,
                        elim k [
                          | inl t ↦ inl (t.0, inr (count, ec, t.1))
                          | inr g ↦ inr (g.0, (f.1, (count, ec, g.1)))
                        ],
                      ),
                    )
              ]
        ]
  ]
    where
      off : ltb size 72 ≡ true → 72 ≤ size → ⊥
      off short whole = ground arith
