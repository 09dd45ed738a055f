-- ===== src/Bridge/Verdict.antt =====
-- `tag_external_references` of bridge/bbp_bridge.c reads only bytes of its tag, and its answer is the
-- one that the layout of the tag asks for.
use bear_boot.Prelude.{
  ℕ, ◌≤◌, ◌≡◌, ◌≢◌, inl, inr, refl, sym, true, false, ◌==◌, some, [], ◌∷◌, arith, Bool-cases,
  Ensures, subst,
}
use bear_boot.Memory.{Memory, load, IsMapped}
use bear_boot.Memory.Loads.{load-Returns}
use bear_boot.Wire.{tag_hhdm_id}
use bear_boot.Bridge.{
  tag_kernel_address_id, tag_memory_map_id, tag_cmdline_id, tag_acpi_id, tag_smbios_id, tag_efi_id,
  tag_devicetree_id, tag_security_id, tag_framebuffer_id, tag_smp_id, tag_modules_id, tag_pcie_id,
  tag_metrics_id, tag_hypervisor_id, external, tag_external_references,
}
use bear_boot.Bridge.Shape.{
  Shape, plain, map, displays, devices, phases, opaque, array, HasShape, hhdm, kernel_address,
  memory_map, cmdline, acpi, smbios, efi, devicetree, security, framebuffer, smp, modules, pcie,
  metrics, hypervisor, other, IsVerdict,
}
use bear_boot.Bridge.Bounds.{fixed-IsVerdict, counted-IsVerdict}
use bear_boot.Bridge.Arrays.{
  memory_map-IsVerdict, metrics-IsVerdict, pcie-IsVerdict, framebuffer-IsVerdict,
}

shape_of : (id : ℕ) → (s : Shape) × HasShape id s
shape_of id = elim (Bool-cases (id == tag_hhdm_id)) [
  | inl yes0 ↦
      (plain 40 [], subst (λ t. HasShape t (plain 40 [])) (sym (known id tag_hhdm_id yes0)) hhdm)
  | inr no0 ↦ elim (Bool-cases (id == tag_kernel_address_id)) [
    | inl yes1 ↦ (
      plain 48 [],
      subst (λ t. HasShape t (plain 48 [])) (sym (known id tag_kernel_address_id yes1))
          kernel_address,
    )
    | inr no1 ↦ elim (Bool-cases (id == tag_memory_map_id)) [
      | inl yes2 ↦
          (map, subst (λ t. HasShape t (map)) (sym (known id tag_memory_map_id yes2)) memory_map)
      | inr no2 ↦ elim (Bool-cases (id == tag_cmdline_id)) [
        | inl yes3 ↦ (
          plain 56 (32 ∷ []),
          subst (λ t. HasShape t (plain 56 (32 ∷ []))) (sym (known id tag_cmdline_id yes3)) cmdline,
        )
        | inr no3 ↦ elim (Bool-cases (id == tag_acpi_id)) [
          | inl yes4 ↦ (
            plain 56 (32 ∷ 40 ∷ []),
            subst (λ t. HasShape t (plain 56 (32 ∷ 40 ∷ []))) (sym (known id tag_acpi_id yes4))
                acpi,
          )
          | inr no4 ↦ elim (Bool-cases (id == tag_smbios_id)) [
            | inl yes5 ↦ (
              plain 48 (32 ∷ 40 ∷ []),
              subst (λ t. HasShape t (plain 48 (32 ∷ 40 ∷ []))) (sym (known id tag_smbios_id yes5))
                  smbios,
            )
            | inr no5 ↦ elim (Bool-cases (id == tag_efi_id)) [
              | inl yes6 ↦ (
                plain 64 (32 ∷ 40 ∷ []),
                subst (λ t. HasShape t (plain 64 (32 ∷ 40 ∷ []))) (sym (known id tag_efi_id yes6))
                    efi,
              )
              | inr no6 ↦ elim (Bool-cases (id == tag_devicetree_id)) [
                | inl yes7 ↦ (
                  plain 80 (32 ∷ 56 ∷ []),
                  subst (λ t. HasShape t (plain 80 (32 ∷ 56 ∷ [])))
                      (sym (known id tag_devicetree_id yes7)) devicetree,
                )
                | inr no7 ↦ elim (Bool-cases (id == tag_security_id)) [
                  | inl yes8 ↦ (
                    plain 128 (32 ∷ 64 ∷ 80 ∷ 96 ∷ []),
                    subst (λ t. HasShape t (plain 128 (32 ∷ 64 ∷ 80 ∷ 96 ∷ [])))
                        (sym (known id tag_security_id yes8)) security,
                  )
                  | inr no8 ↦ elim (Bool-cases (id == tag_framebuffer_id)) [
                    | inl yes9 ↦ (
                      displays,
                      subst (λ t. HasShape t (displays)) (sym (known id tag_framebuffer_id yes9))
                          framebuffer,
                    )
                    | inr no9 ↦ elim (Bool-cases (id == tag_smp_id)) [
                      | inl yes10 ↦ (
                        array 48 48 (32 ∷ []),
                        subst (λ t. HasShape t (array 48 48 (32 ∷ [])))
                            (sym (known id tag_smp_id yes10)) smp,
                      )
                      | inr no10 ↦ elim (Bool-cases (id == tag_modules_id)) [
                        | inl yes11 ↦ (
                          array 40 176 (0 ∷ 96 ∷ []),
                          subst (λ t. HasShape t (array 40 176 (0 ∷ 96 ∷ [])))
                              (sym (known id tag_modules_id yes11)) modules,
                        )
                        | inr no11 ↦ elim (Bool-cases (id == tag_pcie_id)) [
                          | inl yes12 ↦ (
                            devices,
                            subst (λ t. HasShape t (devices)) (sym (known id tag_pcie_id yes12))
                                pcie,
                          )
                          | inr no12 ↦ elim (Bool-cases (id == tag_metrics_id)) [
                            | inl yes13 ↦ (
                              phases,
                              subst (λ t. HasShape t (phases)) (sym (known id tag_metrics_id yes13))
                                  metrics,
                            )
                            | inr no13 ↦ elim (Bool-cases (id == tag_hypervisor_id)) [
                              | inl yes14 ↦ (
                                plain 64 [],
                                subst (λ t. HasShape t (plain 64 []))
                                    (sym (known id tag_hypervisor_id yes14)) hypervisor,
                              )
                              | inr no14 ↦ (
                                opaque,
                                other (unknown id tag_hhdm_id no0)
                                    (unknown id tag_kernel_address_id no1)
                                    (unknown id tag_memory_map_id no2)
                                    (unknown id tag_cmdline_id no3) (unknown id tag_acpi_id no4)
                                    (unknown id tag_smbios_id no5) (unknown id tag_efi_id no6)
                                    (unknown id tag_devicetree_id no7)
                                    (unknown id tag_security_id no8)
                                    (unknown id tag_framebuffer_id no9) (unknown id tag_smp_id no10)
                                    (unknown id tag_modules_id no11) (unknown id tag_pcie_id no12)
                                    (unknown id tag_metrics_id no13)
                                    (unknown id tag_hypervisor_id no14),
                              )
                            ]
                          ]
                        ]
                      ]
                    ]
                  ]
                ]
              ]
            ]
          ]
        ]
      ]
    ]
  ]
]
  where
    known : (x y : ℕ) → (x == y) ≡ true → x ≡ y
    known x y e = ground arith

    unknown : (x y : ℕ) → (x == y) ≡ false → x ≢ y
    unknown x y e = λ z. ground arith

module _ (m : Memory) (tag size : ℕ) (mapped : IsMapped m tag size) where
  verdict :
      {id : ℕ} {shape : Shape}
      → HasShape id shape
      → load m tag 8 ≡ some id
      → Ensures (IsVerdict m tag size shape) (tag_external_references m tag size)
  unfolding tag_external_references
  verdict hhdm e = rw e (fixed-IsVerdict m tag size mapped 40 [] (λ h. tt))
  verdict kernel_address e = rw e (fixed-IsVerdict m tag size mapped 48 [] (λ h. tt))
  verdict memory_map e = rw e (memory_map-IsVerdict m tag size mapped)
  verdict cmdline e =
      rw e (fixed-IsVerdict m tag size mapped 56 (32 ∷ []) (λ h. (omega (arith, h), tt)))
  verdict acpi e = rw e (
      fixed-IsVerdict m tag size mapped 56 (32 ∷ 40 ∷ [])
        (λ h. (omega (arith, h), (omega (arith, h), tt))))
  verdict smbios e = rw e (
      fixed-IsVerdict m tag size mapped 48 (32 ∷ 40 ∷ [])
        (λ h. (omega (arith, h), (omega (arith, h), tt))))
  verdict efi e = rw e (
      fixed-IsVerdict m tag size mapped 64 (32 ∷ 40 ∷ [])
        (λ h. (omega (arith, h), (omega (arith, h), tt))))
  verdict devicetree e = rw e (
      fixed-IsVerdict m tag size mapped 80 (32 ∷ 56 ∷ [])
        (λ h. (omega (arith, h), (omega (arith, h), tt))))
  verdict security e = rw e (
      fixed-IsVerdict m tag size mapped 128 (32 ∷ 64 ∷ 80 ∷ 96 ∷ [])
        (λ h. (omega (arith, h), (omega (arith, h), (omega (arith, h), (omega (arith, h), tt))))))
  verdict framebuffer e = rw e (framebuffer-IsVerdict m tag size mapped)
  verdict smp e = rw e (
      counted-IsVerdict m tag size mapped 48 48 (32 ∷ []) (omega arith) (omega arith)
        (omega arith, tt))
  verdict modules e = rw e (
      counted-IsVerdict m tag size mapped 40 176 (0 ∷ 96 ∷ []) (omega arith) (omega arith)
        (omega arith, (omega arith, tt)))
  verdict pcie e = rw e (pcie-IsVerdict m tag size mapped)
  verdict metrics e = rw e (metrics-IsVerdict m tag size mapped)
  verdict hypervisor e = rw e (fixed-IsVerdict m tag size mapped 64 [] (λ h. tt))
  verdict {id} (other n0 n1 n2 n3 n4 n5 n6 n7 n8 n9 n10 n11 n12 n13 n14) e =
      let o0 : (id == tag_hhdm_id) ≡ false = differs id tag_hhdm_id n0 in
      let o1 : (id == tag_kernel_address_id) ≡ false = differs id tag_kernel_address_id n1 in
      let o2 : (id == tag_memory_map_id) ≡ false = differs id tag_memory_map_id n2 in
      let o3 : (id == tag_cmdline_id) ≡ false = differs id tag_cmdline_id n3 in
      let o4 : (id == tag_acpi_id) ≡ false = differs id tag_acpi_id n4 in
      let o5 : (id == tag_smbios_id) ≡ false = differs id tag_smbios_id n5 in
      let o6 : (id == tag_efi_id) ≡ false = differs id tag_efi_id n6 in
      let o7 : (id == tag_devicetree_id) ≡ false = differs id tag_devicetree_id n7 in
      let o8 : (id == tag_security_id) ≡ false = differs id tag_security_id n8 in
      let o9 : (id == tag_framebuffer_id) ≡ false = differs id tag_framebuffer_id n9 in
      let o10 : (id == tag_smp_id) ≡ false = differs id tag_smp_id n10 in
      let o11 : (id == tag_modules_id) ≡ false = differs id tag_modules_id n11 in
      let o12 : (id == tag_pcie_id) ≡ false = differs id tag_pcie_id n12 in
      let o13 : (id == tag_metrics_id) ≡ false = differs id tag_metrics_id n13 in
      let o14 : (id == tag_hypervisor_id) ≡ false = differs id tag_hypervisor_id n14 in
      (
        external,
        rw (e, o0, o1, o2, o3, o4, o5, o6, o7, o8, o9, o10, o11, o12, o13, o14) refl,
        inr (tt, inl (refl, tt)),
      )
    where
      differs : (x y : ℕ) → x ≢ y → (x == y) ≡ false
      differs x y n = elim (Bool-cases (x == y)) [
        | inl same ↦ absurd (n (ground arith))
        | inr e ↦ e
      ]

  -- On a tag of at least 8 bytes of which all can be read, the search for references reads no other
  -- byte and returns. By the layout that the identifier of the tag stands for, it says: malformed
  -- exactly if the tag is shorter than its fields, the array that it counts leaves it, or the
  -- elements of a memory map are of fewer than 32 bytes; else external if a field of references, in
  -- the tag or in an element of its array, is not zero (or it counts PCIe devices); else
  -- self-contained. A tag that is not known is external.
  pub tag_external_references-IsVerdict :
      8 ≤ size
      → (id : ℕ) × (shape : Shape) × (load m tag 8 ≡ some id)
        × HasShape id shape
        × Ensures (IsVerdict m tag size shape) (tag_external_references m tag size)
  tag_external_references-IsVerdict least =
      let (id, e) = load-Returns m tag 8 (λ x p q. mapped x p (omega (arith, least))) in
      let (shape, has) = shape_of id in (id, shape, e, has, verdict has e)
