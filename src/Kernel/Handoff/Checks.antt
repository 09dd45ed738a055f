-- ===== src/Kernel/Handoff/Checks.antt =====
-- The validation of kernel/bbp_kernel.c accepts exactly the well-formed structures.
use bear_boot.Prelude.{
  ℕ, ◌+◌, ◌^◌, ◌≤◌, ◌<◌, ◌≡◌, ◌≢◌, ◌↔◌, ◌⊎◌, inl, inr, refl, ap, ◌∙◌, sym, Bool, true, false, ◌||◌,
  ltb, ◌==◌, ◌!=◌, Option, some, List, arith, if◌then◌else◌, ◌>>=◌, eq_of_some, Bool-cases, Returns,
  >>=-eq-some,
}
use bear_boot.Memory.{Memory, load, load_bytes, IsByteMemory, IsMapped}
use bear_boot.Memory.Loads.{load-Returns, IsMapped-part, IsMapped-prefix}
use bear_boot.Bytes.{IsBytes}
use bear_boot.Crc.{crc64}
use bear_boot.Wire.{header_magic}
use bear_boot.Wire.Header
use bear_boot.Kernel.Region.{Kctx, address_region_ok}
use bear_boot.Kernel.Region.Bounds.{IsRegion, address_region_ok_iff, phys_to_virt-IsRegion}
use bear_boot.Kernel.Seal.{memcmp, crc_skip}
use bear_boot.Kernel.Seal.Laws.{memcmp_iff, memcmp-Returns}
use bear_boot.Kernel.Walk.Safety.{crc_skip-Returns}
use bear_boot.Kernel.Handoff.{
  Status, ok, err_null, err_magic, err_version, err_size, err_checksum, err_tag_checksum,
  verify_header, verify_blob,
}

-- A kernel header as the protocol wants it: the magic, major version 1, its own size, and a
-- checksum that matches.
pub record IsHeader (m : Memory) (hdr : ℕ) : Type 0 where
  pub not_null : hdr ≢ 0
  pub magic : load_bytes m hdr 16 ≡ some header_magic
  pub major : Header.major m hdr ≡ some 1
  pub sized : Header.header_size m hdr ≡ some 160
  pub checksum : ℕ
  pub stored : Header.checksum m hdr ≡ some checksum
  pub computed : crc_skip m hdr 160 152 ≡ some checksum

magic-IsBytes : IsBytes header_magic
magic-IsBytes = omega arith

-- The verdict on the values that the checks read.
abbrev header_verdict : (hdr differ major size got checksum : ℕ) → Status
header_verdict hdr differ major size got checksum =
    if hdr == 0
    then err_null
    else if differ != 0
    then err_magic
    else if major != 1
    then err_version
    else if size != 160
    then err_size
    else if got != checksum
    then err_checksum
    else ok

header_verdict_ok :
    (hdr d v s g c : ℕ)
    → header_verdict hdr d v s g c ≡ ok
    → (hdr ≢ 0) × (d ≡ 0) × (v ≡ 1) × (s ≡ 160) × (g ≡ c)
header_verdict_ok hdr d v s g c e = ground arith

header_verdict_accepts :
    (hdr d v s g c : ℕ)
    → hdr ≢ 0
    → d ≡ 0
    → v ≡ 1
    → s ≡ 160
    → g ≡ c
    → header_verdict hdr d v s g c ≡ ok
header_verdict_accepts hdr d v s g c a b e f h = ground arith

module _ (m : Memory) (hdr : ℕ) where
  verify_header-verdict :
      {d v s g c : ℕ}
      → memcmp m hdr header_magic ≡ some d
      → Header.major m hdr ≡ some v
      → Header.header_size m hdr ≡ some s
      → crc_skip m hdr 160 152 ≡ some g
      → Header.checksum m hdr ≡ some c
      → verify_header m hdr ≡ some (header_verdict hdr d v s g c)
  unfolding verify_header
  verify_header-verdict {d} {v} {s} {g} {c} ed ev es eg ec = elim (Bool-cases (hdr == 0)) [
    | inl null ↦ rw null
    | inr there ↦ elim (Bool-cases (d != 0)) [
      | inl bad ↦ rw (there, ed, bad)
      | inr same ↦ elim (Bool-cases (v != 1)) [
        | inl bad ↦ rw (there, ed, same, ev, bad)
        | inr current ↦ elim (Bool-cases (s != 160)) [
          | inl bad ↦ rw (there, ed, same, ev, current, es, bad)
          | inr sized ↦ elim (Bool-cases (g != c)) [
            | inl bad ↦ rw (there, ed, same, ev, current, es, sized, eg, ec, bad)
            | inr sealed ↦ rw (there, ed, same, ev, current, es, sized, eg, ec, sealed)
          ]
        ]
      ]
    ]
  ]

  -- On a mapped header in a memory of bytes the verification returns, and it accepts exactly the
  -- well-formed headers.
  pub verify_header_iff :
      IsByteMemory m
      → IsMapped m hdr 160
      → Returns (verify_header m hdr) × ((verify_header m hdr ≡ some ok) ↔ IsHeader m hdr)
  verify_header_iff hm mapped =
      let (d, ed) =
        memcmp-Returns m hdr header_magic (IsMapped-prefix m hdr 160 16 mapped (omega arith)) in
      let (v, ev) = field 16 2 (omega arith) in
      let (s, es) = field 20 4 (omega arith) in
      let (c, ec) = field 152 8 (omega arith) in
      let (g, eg) = crc_skip-Returns m hdr 160 152 mapped in
      let shape : verify_header m hdr ≡ some (header_verdict hdr d v s g c) =
        verify_header-verdict ed ev es eg ec in
      (
        (header_verdict hdr d v s g c, shape),
        (
          λ e.
              let (a, zd, zv, zs, zg) =
                header_verdict_ok hdr d v s g c (eq_of_some (sym shape ∙ e)) in
              record {
                not_null = a;
                magic = (memcmp_iff m hdr header_magic hm magic-IsBytes).0 (ed ∙ ap some zd);
                major = ev ∙ ap some zv;
                sized = es ∙ ap some zs;
                checksum = c;
                stored = ec;
                computed = eg ∙ ap some zg;
              },
          λ h.
              shape
              ∙ ap some (
                  header_verdict_accepts hdr d v s g c h.not_null
                    (eq_of_some
                      (sym ed ∙ (memcmp_iff m hdr header_magic hm magic-IsBytes).1 h.magic))
                    (eq_of_some (sym ev ∙ h.major)) (eq_of_some (sym es ∙ h.sized))
                    (eq_of_some (sym eg ∙ h.computed) ∙ eq_of_some (sym h.stored ∙ ec))),
        ),
      )
    where
      field : (o n : ℕ) → o + n ≤ 160 → Returns (load m (hdr + o) n)
      field o n fits = load-Returns m (hdr + o) n (IsMapped-part m hdr 160 o n mapped fits)

-- A checked reference to `len` bytes at `phys`.
pub record IsBlob (m : Memory) (k : Kctx) (phys len crc : ℕ) (unchecked : Bool) : Type 0 where
  pub short : len ≤ 67108864
  pub region : IsRegion k phys len
  pub sealed :
      ((crc ≡ 0) × (unchecked ≡ true))
      ⊎ ((crc ≢ 0)
          × ((bytes : List ℕ) × (load_bytes m (phys + k.hhdm_offset) len ≡ some bytes)
              × (crc64 bytes ≡ crc)))

unchecked_ok : (u : Bool) → (if u then ok else err_tag_checksum) ≡ ok → u ≡ true
unchecked_ok true e = refl
unchecked_ok false e = cc

==-refl : (n : ℕ) → (n == n) ≡ true
==-refl n = ground arith

module _ (m : Memory) (k : Kctx) (phys len crc : ℕ) (unchecked : Bool)
    (words : k.hhdm_offset < 2 ^ 64) where
  verify_blob-region :
      verify_blob m (some k) phys len crc unchecked ≡ some ok
      → (len ≤ 67108864) × (address_region_ok k phys len ≡ true)
  unfolding verify_blob
  verify_blob-region e = ground arith

  -- What is left once the guards have passed.
  abbrev scan : Option Status
  scan = if crc == 0 then some (if unchecked then ok else err_tag_checksum) else do
    bytes ← load_bytes m (phys + k.hhdm_offset) len
    some (if crc64 bytes == crc then ok else err_tag_checksum)

  verify_blob-scan :
      len ≤ 67108864 → IsRegion k phys len → verify_blob m (some k) phys len crc unchecked ≡ scan
  unfolding verify_blob
  verify_blob-scan short r =
      let present : ((phys == 0) || (len == 0)) ≡ false = ground arith in
      let fits : ltb 67108864 len ≡ false = ground arith in
      rw
        (
          present,
          fits,
          (address_region_ok_iff k phys len words).1 r,
          phys_to_virt-IsRegion k phys len r,
        )
        refl

  scan-ok :
      scan ≡ some ok
      → ((crc ≡ 0) × (unchecked ≡ true))
        ⊎ ((crc ≢ 0)
            × ((bytes : List ℕ) × (load_bytes m (phys + k.hhdm_offset) len ≡ some bytes)
                × (crc64 bytes ≡ crc)))
  scan-ok e = elim (Bool-cases (crc == 0)) [
    | inl z ↦ inl (ground arith, unchecked_ok unchecked (eq_of_some (rw z at e)))
    | inr nz ↦
        let (bytes, loaded, e') =
          >>=-eq-some (load_bytes m (phys + k.hhdm_offset) len)
            (λ bytes. some (if crc64 bytes == crc then ok else err_tag_checksum)) (rw nz at e) in
        inr (ground arith, (bytes, loaded, ground arith))
  ]

  -- In a context with a 64-bit offset, a reference is accepted exactly when its region is within
  -- bounds and either it carries no checksum and the caller allows that, or its mapped bytes have
  -- the checksum it carries.
  pub verify_blob_iff :
      (verify_blob m (some k) phys len crc unchecked ≡ some ok) ↔ IsBlob m k phys len crc unchecked
  verify_blob_iff = (to, from)
    where
      to :
          verify_blob m (some k) phys len crc unchecked ≡ some ok
          → IsBlob m k phys len crc unchecked
      to e =
          let (short, fits) = verify_blob-region e in
          let region = (address_region_ok_iff k phys len words).0 fits in
          record {
            short = short;
            region = region;
            sealed = scan-ok (sym (verify_blob-scan short region) ∙ e);
          }

      from :
          IsBlob m k phys len crc unchecked
          → verify_blob m (some k) phys len crc unchecked ≡ some ok
      from b = verify_blob-scan b.short b.region ∙ elim b.sealed [
        | inl (z, u) ↦ rw (z, u) refl
        | inr (nz, (bytes, loaded, same)) ↦
            let other : (crc == 0) ≡ false = ground arith in
            rw (other, loaded, same, ==-refl crc) refl
      ]
