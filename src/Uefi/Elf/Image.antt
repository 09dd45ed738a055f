-- ===== src/Uefi/Elf/Image.antt =====
-- `bbp_elf64_plan` of bootloader/uefi/elf64_loader.c on any image.
use bear_boot.Prelude.{
  ℕ, zero, suc, ◌+◌, ◌*◌, ◌-◌, ◌^◌, ◌≤◌, ◌≡◌, ◌≢◌, inl, inr, refl, ◌∙◌, true, false, ◌||◌, ltb,
  ◌==◌, ◌!=◌, if◌then◌else◌, Option, some, [], arith, length, Bool-cases, Returns, Ensures,
}
use bear_boot.Memory.{Memory, load, IsMapped}
use bear_boot.Memory.Loads.{load-Returns, IsMapped-part, IsMapped-prefix}
use bear_boot.Uefi.Elf.{
  ElfStatus, ok, err_segment_limit, err_entry, Plan, Candidate, LoadHeader, add_u64,
  canonical_region, proceed, admit, read_load_header, scan, check_identity, plan_image,
}
use bear_boot.Uefi.Elf.Segments.{AllLoadable, AllApart, IsCovered, IsPlanned}
use bear_boot.Uefi.Elf.Admit.{ElfStatus-ok, proceed-stop, admit-IsPlanned}

read_load_header-Returns :
    (m : Memory) (header : ℕ) → IsMapped m header 56 → Returns (read_load_header m header)
unfolding read_load_header
read_load_header-Returns m header mapped =
    let part = λ (o n : ℕ) (fits : o + n ≤ 56).
      load-Returns m (header + o) n (IsMapped-part m header 56 o n mapped fits) in
    let (a, ea) = part 4 4 (omega arith) in
    let (b, eb) = part 8 8 (omega arith) in
    let (c, ec) = part 16 8 (omega arith) in
    let (d, ed) = part 24 8 (omega arith) in
    let (e, ee) = part 32 8 (omega arith) in
    let (f, ef) = part 40 8 (omega arith) in
    let (g, eg) = part 48 8 (omega arith) in rw (ea, eb, ec, ed, ee, ef, eg) (_, refl)

module _ (m : Memory) (n left header : ℕ) (c : Candidate) {kind : ℕ}
    (read : load m header 4 ≡ some kind) where
  scan-skips : (kind == 1) ≡ false → scan m n (suc left) header c ≡ scan m n left (header + 56) c
  unfolding scan
  scan-skips other = rw (read, other) refl

  scan-full :
      (kind == 1) ≡ true
      → (length c.plan.segments == 16) ≡ true
      → scan m n (suc left) header c ≡ some (err_segment_limit, c)
  unfolding scan
  scan-full loads full = rw (read, loads, full) refl

  scan-admits :
      (kind == 1) ≡ true
      → (length c.plan.segments == 16) ≡ false
      → (h : LoadHeader) → read_load_header m header ≡ some h
      → scan m n (suc left) header c
        ≡ proceed
            (admit n c h).0
            (scan m n left (header + 56) (admit n c h).1)
            (λ bad. some (bad, (admit n c h).1))
  unfolding scan
  scan-admits loads room h eh = rw (read, loads, room, eh) refl

scan-IsPlanned :
    (m : Memory) (n left header : ℕ) (c : Candidate)
    → IsMapped m header (left * 56)
    → IsPlanned n c
    → Ensures (λ r. r.0 ≡ ok → IsPlanned n r.1) (scan m n left header c)
unfolding scan
scan-IsPlanned m n zero header c mapped p = ((ok, c), refl, λ e. p)
scan-IsPlanned m n (suc left) header c mapped p =
    let (kind, ek) = load-Returns m header 4 (λ x u v. mapped x u (omega arith)) in
    elim (Bool-cases (kind == 1)) [
      | inr other ↦
          let (r, er, q) = scan-IsPlanned m n left (header + 56) c later p in
          (r, scan-skips m n left header c ek other ∙ er, q)
      | inl loads ↦ elim (Bool-cases (length c.plan.segments == 16)) [
        | inl full ↦ (_, scan-full m n left header c ek loads full, λ e. cc)
        | inr room ↦
            let (h, eh) = read_load_header-Returns m header (λ x u v. mapped x u (omega arith)) in
            let step = scan-admits m n left header c ek loads room h eh in
            elim (ElfStatus-ok (admit n c h).0) [
              | inl good ↦
                  let (r, er, q) =
                    scan-IsPlanned m n left (header + 56) (admit n c h).1 later
                      (admit-IsPlanned n c h p good) in
                  (r, step ∙ (rw good er), q)
              | inr bad ↦ (
                _,
                step
                    ∙ proceed-stop (admit n c h).0 (scan m n left (header + 56) (admit n c h).1)
                        (λ status. some (status, (admit n c h).1)) bad,
                λ e. absurd (bad e),
              )
            ]
      ]
    ]
  where
    later : IsMapped m (header + 56) (left * 56)
    later x u v = mapped x (omega arith) (omega arith)

-- A plan that may be carried out: each segment may be loaded, no two share a page, and an
-- executable one holds the entry point.
pub record IsPlan (image_size : ℕ) (plan : Plan) : Type 0 where
  pub loadable : AllLoadable image_size plan.segments
  pub apart : AllApart plan.segments
  pub covered : IsCovered plan.entry plan.segments

-- A refusal leaves the caller's plan alone; a success is a plan that may be carried out.
pub data IsImagePlan (image_size : ℕ) (before : Plan) : ElfStatus × Option Plan → Type 0 where
  refused : {status : ElfStatus} → status ≢ ok → IsImagePlan image_size before (status, some before)
  planned : {plan : Plan} → IsPlan image_size plan → IsImagePlan image_size before (ok, some plan)

check_identity-Returns :
    (m : Memory) (image : ℕ) → IsMapped m image 64 → Returns (check_identity m image)
unfolding check_identity
check_identity-Returns m image mapped =
    let part = λ (o n : ℕ) (fits : o + n ≤ 64).
      load-Returns m (image + o) n (IsMapped-part m image 64 o n mapped fits) in
    let (a, ea) = load-Returns m image 7 (IsMapped-prefix m image 64 7 mapped (omega arith)) in
    let (b, eb) = part 16 2 (omega arith) in
    let (c, ec) = part 18 2 (omega arith) in
    let (d, ed) = part 20 4 (omega arith) in
    let (e, ee) = part 52 2 (omega arith) in rw (ea, eb, ec, ed, ee) (_, refl)

-- The candidate that the planner starts from.
abbrev blank : ℕ → Candidate
blank entry = record {
  plan = record { entry = entry; physical_base = 0; physical_end = 0; segments = [] };
  entry_covered = false;
  have_envelope = false;
}

blank-IsPlanned : (n entry : ℕ) → IsPlanned n (blank entry)
blank-IsPlanned n entry = record { loadable = tt; apart = tt; covered = λ e. cc }

-- What follows a scan that went through.
abbrev settled : Plan → Candidate → Option (ElfStatus × Option Plan)
settled before c = if c.entry_covered then some (ok, some c.plan) else some (err_entry, some before)

-- What follows the scan.
abbrev finish : Plan → ElfStatus × Candidate → Option (ElfStatus × Option Plan)
finish before r = proceed r.0 (settled before r.1) (λ bad. some (bad, some before))

finish-IsImagePlan :
    (n : ℕ) (before : Plan) (r : ElfStatus × Candidate)
    → (r.0 ≡ ok → IsPlanned n r.1)
    → Ensures (IsImagePlan n before) (finish before r)
finish-IsImagePlan n before r h = elim (ElfStatus-ok r.0) [
  | inr bad ↦
      rw (proceed-stop r.0 (settled before r.1) (λ status. some (status, some before)) bad)
        (_, refl, refused bad)
  | inl good ↦
      let p = h good in
      elim (Bool-cases r.1.entry_covered) [
        | inr uncovered ↦ rw (good, uncovered) (_, refl, refused (λ e. cc))
        | inl covered ↦
            rw (good, covered)
              (
                _,
                refl,
                planned (record {
                  loadable = p.loadable;
                  apart = p.apart;
                  covered = p.covered covered;
                }),
              )
      ]
]

-- On any image whose bytes are mapped, the planner returns without a fault. It refuses and leaves
-- the caller's plan alone, or it gives a plan in which each segment lies in the file, fits its
-- memory, is not both writable and executable and has aligned pages below 2 ^ 48 that cover it, no
-- two segments share a page, and an executable segment holds the entry point.
pub plan_image-IsImagePlan :
    (m : Memory) (image image_size : ℕ) (before : Plan)
    → IsMapped m image image_size
    → Ensures (IsImagePlan image_size before) (plan_image m image image_size (some before))
unfolding plan_image add_u64
plan_image-IsImagePlan m image image_size before mapped = elim (Bool-cases (image == 0)) [
  | inl null ↦ rw null (_, refl, refused (λ e. cc))
  | inr there ↦ elim (Bool-cases (ltb image_size 64)) [
    | inl short ↦ rw (there, short) (_, refl, refused (λ e. cc))
    | inr long ↦
        let head : IsMapped m image 64 =
          IsMapped-prefix m image image_size 64 mapped (ground arith) in
        let part = λ (o n : ℕ) (fits : o + n ≤ 64).
          load-Returns m (image + o) n (IsMapped-part m image 64 o n head fits) in
        let (known, ek) = check_identity-Returns m image head in
        let (entry, ee) = part 24 8 (omega arith) in
        let (offset, eo) = part 32 8 (omega arith) in
        let (count, en) = part 56 2 (omega arith) in
        let (size, es) = part 54 2 (omega arith) in
        elim (Bool-cases known) [
          | inr alien ↦ rw (there, long, ek, alien) (_, refl, refused (λ e. cc))
          | inl elf ↦ elim (Bool-cases (canonical_region entry == 0)) [
            | inl bad ↦ rw (there, long, ek, elf, ee, eo, en, es, bad) (_, refl, refused (λ e. cc))
            | inr canonical ↦ elim (Bool-cases ((size != 56) || ((count == 0) || ltb 32 count))) [
              | inl bad ↦
                  rw (there, long, ek, elf, ee, eo, en, es, canonical, bad)
                    (_, refl, refused (λ e. cc))
              | inr counted ↦ elim (Bool-cases (ltb (2 ^ 64 - 1 - count * 56) offset)) [
                | inl bad ↦
                    rw (there, long, ek, elf, ee, eo, en, es, canonical, counted, bad)
                      (_, refl, refused (λ e. cc))
                | inr sum ↦ elim (Bool-cases (ltb image_size (offset + count * 56))) [
                  | inl bad ↦
                      rw (there, long, ek, elf, ee, eo, en, es, canonical, counted, sum, bad)
                        (_, refl, refused (λ e. cc))
                  | inr whole ↦
                      let (r, er, p) =
                        scan-IsPlanned m image_size count (image + offset) (blank entry)
                          (IsMapped-part m image image_size offset (count * 56) mapped
                            (ground arith))
                          (blank-IsPlanned image_size entry) in
                      rw (there, long, ek, elf, ee, eo, en, es, canonical, counted, sum, whole, er)
                        (finish-IsImagePlan image_size before r p)
                ]
              ]
            ]
          ]
        ]
  ]
]
