-- ===== src/Uefi/Elf/Admit.antt =====
-- The planner of bootloader/uefi/elf64_loader.c keeps its plan loadable, on every image.
use bear_boot.Prelude.{
  ℕ, ◌+◌, ◌-◌, ◌*◌, ◌/◌, ◌%◌, ◌^◌, ◌≤◌, ◌≡◌, ◌≢◌, ◌⊎◌, inl, inr, refl, sym, ap, ◌∙◌, Bool, false,
  ◌&&◌, ltb, leb, ◌==◌, ◌!=◌, bit_and, List, [], ◌∷◌, arith, Bool-cases, Option-cases, subst,
}
use bear_boot.Uefi.Elf.{
  ElfStatus, ok, err_argument, err_truncated, err_format, err_program_headers, err_segment_limit,
  err_file_range, err_memory_size, err_overflow, err_alignment, err_address, err_physical_limit,
  err_page_overlap, err_wx, err_entry, Segment, Candidate, LoadHeader, add_u64, check_alignment,
  check_ranges, page_base_of, page_end_of, overlaps_previous, place, admit, proceed,
}
use bear_boot.Uefi.Elf.Segments.{
  IsLoadable, ApartFrom, IsPlanned, AllLoadable-append, AllApart-append, IsCovered-append,
  IsCovered-last, overlaps_previous-ApartFrom, check_ranges-ok, add_u64-some, page_end_of-bounds,
}

pub ElfStatus-ok : (x : ElfStatus) → (x ≡ ok) ⊎ (x ≢ ok)
ElfStatus-ok ok = inl refl
ElfStatus-ok err_argument = inr (λ e. cc)
ElfStatus-ok err_truncated = inr (λ e. cc)
ElfStatus-ok err_format = inr (λ e. cc)
ElfStatus-ok err_program_headers = inr (λ e. cc)
ElfStatus-ok err_segment_limit = inr (λ e. cc)
ElfStatus-ok err_file_range = inr (λ e. cc)
ElfStatus-ok err_memory_size = inr (λ e. cc)
ElfStatus-ok err_overflow = inr (λ e. cc)
ElfStatus-ok err_alignment = inr (λ e. cc)
ElfStatus-ok err_address = inr (λ e. cc)
ElfStatus-ok err_physical_limit = inr (λ e. cc)
ElfStatus-ok err_page_overlap = inr (λ e. cc)
ElfStatus-ok err_wx = inr (λ e. cc)
ElfStatus-ok err_entry = inr (λ e. cc)

ApartFrom-empty : (s : Segment) (ss : List Segment) → s.page_count ≡ 0 → ApartFrom s ss
ApartFrom-empty s [] h = tt
ApartFrom-empty s (t ∷ ss) h = (inr (inl h), ApartFrom-empty s ss h)

-- A status other than OK stops.
pub proceed-stop :
    {A : Type 0} (x : ElfStatus) (next : A) (stop : ElfStatus → A)
    → x ≢ ok
    → proceed x next stop ≡ stop x
proceed-stop ok next stop h = absurd (h refl)
proceed-stop err_argument next stop h = refl
proceed-stop err_truncated next stop h = refl
proceed-stop err_format next stop h = refl
proceed-stop err_program_headers next stop h = refl
proceed-stop err_segment_limit next stop h = refl
proceed-stop err_file_range next stop h = refl
proceed-stop err_memory_size next stop h = refl
proceed-stop err_overflow next stop h = refl
proceed-stop err_alignment next stop h = refl
proceed-stop err_address next stop h = refl
proceed-stop err_physical_limit next stop h = refl
proceed-stop err_page_overlap next stop h = refl
proceed-stop err_wx next stop h = refl
proceed-stop err_entry next stop h = refl

place-IsPlanned :
    (n : ℕ) (c : Candidate) (h : LoadHeader) (virtual_end page_base page_end : ℕ)
    → IsPlanned n c
    → h.file_offset + h.file_size ≤ n
    → h.file_size ≤ h.memory_size
    → bit_and h.flags 3 ≢ 3
    → virtual_end ≡ h.virtual_address + h.memory_size
    → page_base % 4096 ≡ 0
    → page_end % 4096 ≡ 0
    → page_base ≤ h.physical_address
    → page_base ≤ page_end
    → page_end ≤ 2 ^ 48
    → (h.memory_size ≡ 0) ⊎ (h.physical_address + h.memory_size ≤ page_end)
    → (place c h virtual_end page_base page_end).0 ≡ ok
    → IsPlanned n (place c h virtual_end page_base page_end).1
unfolding place
place-IsPlanned n c h virtual_end page_base page_end p file fits wx ve al al' below up low cover =
    elim (Bool-cases ((count != 0) && overlaps_previous page_base page_end c.plan.segments)) [
      | inl bad ↦ rw bad (λ e. cc)
      | inr fine ↦ rw fine (λ e. record {
        loadable = AllLoadable-append n c.plan.segments s p.loadable good;
        apart = AllApart-append c.plan.segments s p.apart (free fine);
        covered = λ t. elim (Bool-cases covers) [
          | inl here ↦ IsCovered-last c.plan.entry c.plan.segments s (inl (ground arith))
          | inr not_here ↦
              IsCovered-append c.plan.entry c.plan.segments s (p.covered (rw not_here at t))
        ];
      })
    ]
  where
    count : ℕ
    count = (page_end + 2 ^ 64 - page_base) % 2 ^ 64 / 4096

    covers : Bool
    covers =
        (bit_and h.flags 1 != 0)
        && (leb h.virtual_address c.plan.entry && ltb c.plan.entry virtual_end)

    s : Segment
    s = record {
      file_offset = h.file_offset;
      file_size = h.file_size;
      memory_size = h.memory_size;
      virtual_address = h.virtual_address;
      physical_address = h.physical_address;
      page_base = page_base;
      page_count = count;
      alignment = h.alignment;
      flags = h.flags;
    }

    span : page_base + count * 4096 ≡ page_end
    span = omega arith

    good : IsLoadable n s
    good = record {
      in_file = file;
      fits = fits;
      no_wx = wx;
      aligned = al;
      starts = below;
      covers =
          subst (λ t. (h.memory_size ≡ 0) ⊎ (h.physical_address + h.memory_size ≤ t)) (sym span)
            cover;
      ends = omega arith;
    }

    free :
        ((count != 0) && overlaps_previous page_base page_end c.plan.segments) ≡ false
        → ApartFrom s c.plan.segments
    free e = elim (Bool-cases (count != 0)) [
      | inl paged ↦
          overlaps_previous-ApartFrom n s c.plan.segments p.loadable
            (ap (λ t. overlaps_previous page_base t c.plan.segments) span ∙ (rw paged at e))
      | inr empty ↦ ApartFrom-empty s c.plan.segments (ground (arith, empty))
    ]

-- The admission of one header keeps the plan loadable, apart and covering.
pub admit-IsPlanned :
    (n : ℕ) (c : Candidate) (h : LoadHeader)
    → IsPlanned n c
    → (admit n c h).0 ≡ ok
    → IsPlanned n (admit n c h).1
unfolding admit
admit-IsPlanned n c h p = elim (Bool-cases (ltb h.memory_size h.file_size)) [
  | inl bad ↦ rw bad (λ e. cc)
  | inr fits ↦ elim (Bool-cases (bit_and h.flags 3 == 3)) [
    | inl bad ↦ rw (fits, bad) (λ e. cc)
    | inr no_wx ↦ elim (Bool-cases (check_alignment h)) [
      | inr bad ↦ rw (fits, no_wx, bad) (λ e. cc)
      | inl al ↦ elim (Option-cases (add_u64 h.file_offset h.file_size)) [
        | inl bad ↦ rw (fits, no_wx, al, bad) (λ e. cc)
        | inr (fe, ef) ↦ elim (Option-cases (add_u64 h.virtual_address h.memory_size)) [
          | inl bad ↦ rw (fits, no_wx, al, ef, bad) (λ e. cc)
          | inr (ve, ev) ↦ elim (Option-cases (add_u64 h.physical_address h.memory_size)) [
            | inl bad ↦ rw (fits, no_wx, al, ef, ev, bad) (λ e. cc)
            | inr (pe, ep) ↦
                rw (fits, no_wx, al, ef, ev, ep)
                  (elim (ElfStatus-ok (check_ranges n h fe ve pe)) [
                    | inr bad ↦
                        rw
                          (proceed-stop (check_ranges n h fe ve pe)
                            (place c h ve (page_base_of h.physical_address) (page_end_of h pe))
                            (λ status. (status, c)) bad)
                          (λ e. absurd (bad e))
                    | inl good ↦
                        let (file, low, high) = check_ranges-ok n h fe ve pe good in
                        let (base, al', up, top, cover) =
                          page_end_of-bounds h pe (add_u64-some _ _ pe ep) high in
                        let end_at = add_u64-some h.physical_address h.memory_size pe ep in
                        rw good (
                          place-IsPlanned n c h ve (page_base_of h.physical_address)
                            (page_end_of h pe) p
                            (omega (arith, add_u64-some h.file_offset h.file_size fe ef))
                            (ground arith) (ground arith) (add_u64-some _ _ ve ev) (omega arith) al'
                            (omega arith) up top
                            (subst (λ t. (h.memory_size ≡ 0) ⊎ (t ≤ page_end_of h pe)) end_at
                              cover))
                  ])
          ]
        ]
      ]
    ]
  ]
]
