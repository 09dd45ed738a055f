-- ===== src/Uefi/Elf/Segments.antt =====
-- What a segment that bootloader/uefi/elf64_loader.c admits to the plan satisfies.
use bear_boot.Prelude.{
  ℕ, ◌+◌, ◌-◌, ◌*◌, ◌/◌, ◌%◌, ◌^◌, ◌≤◌, ◌<◌, ◌≡◌, ◌≢◌, ◌⊎◌, inl, inr, refl, ap, ◌∙◌, true, false,
  ◌==◌, bit_and, some, List, [], ◌∷◌, ◌++◌, arith, Bool-cases,
}
use Prim.Native.Nat.{min}
use bear_boot.Word.Bits.{bit_and_step, bit_and_mask}
use bear_boot.Uefi.Elf.{
  ok, Segment, Candidate, LoadHeader, add_u64, ranges_overlap, check_ranges, page_base_of,
  page_end_of, overlaps_previous,
}

bit_and_even : (x y : ℕ) → bit_and x (2 * y) ≡ 2 * bit_and (x / 2) y
bit_and_even x y =
    let half : 2 * y / 2 ≡ y = omega arith in
    let step : bit_and x (2 * y) ≡ bit_and (x / 2) y * 2 + min (x % 2) (2 * y % 2) =
      bit_and_step x (2 * y) ∙ ap (λ t. bit_and (x / 2) t * 2 + min (x % 2) (2 * y % 2)) half in
    ground (arith, step)

bit_and_sixteen :
    (x y : ℕ) → bit_and x (2 * (2 * (2 * (2 * y)))) ≡ 16 * bit_and (x / 2 / 2 / 2 / 2) y
bit_and_sixteen x y = omega (
  arith,
  bit_and_even x (2 * (2 * (2 * y))),
  bit_and_even (x / 2) (2 * (2 * y)),
  bit_and_even (x / 2 / 2) (2 * y),
  bit_and_even (x / 2 / 2 / 2) y,
)

-- Clearing the twelve low bits of a 64-bit word.
pub bit_and_page : (x : ℕ) → x < 2 ^ 64 → bit_and x (2 ^ 64 - 4096) ≡ x / 4096 * 4096
bit_and_page x small = omega (
  arith,
  bit_and_sixteen x (2 ^ 60 - 256),
  bit_and_sixteen (x / 2 / 2 / 2 / 2) (2 ^ 56 - 16),
  bit_and_sixteen (x / 2 / 2 / 2 / 2 / 2 / 2 / 2 / 2) (2 ^ 52 - 1),
  bit_and_mask 52 (x / 2 / 2 / 2 / 2 / 2 / 2 / 2 / 2 / 2 / 2 / 2 / 2) (2 ^ 52 - 1) refl,
)

-- A segment that may be loaded: its bytes lie in the file and fit its memory, it is not both
-- writable and executable, and its pages are aligned, cover its memory and end at most at 2 ^ 48.
pub record IsLoadable (image_size : ℕ) (s : Segment) : Type 0 where
  pub in_file : s.file_offset + s.file_size ≤ image_size
  pub fits : s.file_size ≤ s.memory_size
  pub no_wx : bit_and s.flags 3 ≢ 3
  pub aligned : s.page_base % 4096 ≡ 0
  pub starts : s.page_base ≤ s.physical_address
  pub covers :
      (s.memory_size ≡ 0) ⊎ (s.physical_address + s.memory_size ≤ s.page_base + s.page_count * 4096)
  pub ends : s.page_base + s.page_count * 4096 ≤ 2 ^ 48

-- Two segments share no page.
abbrev pub Apart : Segment → Segment → Type 0
Apart s t =
    (s.page_count ≡ 0)
    ⊎ ((t.page_count ≡ 0)
        ⊎ ((s.page_base + s.page_count * 4096 ≤ t.page_base)
            ⊎ (t.page_base + t.page_count * 4096 ≤ s.page_base)))

-- Every segment may be loaded.
abbrev pub AllLoadable : ℕ → List Segment → Type 0
AllLoadable image_size [] = Unit {0}
AllLoadable image_size (s ∷ rest) = IsLoadable image_size s × AllLoadable image_size rest

abbrev pub ApartFrom : Segment → List Segment → Type 0
ApartFrom s [] = Unit {0}
ApartFrom s (t ∷ rest) = Apart t s × ApartFrom s rest

-- No two segments share a page.
abbrev pub AllApart : List Segment → Type 0
AllApart [] = Unit {0}
AllApart (s ∷ rest) = ApartFrom s rest × AllApart rest

-- Some executable segment holds the entry point.
abbrev pub IsCovered : ℕ → List Segment → Type 0
IsCovered entry [] = ⊥
IsCovered entry (s ∷ rest) =
    ((bit_and s.flags 1 ≢ 0)
      × (s.virtual_address ≤ entry)
      × (entry < s.virtual_address + s.memory_size))
    ⊎ IsCovered entry rest

pub record IsPlanned (image_size : ℕ) (c : Candidate) : Type 0 where
  pub loadable : AllLoadable image_size c.plan.segments
  pub apart : AllApart c.plan.segments
  pub covered : c.entry_covered ≡ true → IsCovered c.plan.entry c.plan.segments

pub AllLoadable-append :
    (n : ℕ) (ss : List Segment) (s : Segment)
    → AllLoadable n ss
    → IsLoadable n s
    → AllLoadable n (ss ++ (s ∷ []))
AllLoadable-append n [] s h k = (k, tt)
AllLoadable-append n (t ∷ ss) s h k = (h.0, AllLoadable-append n ss s h.1 k)

Apart-sym : (s t : Segment) → Apart s t → Apart t s
Apart-sym s t (inl a) = inr (inl a)
Apart-sym s t (inr (inl a)) = inl a
Apart-sym s t (inr (inr (inl a))) = inr (inr (inr a))
Apart-sym s t (inr (inr (inr a))) = inr (inr (inl a))

ApartFrom-append :
    (s t : Segment) (ss : List Segment) → ApartFrom s ss → Apart t s → ApartFrom s (ss ++ (t ∷ []))
ApartFrom-append s t [] h k = (k, tt)
ApartFrom-append s t (u ∷ ss) h k = (h.0, ApartFrom-append s t ss h.1 k)

pub AllApart-append :
    (ss : List Segment) (s : Segment) → AllApart ss → ApartFrom s ss → AllApart (ss ++ (s ∷ []))
AllApart-append [] s h k = (tt, tt)
AllApart-append (t ∷ ss) s h k =
    (ApartFrom-append t s ss h.0 (Apart-sym t s k.0), AllApart-append ss s h.1 k.1)

pub IsCovered-append :
    (e : ℕ) (ss : List Segment) (s : Segment) → IsCovered e ss → IsCovered e (ss ++ (s ∷ []))
IsCovered-append e [] s h = absurd h
IsCovered-append e (t ∷ ss) s (inl h) = inl h
IsCovered-append e (t ∷ ss) s (inr h) = inr (IsCovered-append e ss s h)

pub IsCovered-last :
    (e : ℕ) (ss : List Segment) (s : Segment) → IsCovered e (s ∷ []) → IsCovered e (ss ++ (s ∷ []))
IsCovered-last e [] s h = h
IsCovered-last e (t ∷ ss) s h = inr (IsCovered-last e ss s h)

pub overlaps_previous-ApartFrom :
    (n : ℕ) (s : Segment) (ss : List Segment)
    → AllLoadable n ss
    → overlaps_previous s.page_base (s.page_base + s.page_count * 4096) ss ≡ false
    → ApartFrom s ss
unfolding overlaps_previous ranges_overlap
overlaps_previous-ApartFrom n s [] h e = tt
overlaps_previous-ApartFrom n s (t ∷ ss) h e =
    let unwrapped : (t.page_base + t.page_count * 4096) % 2 ^ 64
        ≡ t.page_base + t.page_count * 4096 =
      omega (arith, h.0.ends) in
    let e' = rw unwrapped at e in
    (ground arith, overlaps_previous-ApartFrom n s ss h.1 (ground arith))

-- The checks on the ranges of a header, as bounds.
pub check_ranges-ok :
    (n : ℕ) (h : LoadHeader) (file_end virtual_end physical_end : ℕ)
    → check_ranges n h file_end virtual_end physical_end ≡ ok
    → (file_end ≤ n) × (h.physical_address < 2 ^ 48) × (physical_end ≤ 2 ^ 48)
unfolding check_ranges
check_ranges-ok n h file_end virtual_end physical_end e = ground arith

pub add_u64-some : (a b s : ℕ) → add_u64 a b ≡ some s → s ≡ a + b
unfolding add_u64
add_u64-some a b s e = ground arith

pub page_end_of-bounds :
    (h : LoadHeader) (physical_end : ℕ)
    → physical_end ≡ h.physical_address + h.memory_size
    → physical_end ≤ 2 ^ 48
    → (page_base_of h.physical_address ≡ h.physical_address / 4096 * 4096)
      × (page_end_of h physical_end % 4096 ≡ 0)
      × (page_base_of h.physical_address ≤ page_end_of h physical_end)
      × (page_end_of h physical_end ≤ 2 ^ 48)
      × ((h.memory_size ≡ 0) ⊎ (physical_end ≤ page_end_of h physical_end))
unfolding page_base_of page_end_of
page_end_of-bounds h physical_end e low =
    let base = bit_and_page h.physical_address (omega arith) in
    let wrap : (physical_end + 4096 - 1) % 2 ^ 64 ≡ physical_end + 4095 = omega arith in
    let top = bit_and_page (physical_end + 4095) (omega arith) in
    elim (Bool-cases (h.memory_size == 0)) [
      | inl zero_size ↦
          rw (zero_size, base) (refl, omega arith, omega arith, omega arith, inl (ground arith))
      | inr sized ↦
          rw (sized, base, wrap, top)
            (refl, omega arith, omega arith, omega arith, inr (omega arith))
    ]
