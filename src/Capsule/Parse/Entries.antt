-- ===== src/Capsule/Parse/Entries.antt =====
-- The directory that v2/bbp_v2.c accepts: every entry is well formed, and no two payloads overlap.
use bear_boot.Prelude.{
  ℕ, zero, suc, ◌+◌, ◌-◌, ◌*◌, ◌%◌, ◌^◌, ◌≤◌, ◌<◌, ◌≡◌, ◌≢◌, ◌⊎◌, inl, inr, refl, sym, ap, ◌∙◌,
  Bool, true, false, ◌&&◌, ltb, if◌then◌else◌, bit_and, Option, some, List, [], ◌∷◌, ◌++◌, arith,
  length, length-append, Bool-cases, Ensures, subst,
}
use bear_boot.Memory.{Memory, IsMapped}
use bear_boot.Memory.Loads.{load-Returns, IsMapped-part}
use bear_boot.Capsule.{
  CapsuleStatus, ok, err_overlap, err_work, get64, power_of_two, span_overlaps, directory_entry,
}
use bear_boot.Capsule.Status.{CapsuleStatus-ok, proceed-stop}
use bear_boot.Capsule.Parse.{
  HeaderFields, EntryFields, read_entry, check_entry, overlaps_prior, check_entries,
}

-- The entry at the address `a` has these fields.
pub record IsEntryAt (m : Memory) (a : ℕ) (e : EntryFields) : Type 0 where
  pub whole : read_entry m a ≡ some e
  pub offset : get64 m (a + 16) ≡ some e.offset
  pub size : get64 m (a + 24) ≡ some e.size
  pub checksum : get64 m (a + 32) ≡ some e.checksum

pub read_entry-IsEntryAt :
    (m : Memory) (a : ℕ) → IsMapped m a 48 → (e : EntryFields) × IsEntryAt m a e
unfolding read_entry
read_entry-IsEntryAt m a mapped =
    let part = λ (o n : ℕ) (fits : o + n ≤ 48).
      load-Returns m (a + o) n (IsMapped-part m a 48 o n mapped fits) in
    let (r, er) = part 14 2 (omega arith) in
    let (o, eo) = part 16 8 (omega arith) in
    let (s, es) = part 24 8 (omega arith) in
    let (c, ec) = part 32 8 (omega arith) in
    let (l, el) = part 40 4 (omega arith) in
    let (t, et) = part 44 4 (omega arith) in
    (
      record { reserved0 = r; offset = o; size = s; checksum = c; alignment = l; reserved1 = t },
      record { whole = rw (er, eo, es, ec, el, et) refl; offset = eo; size = es; checksum = ec },
    )

-- The directory at the address `a` holds these entries.
abbrev pub HasEntries : Memory → ℕ → List EntryFields → Type 0
HasEntries m a [] = Unit {0}
HasEntries m a (e ∷ es) = IsEntryAt m a e × HasEntries m (a + 48) es

pub HasEntries-exist :
    (m : Memory) (n a : ℕ)
    → IsMapped m a (n * 48)
    → (es : List EntryFields) × (length es ≡ n) × HasEntries m a es
HasEntries-exist m zero a mapped = ([], refl, tt)
HasEntries-exist m (suc n) a mapped =
    let (e, r) = read_entry-IsEntryAt m a (λ x u v. mapped x u (omega arith)) in
    let (es, len, h) =
      HasEntries-exist m n (a + 48) (λ x u v. mapped x (omega arith) (omega arith)) in
    (e ∷ es, ap suc len, (r, h))

pub HasEntries-append :
    (m : Memory) (a : ℕ) (ps : List EntryFields) (e : EntryFields)
    → HasEntries m a ps
    → IsEntryAt m (a + length ps * 48) e
    → HasEntries m a (ps ++ (e ∷ []))
HasEntries-append m a [] e h r = (subst (λ t. IsEntryAt m t e) (omega arith) r, tt)
HasEntries-append m a (p ∷ ps) e h r =
    (h.0, HasEntries-append m (a + 48) ps e h.1 (subst (λ t. IsEntryAt m t e) (omega arith) r))

-- An entry as the format wants it: reserved fields zero, aligned to a power of two of at most 4096,
-- not empty, and inside the capsule, apart from the header and the directory.
pub record IsEntry (h : HeaderFields) (e : EntryFields) : Type 0 where
  pub reserved0 : e.reserved0 ≡ 0
  pub reserved1 : e.reserved1 ≡ 0
  pub power : power_of_two e.alignment ≡ true
  pub small : e.alignment ≤ 4096
  pub aligned : bit_and e.offset (e.alignment - 1) ≡ 0
  pub nonempty : 0 < e.size
  pub inside : e.offset + e.size ≤ h.total_size
  pub off_header : 64 ≤ e.offset
  pub off_directory :
      (e.offset + e.size ≤ h.directory_offset)
      ⊎ (h.directory_offset + h.entry_count * 48 ≤ e.offset)

-- The bounds of the header that the checks on entries rest on.
pub record IsBounded (h : HeaderFields) : Type 0 where
  pub total : h.total_size ≤ 67108864
  pub directory_at : 64 ≤ h.directory_offset
  pub directory : h.directory_offset + h.entry_count * 48 ≤ h.total_size

check_entry-IsEntry :
    (h : HeaderFields) (e : EntryFields) → IsBounded h → check_entry h e ≡ ok → IsEntry h e
unfolding check_entry span_overlaps
check_entry-IsEntry h e b c = record {
  reserved0 = ground (arith, b.total);
  reserved1 = ground (arith, b.total);
  power = ground (arith, b.total);
  small = ground (arith, b.total);
  aligned = ground (arith, b.total);
  nonempty = ground (arith, b.total);
  inside = ground (arith, b.total);
  off_header = ground (arith, b.total, b.directory);
  off_directory = ground (arith, b.total, b.directory);
}

abbrev pub AllEntries : HeaderFields → List EntryFields → Type 0
AllEntries h [] = Unit {0}
AllEntries h (e ∷ es) = IsEntry h e × AllEntries h es

AllEntries-append :
    (h : HeaderFields) (ps : List EntryFields) (e : EntryFields)
    → AllEntries h ps
    → IsEntry h e
    → AllEntries h (ps ++ (e ∷ []))
AllEntries-append h [] e a i = (i, tt)
AllEntries-append h (p ∷ ps) e a i = (a.0, AllEntries-append h ps e a.1 i)

-- The payload overlaps none of those before it.
abbrev pub ApartFrom : EntryFields → List EntryFields → Type 0
ApartFrom e [] = Unit {0}
ApartFrom e (p ∷ ps) =
    ((e.offset + e.size ≤ p.offset) ⊎ (p.offset + p.size ≤ e.offset)) × ApartFrom e ps

-- Behind `ps`, each payload of `es` overlaps none before it.
abbrev pub AllApart : List EntryFields → List EntryFields → Type 0
AllApart ps [] = Unit {0}
AllApart ps (e ∷ es) = ApartFrom e ps × AllApart (ps ++ (e ∷ [])) es

abbrev pub total_work : List EntryFields → ℕ
total_work [] = 0
total_work (e ∷ es) = e.size + total_work es

overlaps_prior-ApartFrom :
    (m : Memory) (h : HeaderFields) (e : EntryFields) (a : ℕ) (ps : List EntryFields)
    → IsBounded h
    → IsEntry h e
    → HasEntries m a ps
    → AllEntries h ps
    → Ensures
        (λ overlap. overlap ≡ false → ApartFrom e ps)
        (overlaps_prior m a (length ps) e.offset e.size)
unfolding overlaps_prior span_overlaps
overlaps_prior-ApartFrom m h e a [] b i r all = (false, refl, λ _. tt)
overlaps_prior-ApartFrom m h e a (p ∷ ps) b i r all =
    let (rest, er, k) = overlaps_prior-ApartFrom m h e (a + 48) ps b i r.1 all.1 in
    let unwrap_e : (e.offset + e.size) % 2 ^ 64 ≡ e.offset + e.size =
      omega (arith, b.total, i.inside) in
    let unwrap_p : (p.offset + p.size) % 2 ^ 64 ≡ p.offset + p.size =
      omega (arith, b.total, all.0.inside) in
    elim (Bool-cases (ltb e.offset (p.offset + p.size) && ltb p.offset (e.offset + e.size))) [
      | inl meet ↦ rw (r.0.offset, r.0.size, unwrap_e, unwrap_p, meet) (_, refl, λ q. cc)
      | inr clear ↦
          rw (r.0.offset, r.0.size, unwrap_e, unwrap_p, clear) (rest, er, λ q. (ground arith, k q))
    ]

abbrev verdict : Bool → ℕ → EntryFields → Option CapsuleStatus → Option CapsuleStatus
verdict overlap crc_work e rest =
    if overlap
    then some err_overlap
    else if ltb (100663296 - crc_work) e.size
    then some err_work
    else rest

check_entries-step :
    (m : Memory) (capsule : ℕ) (h : HeaderFields) (left index crc_work : ℕ) {e : EntryFields}
    {overlap : Bool}
    → read_entry m (directory_entry capsule h.directory_offset index) ≡ some e
    → check_entry h e ≡ ok
    → overlaps_prior m (directory_entry capsule h.directory_offset 0) index e.offset e.size
      ≡ some overlap
    → check_entries m capsule h (suc left) index crc_work
      ≡ verdict overlap crc_work e (check_entries m capsule h left (index + 1) (crc_work + e.size))
unfolding check_entries
check_entries-step m capsule h left index crc_work er good eo = rw (er, good, eo) refl

check_entries-stop :
    (m : Memory) (capsule : ℕ) (h : HeaderFields) (left index crc_work : ℕ) (e : EntryFields)
    → read_entry m (directory_entry capsule h.directory_offset index) ≡ some e
    → check_entry h e ≢ ok
    → check_entries m capsule h (suc left) index crc_work ≡ some (check_entry h e)
unfolding check_entries
check_entries-stop m capsule h left index crc_work e er bad =
    rw er (proceed-stop (check_entry h e) _ some bad)

module _ (m : Memory) (capsule : ℕ) (h : HeaderFields) (b : IsBounded h) where
  pub check_entries_sound :
      (ps es : List EntryFields) (crc_work : ℕ)
      → HasEntries m (capsule + h.directory_offset) ps
      → HasEntries m (capsule + h.directory_offset + length ps * 48) es
      → AllEntries h ps
      → crc_work ≤ 100663296
      → Ensures
          (λ status.
            status ≡ ok → AllEntries h es × AllApart ps es × (crc_work + total_work es ≤ 100663296))
          (check_entries m capsule h (length es) (length ps) crc_work)
  check_entries_sound ps [] crc_work before here all fits =
      (ok, unfold check_entries in refl, λ _. (tt, tt, omega arith))
  check_entries_sound ps (e ∷ es) crc_work before here all fits =
      elim (CapsuleStatus-ok (check_entry h e)) [
        | inr bad ↦ (
          _,
          check_entries-stop m capsule h (length es) (length ps) crc_work e (at here.0.whole) bad,
          λ g. absurd (bad g),
        )
        | inl good ↦
            let i = check_entry-IsEntry h e b good in
            let (overlap, eo, apart) =
              overlaps_prior-ApartFrom m h e (directory_entry capsule h.directory_offset 0) ps b i
                (subst (λ a. HasEntries m a ps) (sym first) before) all in
            let step =
              check_entries-step m capsule h (length es) (length ps) crc_work (at here.0.whole) good
                eo in
            elim (Bool-cases overlap) [
              | inl meet ↦ (err_overlap, step ∙ (rw meet refl), λ g. cc)
              | inr clear ↦ elim (Bool-cases (ltb (100663296 - crc_work) e.size)) [
                | inl much ↦ (err_work, step ∙ (rw (clear, much) refl), λ g. cc)
                | inr work ↦
                    let len : length (ps ++ (e ∷ [])) ≡ length ps + 1 =
                      omega (arith, length-append ps (e ∷ [])) in
                    let (status, es', k) =
                      check_entries_sound (ps ++ (e ∷ [])) es (crc_work + e.size)
                        (HasEntries-append m (capsule + h.directory_offset) ps e before here.0)
                        (subst (λ a. HasEntries m a es) (omega (arith, len)) here.1)
                        (AllEntries-append h ps e all i) (ground arith) in
                    (
                      status,
                      step
                          ∙ (rw (clear, work)
                              (ap (λ n. check_entries m capsule h (length es) n (crc_work + e.size))
                                  (sym len)
                                ∙ es')),
                      λ g. let (q, r, w) = k g in ((i, q), (apart clear, r), omega (arith, w)),
                    )
              ]
            ]
      ]
    where
      first : directory_entry capsule h.directory_offset 0 ≡ capsule + h.directory_offset
      first = unfold directory_entry in omega arith

      at :
          read_entry m (capsule + h.directory_offset + length ps * 48) ≡ some e
          → read_entry m (directory_entry capsule h.directory_offset (length ps)) ≡ some e
      at r = unfold directory_entry in r
