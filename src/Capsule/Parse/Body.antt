-- ===== src/Capsule/Parse/Body.antt =====
-- The capsule that the checks behind the header in `bbp_v2_parse` of v2/bbp_v2.c accept.
use bear_boot.Prelude.{
  ℕ, ◌+◌, ◌*◌, ◌≤◌, ◌<◌, ◌≡◌, ◌≢◌, ◌⊎◌, inl, inr, refl, ap, ◌∙◌, false, ◌!=◌, if◌then◌else◌, some,
  List, [], ◌∷◌, arith, length, Bool-cases, Ensures, subst,
}
use bear_boot.Memory.{Memory, load_bytes, IsMapped}
use bear_boot.Memory.Loads.{IsMapped-part, load-Returns}
use bear_boot.Capsule.{
  CapsuleStatus, ok, err_crc, proceed, magic, get64, directory_entry, crc_with_zero_checksum,
}
use bear_boot.Capsule.Parse.{
  HeaderFields, EntryFields, read_header, check_entries, validate_padding, check_payloads,
  check_body,
}
use bear_boot.Capsule.Parse.Entries.{
  HasEntries, HasEntries-exist, AllEntries, AllApart, total_work, check_entries_sound,
}
use bear_boot.Capsule.Parse.Payloads.{AllSealed, check_payloads_sound}
use bear_boot.Capsule.Parse.Padding.{AllSpans, validate_padding-covers}
use bear_boot.Capsule.Status.{CapsuleStatus-ok, proceed-stop}
use bear_boot.Capsule.Parse.Header.{IsHeader, crc_with_zero_checksum-Returns}

-- The byte at the offset `x` belongs to a payload.
abbrev pub InPayload : List EntryFields → ℕ → Type 0
InPayload [] x = ⊥
InPayload (e ∷ es) x = ((e.offset ≤ x) × (x < e.offset + e.size)) ⊎ InPayload es x

-- Each byte of the capsule is in the header, in the directory, in a payload, or zero.
abbrev pub IsAccounted : Memory → ℕ → HeaderFields → List EntryFields → ℕ → Type 0
IsAccounted m capsule h es x =
    (x < 64)
    ⊎ (((h.directory_offset ≤ x) × (x < h.directory_offset + h.entry_count * 48))
        ⊎ (InPayload es x ⊎ (m (capsule + x) ≡ some 0)))

-- The memory holds a capsule of `extent` bytes with this header and these entries.
pub record IsCapsule (m : Memory) (capsule extent : ℕ) (h : HeaderFields) (es : List EntryFields)
    : Type 0 where
  pub known : load_bytes m capsule 8 ≡ some magic
  pub whole : read_header m capsule ≡ some h
  pub header : IsHeader extent h
  pub count : length es ≡ h.entry_count
  pub entries : HasEntries m (capsule + h.directory_offset) es
  pub formed : AllEntries h es
  pub apart : AllApart [] es
  pub work : extent + total_work es ≤ 100663296
  pub accounted : (x : ℕ) → x < extent → IsAccounted m capsule h es x
  pub checksum :
      (crc : ℕ) × (crc_with_zero_checksum m capsule extent ≡ some crc)
      × (get64 m (capsule + 40) ≡ some crc)
  pub sealed : AllSealed m capsule es

AllEntries-AllSpans :
    (m : Memory) (capsule extent : ℕ) (h : HeaderFields) (es : List EntryFields)
    (mapped : IsMapped m capsule extent) (P : ℕ → Type 0)
    (zero_holds : (x : ℕ) → m (capsule + x) ≡ some 0 → P x)
    → h.total_size ≡ extent
    → AllEntries h es
    → ((x : ℕ) → InPayload es x → P x)
    → AllSpans m capsule extent mapped P zero_holds es
AllEntries-AllSpans m capsule extent h [] mapped P z sized all k = tt
AllEntries-AllSpans m capsule extent h (e ∷ es) mapped P z sized all k = (
  (omega (arith, all.0.inside, sized), λ x u v. k x (inl (u, v))),
  AllEntries-AllSpans m capsule extent h es mapped P z sized all.1 (λ x i. k x (inr i)),
)

check_body-step :
    (m : Memory) (capsule extent : ℕ) (h : HeaderFields) {padding : CapsuleStatus} {got want : ℕ}
    → check_entries m capsule h h.entry_count 0 h.total_size ≡ some ok
    → validate_padding m capsule extent h.directory_offset h.entry_count ≡ some padding
    → crc_with_zero_checksum m capsule extent ≡ some got
    → get64 m (capsule + 40) ≡ some want
    → check_body m capsule extent h
      ≡ proceed padding
          (if got != want
            then some err_crc
            else check_payloads m capsule h.directory_offset h.entry_count 0)
          some
unfolding check_body
check_body-step m capsule extent h e p g w = rw (e, p, g, w) refl

check_body-stop :
    (m : Memory) (capsule extent : ℕ) (h : HeaderFields) (status : CapsuleStatus)
    → check_entries m capsule h h.entry_count 0 h.total_size ≡ some status
    → status ≢ ok
    → check_body m capsule extent h ≡ some status
unfolding check_body
check_body-stop m capsule extent h status e bad = rw e (proceed-stop status _ some bad)

module _ (m : Memory) (capsule extent : ℕ) (h : HeaderFields) (mapped : IsMapped m capsule extent)
    (long : 64 ≤ extent) (known : load_bytes m capsule 8 ≡ some magic)
    (whole : read_header m capsule ≡ some h) (header : IsHeader extent h) where
  checksummed :
      (es : List EntryFields) (got want : ℕ)
      → crc_with_zero_checksum m capsule extent ≡ some got
      → get64 m (capsule + 40) ≡ some want
      → (got != want) ≡ false
      → (crc : ℕ) × (crc_with_zero_checksum m capsule extent ≡ some crc)
        × (get64 m (capsule + 40) ≡ some crc)
  checksummed es got want g w same = let eq : want ≡ got = ground arith in (got, g, w ∙ ap some eq)

  module _ (es : List EntryFields) (count : length es ≡ h.entry_count)
      (here : HasEntries m (capsule + h.directory_offset) es) (formed : AllEntries h es) where
    validate_padding-IsAccounted :
        Ensures
          (λ status. status ≡ ok → (x : ℕ) → x < extent → IsAccounted m capsule h es x)
          (validate_padding m capsule extent h.directory_offset h.entry_count)
    validate_padding-IsAccounted =
        let null : (x : ℕ) → m (capsule + x) ≡ some 0 → IsAccounted m capsule h es x =
          λ x z. inr (inr (inr z)) in
        let first : capsule + h.directory_offset ≡ directory_entry capsule h.directory_offset 0 =
          unfold directory_entry in omega arith in
        let (status, e, k) =
          validate_padding-covers m capsule extent mapped (IsAccounted m capsule h es) null
            h.directory_offset es (subst (λ a. HasEntries m a es) first here)
            (AllEntries-AllSpans m capsule extent h es mapped (IsAccounted m capsule h es) null
              header.total formed (λ x i. inr (inr (inl i))))
            (omega arith, λ x u v. inl (omega arith))
            (
              omega (arith, count, header.bounded.directory, header.total),
              λ x u v. inr (inl (u, omega (arith, count))),
            ) in
        (status, rw count at e, k)

    payloads-sealed :
        Ensures
          (λ status. status ≡ ok → AllSealed m capsule es)
          (check_payloads m capsule h.directory_offset h.entry_count 0)
    payloads-sealed =
        let (status, e, k) =
          check_payloads_sound m capsule extent h mapped header.total es 0
            (subst (λ a. HasEntries m a es) (omega arith) here) formed in
        (status, rw count at e, k)

    admitted-IsCapsule :
        AllApart [] es
        → h.total_size + total_work es ≤ 100663296
        → check_entries m capsule h h.entry_count 0 h.total_size ≡ some ok
        → Ensures
            (λ status. status ≡ ok → (es' : List EntryFields) × IsCapsule m capsule extent h es')
            (check_body m capsule extent h)
    admitted-IsCapsule apart work passed =
        let (padding, ep, accounted) = validate_padding-IsAccounted in
        let (got, eg) = crc_with_zero_checksum-Returns m capsule extent mapped long in
        let (want, ew) =
          load-Returns m (capsule + 40) 8
            (IsMapped-part m capsule extent 40 8 mapped (omega arith)) in
        let (payloads, el, sealed) = payloads-sealed in
        let step = check_body-step m capsule extent h passed ep eg ew in
        elim (CapsuleStatus-ok padding) [
          | inr bad ↦ (padding, step ∙ proceed-stop padding _ some bad, λ g. absurd (bad g))
          | inl fine ↦ elim (Bool-cases (got != want)) [
            | inl differ ↦ (err_crc, step ∙ (rw (fine, differ) refl), λ g. cc)
            | inr same ↦ (
              payloads,
              step ∙ (rw (fine, same) el),
              λ g. (
                es,
                record {
                  known = known;
                  whole = whole;
                  header = header;
                  count = count;
                  entries = here;
                  formed = formed;
                  apart = apart;
                  work = omega (arith, work, header.total);
                  accounted = accounted fine;
                  checksum = checksummed es got want eg ew same;
                  sealed = sealed g;
                },
              ),
            )
          ]
        ]

  pub check_body-IsCapsule :
      Ensures
        (λ status. status ≡ ok → (es : List EntryFields) × IsCapsule m capsule extent h es)
        (check_body m capsule extent h)
  check_body-IsCapsule =
      let (es, count, here) = HasEntries-exist m h.entry_count (capsule + h.directory_offset) (
        IsMapped-part m capsule extent h.directory_offset (h.entry_count * 48) mapped
          (omega (arith, header.bounded.directory, header.total))) in
      let (status, e, sound) =
        check_entries_sound m capsule h header.bounded [] es h.total_size tt
          (subst (λ a. HasEntries m a es) (omega arith) here) tt
          (omega (arith, header.bounded.total)) in
      elim (CapsuleStatus-ok status) [
        | inr bad ↦ (
          status,
          check_body-stop m capsule extent h status (rw count at e) bad,
          λ g. absurd (bad g),
        )
        | inl good ↦
            let (formed, apart, work) = sound good in
            admitted-IsCapsule es count here formed apart work ((rw count at e) ∙ ap some good)
      ]
