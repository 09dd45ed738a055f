-- ===== src/Capsule/Parse/Payloads.antt =====
-- The checksums of the payloads in `bbp_v2_parse` of v2/bbp_v2.c.
use bear_boot.Prelude.{
  ℕ, suc, ◌+◌, ◌*◌, ◌≡◌, inl, inr, refl, ◌∙◌, false, ◌!=◌, if◌then◌else◌, some, List, [], ◌∷◌,
  arith, length, Bool-cases, Ensures, subst,
}
use bear_boot.Memory.{Memory, load_bytes, IsMapped}
use bear_boot.Memory.Loads.{load_bytes-Returns, IsMapped-part}
use bear_boot.Crc.{crc64}
use bear_boot.Capsule.{ok, err_crc, directory_entry}
use bear_boot.Capsule.Parse.Entries.{HasEntries, AllEntries}
use bear_boot.Capsule.Parse.{HeaderFields, EntryFields, read_entry, check_payloads}

-- The payload has the checksum of its entry.
abbrev pub IsSealed : Memory → ℕ → EntryFields → Type 0
IsSealed m capsule e =
    (bytes : List ℕ) × (load_bytes m (capsule + e.offset) e.size ≡ some bytes)
    × (crc64 bytes ≡ e.checksum)

abbrev pub AllSealed : Memory → ℕ → List EntryFields → Type 0
AllSealed m capsule [] = Unit {0}
AllSealed m capsule (e ∷ es) = IsSealed m capsule e × AllSealed m capsule es

payload_verdict : (got want : ℕ) → (got != want) ≡ false → got ≡ want
payload_verdict got want e = ground arith

check_payloads-step :
    (m : Memory) (capsule at left index : ℕ) {e : EntryFields} {bytes : List ℕ}
    → read_entry m (directory_entry capsule at index) ≡ some e
    → load_bytes m (capsule + e.offset) e.size ≡ some bytes
    → check_payloads m capsule at (suc left) index ≡ (
        if crc64 bytes != e.checksum
        then some err_crc
        else check_payloads m capsule at left (index + 1))
unfolding check_payloads
check_payloads-step m capsule at left index er eb = rw (er, eb) refl

module _ (m : Memory) (capsule extent : ℕ) (h : HeaderFields) (mapped : IsMapped m capsule extent)
    (sized : h.total_size ≡ extent) where
  pub check_payloads_sound :
      (es : List EntryFields) (index : ℕ)
      → HasEntries m (capsule + h.directory_offset + index * 48) es
      → AllEntries h es
      → Ensures
          (λ status. status ≡ ok → AllSealed m capsule es)
          (check_payloads m capsule h.directory_offset (length es) index)
  check_payloads_sound [] index here all = (ok, unfold check_payloads in refl, λ _. tt)
  check_payloads_sound (e ∷ es) index here all =
      let (bytes, eb) = load_bytes-Returns m (capsule + e.offset) e.size (
        IsMapped-part m capsule extent e.offset e.size mapped
          (omega (arith, all.0.inside, sized))) in
      let (status, es', k) =
        check_payloads_sound es (index + 1) (subst (λ a. HasEntries m a es) (omega arith) here.1)
          all.1 in
      let step =
        check_payloads-step m capsule h.directory_offset (length es) index (at here.0.whole) eb in
      elim (Bool-cases (crc64 bytes != e.checksum)) [
        | inl bad ↦ (err_crc, step ∙ (rw bad refl), λ g. cc)
        | inr same ↦ (
          status,
          step ∙ (rw same es'),
          λ g. ((bytes, eb, payload_verdict (crc64 bytes) e.checksum same), k g),
        )
      ]
    where
      at :
          read_entry m (capsule + h.directory_offset + index * 48) ≡ some e
          → read_entry m (directory_entry capsule h.directory_offset index) ≡ some e
      at r = unfold directory_entry in r
