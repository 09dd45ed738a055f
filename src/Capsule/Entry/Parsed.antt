-- ===== src/Capsule/Entry/Parsed.antt =====
-- `bbp_v2_get_entry` of v2/bbp_v2.c behind `bbp_v2_parse`: on a view that the parser published.
use bear_boot.Prelude.{
  ℕ, zero, suc, ◌+◌, ◌-◌, ◌*◌, ◌≤◌, ◌<◌, ◌≡◌, ◌≢◌, inl, inr, refl, sym, ap, ◌∙◌, false, ◌||◌, ltb,
  leb, ◌==◌, Option, some, List, [], ◌∷◌, arith, length, eq_of_some, Ensures, subst,
}
use bear_boot.Memory.{Memory, load_bytes, IsMapped}
use bear_boot.Crc.{crc64}
use bear_boot.Capsule.{CapsuleStatus, ok, View, EntryView, get64, directory_entry}
use bear_boot.Capsule.Entry.{get_entry}
use bear_boot.Capsule.Entry.Inside.{
  IsView, IsSane, IsSane-outside_extent, read_view-IsView, directory_entry-IsMapped, get_entry-step,
}
use bear_boot.Capsule.Parse.{HeaderFields, EntryFields, view_of, parse}
use bear_boot.Capsule.Parse.Entries.{HasEntries, IsEntryAt, IsEntry, AllEntries}
use bear_boot.Capsule.Parse.Payloads.{IsSealed, AllSealed}
use bear_boot.Capsule.Parse.Sound.{parse-IsParse}
use bear_boot.Capsule.Parse.Body.{IsCapsule}

pick :
    (m : Memory) (capsule a : ℕ) (h : HeaderFields) (es : List EntryFields) (index : ℕ)
    → HasEntries m a es
    → AllEntries h es
    → AllSealed m capsule es
    → index < length es
    → (e : EntryFields) × IsEntryAt m (a + index * 48) e × IsEntry h e × IsSealed m capsule e
pick m capsule a h [] index here formed sealed below = absurd (omega arith)
pick m capsule a h (e ∷ es) zero here formed sealed below =
    (e, subst (λ t. IsEntryAt m t e) (omega arith) here.0, formed.0, sealed.0)
pick m capsule a h (e ∷ es) (suc index) here formed sealed below =
    let (x, r, i, s) = pick m capsule (a + 48) h es index here.1 formed.1 sealed.1 (omega arith) in
    (x, subst (λ t. IsEntryAt m t x) (omega arith) r, i, s)

-- The entry of a capsule's view: its fields, and its payload with the checksum that it names.
abbrev pub IsPayload : Memory → View → ℕ → CapsuleStatus × Option EntryView → Type 0
IsPayload m view index r =
    (r.0 ≡ ok)
    × (e : EntryView) × (r.1 ≡ some e)
    × IsView m view.base (directory_entry view.base view.directory_offset index) e
    × (e.offset + e.size ≤ view.total_size)
    × (0 < e.size)
    × (bytes : List ℕ) × (load_bytes m e.base e.size ≡ some bytes)
    × (crc64 bytes ≡ e.checksum)

IsCapsule-IsSane :
    (m : Memory) (capsule extent : ℕ) (h : HeaderFields) (es : List EntryFields)
    → capsule ≢ 0
    → IsCapsule m capsule extent h es
    → IsSane (view_of capsule extent h)
IsCapsule-IsSane m capsule extent h es based c =
    let b = c.header.bounded in
    record {
      based = based;
      few = c.header.few;
      long = omega (arith, b.directory_at, b.directory, c.header.total);
      short = omega (arith, b.total, c.header.total);
      directory_at = b.directory_at;
      directory = omega (arith, b.directory, c.header.total);
    }

pub get_entry-IsPayload :
    (m : Memory) (capsule extent : ℕ) (h : HeaderFields) (es : List EntryFields) (index : ℕ)
    (before : EntryView)
    → IsMapped m capsule extent
    → capsule ≢ 0
    → IsCapsule m capsule extent h es
    → index < h.entry_count
    → Ensures
        (IsPayload m (view_of capsule extent h) index)
        (get_entry m (some (view_of capsule extent h)) index (some before))
get_entry-IsPayload m capsule extent h es index before mapped based c below =
    let view = view_of capsule extent h in
    let sane = IsCapsule-IsSane m capsule extent h es based c in
    let (e, ee, is) =
      read_view-IsView m capsule (directory_entry capsule h.directory_offset index)
        (directory_entry-IsMapped m view index mapped sane below) in
    let (x, r, i, (bytes, eb, crc)) =
      pick m capsule (capsule + h.directory_offset) h es index c.entries c.formed c.sealed
        (omega (arith, c.count)) in
    let at : directory_entry capsule h.directory_offset index
        ≡ capsule + h.directory_offset + index * 48 =
      unfold directory_entry in refl in
    let offset : x.offset ≡ e.offset =
      eq_of_some (sym r.offset ∙ ap (λ a. get64 m (a + 16)) (sym at) ∙ is.offset) in
    let size : x.size ≡ e.size =
      eq_of_some (sym r.size ∙ ap (λ a. get64 m (a + 24)) (sym at) ∙ is.size) in
    let checksum : x.checksum ≡ e.checksum =
      eq_of_some (sym r.checksum ∙ ap (λ a. get64 m (a + 32)) (sym at) ∙ is.checksum) in
    let inside : e.offset + e.size ≤ extent =
      omega (arith, i.inside, offset, size, c.header.total) in
    let based' : (capsule == 0) ≡ false = ground arith in
    let few : (ltb 1024 h.entry_count || leb h.entry_count index) ≡ false =
      ground (arith, c.header.few) in
    let step = get_entry-step m view index before based' few (IsSane-outside_extent view sane) ee in
    let fits : (ltb extent e.offset || ltb (extent - e.offset) e.size) ≡ false = ground arith in
    (
      (ok, some e),
      step ∙ (rw fits refl),
      (
        refl,
        e,
        refl,
        is,
        inside,
        omega (arith, i.nonempty, size),
        bytes,
        rw (is.based, ← offset, ← size) eb,
        crc ∙ checksum,
      ),
    )

-- Where `bbp_v2_parse` published a view, `bbp_v2_get_entry` gives each of its entries: it
-- succeeds at every index below the count, with the fields of the directory, and the payload
-- is not empty, lies in the capsule, and has the CRC that the entry names.
pub parse-get_entry :
    (m : Memory) (capsule extent : ℕ) (old view : View) (index : ℕ) (before : EntryView)
    → IsMapped m capsule extent
    → parse m capsule extent (some old) ≡ some (ok, some view)
    → index < view.entry_count
    → Ensures (IsPayload m view index) (get_entry m (some view) index (some before))
parse-get_entry m capsule extent old view index before mapped parsed below =
    let (r, er, is) = parse-IsParse m capsule extent old mapped in
    let result : r ≡ (ok, some view) = eq_of_some (sym er ∙ parsed) in
    elim is [
      | inl refused ↦ absurd (refused.0 (ap (λ p. p.0) result))
      | inr (accepted, based, h, es, c, published) ↦
          let same : view_of capsule extent h ≡ view =
            eq_of_some (sym published ∙ ap (λ p. p.1) result) in
          subst
            (λ v.
              index < v.entry_count
              → Ensures (IsPayload m v index) (get_entry m (some v) index (some before)))
            same (λ b. get_entry-IsPayload m capsule extent h es index before mapped based c b)
            below
    ]
