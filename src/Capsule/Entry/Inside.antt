-- ===== src/Capsule/Entry/Inside.antt =====
-- `bbp_v2_get_entry` of v2/bbp_v2.c, of any view: what it gives is inside the view's bytes.
use bear_boot.Prelude.{
  ℕ, ◌+◌, ◌-◌, ◌*◌, ◌≤◌, ◌<◌, ◌≡◌, ◌≢◌, ◌⊎◌, inl, inr, refl, sym, eq_of_some, ◌∙◌, true, Bool,
  false, ◌||◌, ltb, leb, ◌==◌, if◌then◌else◌, Option, some, arith, Bool-cases, Ensures,
}
use bear_boot.Memory.{Memory, IsMapped}
use bear_boot.Memory.Loads.{IsMapped-part, load-Returns}
use bear_boot.Capsule.{
  CapsuleStatus, ok, err_null, err_count, err_extent, View, EntryView, get16, get32, get64,
  directory_entry,
}
use bear_boot.Capsule.Entry.{outside_extent, read_view, get_entry}

-- The entry has these fields, and its payload is at its offset.
pub record IsView (m : Memory) (base a : ℕ) (e : EntryView) : Type 0 where
  pub kind : get64 m a ≡ some e.kind
  pub flags : get32 m (a + 8) ≡ some e.flags
  pub version : get16 m (a + 12) ≡ some e.version
  pub offset : get64 m (a + 16) ≡ some e.offset
  pub size : get64 m (a + 24) ≡ some e.size
  pub checksum : get64 m (a + 32) ≡ some e.checksum
  pub alignment : get32 m (a + 40) ≡ some e.alignment
  pub based : e.base ≡ base + e.offset

pub read_view-IsView :
    (m : Memory) (base a : ℕ) → IsMapped m a 48 → Ensures (IsView m base a) (read_view m base a)
unfolding read_view
read_view-IsView m base a mapped =
    let part = λ (o n : ℕ) (fits : o + n ≤ 48).
      load-Returns m (a + o) n (IsMapped-part m a 48 o n mapped fits) in
    let (o, eo) = part 16 8 (omega arith) in
    let (s, es) = part 24 8 (omega arith) in
    let (k, ek) = load-Returns m a 8 (λ x u v. mapped x u (omega arith)) in
    let (f, ef) = part 8 4 (omega arith) in
    let (v, ev) = part 12 2 (omega arith) in
    let (c, ec) = part 32 8 (omega arith) in
    let (l, el) = part 40 4 (omega arith) in
    (
      record {
        kind = k;
        flags = f;
        version = v;
        alignment = l;
        offset = o;
        size = s;
        checksum = c;
        base = base + o;
      },
      rw (eo, es, ek, ef, ev, ec, el) refl,
      record {
        kind = ek;
        flags = ef;
        version = ev;
        offset = eo;
        size = es;
        checksum = ec;
        alignment = el;
        based = refl;
      },
    )

-- The directory of the view is in its bytes.
pub record IsSane (view : View) : Type 0 where
  pub based : view.base ≢ 0
  pub few : view.entry_count ≤ 1024
  pub long : 64 ≤ view.total_size
  pub short : view.total_size ≤ 67108864
  pub directory_at : 64 ≤ view.directory_offset
  pub directory : view.directory_offset + view.entry_count * 48 ≤ view.total_size

pub IsSane-outside_extent : (view : View) → IsSane view → outside_extent view ≡ false
unfolding outside_extent
IsSane-outside_extent view s = ground (arith, s.long, s.short, s.directory_at, s.directory)

outside_extent-IsSane :
    (view : View)
    → (view.base == 0) ≡ false
    → ltb 1024 view.entry_count ≡ false
    → outside_extent view ≡ false
    → IsSane view
unfolding outside_extent
outside_extent-IsSane view based few inside = record {
  based = ground arith;
  few = ground arith;
  long = ground arith;
  short = ground arith;
  directory_at = ground arith;
  directory = ground arith;
}

-- The view has its directory in its bytes and the index is in the directory; the entry there has
-- the fields of `e`, and its payload lies in the view's bytes.
abbrev pub IsAvailable : Memory → View → ℕ → EntryView → Type 0
IsAvailable m view index e =
    IsSane view
    × (index < view.entry_count)
    × IsView m view.base (directory_entry view.base view.directory_offset index) e
    × (e.offset + e.size ≤ view.total_size)

-- What `bbp_v2_get_entry` gives: an error, and `*out` as before, if no entry is available there; or
-- the entry that is.
abbrev pub IsGot : Memory → View → ℕ → EntryView → CapsuleStatus × Option EntryView → Type 0
IsGot m view index before r =
    (((e : EntryView) → IsAvailable m view index e → ⊥) × (r.0 ≢ ok) × (r.1 ≡ some before))
    ⊎ ((r.0 ≡ ok) × (e : EntryView) × (r.1 ≡ some e) × IsAvailable m view index e)

pub directory_entry-IsMapped :
    (m : Memory) (view : View) (index : ℕ)
    → IsMapped m view.base view.total_size
    → IsSane view
    → index < view.entry_count
    → IsMapped m (directory_entry view.base view.directory_offset index) 48
unfolding directory_entry
directory_entry-IsMapped m view index mapped s below x u v =
    mapped x (omega arith) (omega (arith, s.directory))

pub get_entry-step :
    (m : Memory) (view : View) (index : ℕ) (before : EntryView) {e : EntryView}
    → (view.base == 0) ≡ false
    → (ltb 1024 view.entry_count || leb view.entry_count index) ≡ false
    → outside_extent view ≡ false
    → read_view m view.base (directory_entry view.base view.directory_offset index) ≡ some e
    → get_entry m (some view) index (some before) ≡ (
        if ltb view.total_size e.offset || ltb (view.total_size - e.offset) e.size
        then some (err_extent, some before)
        else some (ok, some e))
unfolding get_entry
get_entry-step m view index before based few inside e = rw (based, few, inside, e) refl

-- `bbp_v2_get_entry`, of whatever view of mapped bytes: it returns. It gives an error and leaves
-- `*out` as it was exactly where no entry is available; else `*out` has every field of the entry at
-- the index. An entry is available where the view has its directory in its bytes, the index is in
-- the directory, and the payload lies in the view's bytes.
pub get_entry-IsGot :
    (m : Memory) (view : View) (index : ℕ) (before : EntryView)
    → IsMapped m view.base view.total_size
    → Ensures (IsGot m view index before) (get_entry m (some view) index (some before))
get_entry-IsGot m view index before mapped = elim (Bool-cases (view.base == 0)) [
  | inl null ↦
      refused err_null (λ g. cc) (λ e a. a.0.based (ground arith))
        (unfold get_entry in rw null refl)
  | inr based ↦ elim (Bool-cases (ltb 1024 view.entry_count || leb view.entry_count index)) [
    | inl past ↦
        refused err_count (λ g. cc) (λ e a. past_end past a.0.few a.1)
          (unfold get_entry in rw (based, past) refl)
    | inr within ↦ elim (Bool-cases (outside_extent view)) [
      | inl outside ↦
          refused err_extent (λ g. cc)
            (λ e a. contradiction outside (IsSane-outside_extent view a.0))
            (unfold get_entry in rw (based, within, outside) refl)
      | inr inside ↦ found based within inside
    ]
  ]
]
  where
    refused :
        (status : CapsuleStatus)
        → status ≢ ok
        → ((e : EntryView) → IsAvailable m view index e → ⊥)
        → get_entry m (some view) index (some before) ≡ some (status, some before)
        → Ensures (IsGot m view index before) (get_entry m (some view) index (some before))
    refused status bad unavailable e = ((status, some before), e, inl (unavailable, bad, refl))

    contradiction : {b : Bool} → b ≡ true → b ≡ false → ⊥
    contradiction t f = cc

    past_end :
        (ltb 1024 view.entry_count || leb view.entry_count index) ≡ true
        → view.entry_count ≤ 1024
        → index < view.entry_count
        → ⊥
    past_end past few below = ground arith

    off_end :
        (e x : EntryView)
        → (ltb view.total_size e.offset || ltb (view.total_size - e.offset) e.size) ≡ true
        → IsView m view.base (directory_entry view.base view.directory_offset index) e
        → IsView m view.base (directory_entry view.base view.directory_offset index) x
        → x.offset + x.size ≤ view.total_size
        → ⊥
    off_end e x off is is' inside =
        let offset : e.offset ≡ x.offset = eq_of_some (sym is.offset ∙ is'.offset) in
        let size : e.size ≡ x.size = eq_of_some (sym is.size ∙ is'.size) in ground arith

    found :
        (view.base == 0) ≡ false
        → (ltb 1024 view.entry_count || leb view.entry_count index) ≡ false
        → outside_extent view ≡ false
        → Ensures (IsGot m view index before) (get_entry m (some view) index (some before))
    found based within inside =
        let few : ltb 1024 view.entry_count ≡ false = ground arith in
        let below : index < view.entry_count = ground arith in
        let sane = outside_extent-IsSane view based few inside in
        let (e, ee, is) =
          read_view-IsView m view.base (directory_entry view.base view.directory_offset index)
            (directory_entry-IsMapped m view index mapped sane below) in
        let step = get_entry-step m view index before based within inside ee in
        elim (Bool-cases
          (ltb view.total_size e.offset || ltb (view.total_size - e.offset) e.size)) [
            | inl off ↦
                refused err_extent (λ g. cc) (λ x a. off_end e x off is a.2 a.3)
                  (step ∙ (rw off refl))
            | inr fits ↦ (
              (ok, some e),
              step ∙ (rw fits refl),
              inr (refl, e, refl, (sane, below, is, ground arith)),
            )
          ]
