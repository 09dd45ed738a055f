-- ===== src/Capsule/Digest/Stream.antt =====
-- What `bbp_v2_digest` of v2/bbp_v2.c hashes: the framed stream of a capsule.
use bear_boot.Prelude.{
  ℕ, zero, suc, ◌+◌, ◌≡◌, ◌≢◌, ◌⊎◌, inl, inr, refl, ap, sym, ◌∙◌, false, ◌==◌, Option, some, List,
  [], ◌∷◌, arith, length, Bool-cases, Ensures, ◌>>=◌,
}
use bear_boot.Memory.{Memory, load_bytes, IsMapped}
use bear_boot.Memory.Loads.{length-load_bytes}
use bear_boot.Capsule.{CapsuleStatus, ok, err_null, proceed, View, EntryView, directory_entry}
use bear_boot.Capsule.Status.{proceed-stop}
use bear_boot.Capsule.Parse.{HeaderFields, EntryFields, view_of, parse}
use bear_boot.Capsule.Parse.Sound.{parse-IsParse}
use bear_boot.Capsule.Parse.Body.{IsCapsule}
use bear_boot.Capsule.Entry.{get_entry}
use bear_boot.Capsule.Entry.Inside.{IsView}
use bear_boot.Capsule.Entry.Parsed.{get_entry-IsPayload}
use bear_boot.Capsule.Digest.{
  digest_domain, envelope_bytes, frame_bytes, blank_view, blank_entry, digest_loop, digest_with,
  digest,
}

-- An entry as the digest has it.
pub record Item : Type 0 where
  pub kind : ℕ
  pub flags : ℕ
  pub version : ℕ
  pub bytes : List ℕ

-- The entries in order, each as its frame and its payload.
abbrev pub body_chunks : List Item → List (List ℕ)
body_chunks [] = []
body_chunks (i ∷ is) =
    frame_bytes i.kind i.flags i.version (length i.bytes) ∷ i.bytes ∷ body_chunks is

-- The abstract stream: the domain, the envelope, and the entries.
abbrev pub chunks : ℕ → List Item → List (List ℕ)
chunks flags is = digest_domain ∷ envelope_bytes flags (length is) ∷ body_chunks is

abbrev pub feed : {S : Type 0} → (S → List ℕ → S) → S → List (List ℕ) → S
feed update s [] = s
feed update s (c ∷ cs) = feed update (update s c) cs

-- The fields of the entry at the index, as the directory in memory has them, and its payload.
pub record IsItem (m : Memory) (view : View) (index : ℕ) (i : Item) : Type 0 where
  pub entry : EntryView
  pub fields : IsView m view.base (directory_entry view.base view.directory_offset index) entry
  pub kind_is : entry.kind ≡ i.kind
  pub flags_is : entry.flags ≡ i.flags
  pub version_is : entry.version ≡ i.version
  pub size_is : entry.size ≡ length i.bytes
  pub bytes_are : load_bytes m entry.base entry.size ≡ some i.bytes

abbrev pub AllItems : Memory → View → ℕ → List Item → Type 0
AllItems m view index [] = Unit {0}
AllItems m view index (i ∷ is) = IsItem m view index i × AllItems m view (index + 1) is

abbrev item_of : EntryView → List ℕ → Item
item_of e bytes = record { kind = e.kind; flags = e.flags; version = e.version; bytes = bytes }

is_at-published :
    (m : Memory) (view : View) (index : ℕ) (r : CapsuleStatus × Option EntryView) (e : EntryView)
    → get_entry m (some view) index (some blank_entry) ≡ some r
    → r.0 ≡ ok
    → r.1 ≡ some e
    → get_entry m (some view) index (some blank_entry) ≡ some (ok, some e)
is_at-published m view index (status, got) e h good published = rw (good, published) at h

module _ {S : Type 0} (update : S → List ℕ → S) (m : Memory) where
  digest_loop-step :
      (checked : View) (left index : ℕ) (s : S) {e : EntryView} {bytes : List ℕ} {n : ℕ}
      → get_entry m (some checked) index (some blank_entry) ≡ some (ok, some e)
      → load_bytes m e.base e.size ≡ some bytes
      → e.size ≡ n
      → digest_loop update m checked (suc left) index s
        ≡ digest_loop update m checked left
            (index + 1)
            (update (update s (frame_bytes e.kind e.flags e.version n)) bytes)
  unfolding digest_loop
  digest_loop-step checked left index s {e} {bytes} g l size =
      rw (g, l)
        (ap
          (λ t.
            digest_loop update m checked left (index + 1)
              (update (update s (frame_bytes e.kind e.flags e.version t)) bytes))
          size)

  module _ (capsule extent : ℕ) (h : HeaderFields) (es : List EntryFields)
      (mapped : IsMapped m capsule extent) (based : capsule ≢ 0)
      (c : IsCapsule m capsule extent h es) where
    digest_loop-feeds :
        (left index : ℕ) (s : S)
        → index + left ≡ h.entry_count
        → (is : List Item) × (length is ≡ left)
          × AllItems m (view_of capsule extent h) index is
          × (digest_loop update m (view_of capsule extent h) left index s
              ≡ some (feed update s (body_chunks is)))
    digest_loop-feeds zero index s count = ([], refl, tt, unfold digest_loop in refl)
    digest_loop-feeds (suc left) index s count =
        let v = view_of capsule extent h in
        let (r, er, (good, e, published, fields, inside, nonempty, bytes, eb, crc)) =
          get_entry-IsPayload m capsule extent h es index blank_entry mapped based c
            (omega (arith, count)) in
        let at = is_at-published m v index r e er good published in
        let len = length-load_bytes m e.base e.size bytes eb in
        let (is, count', all, ed) =
          digest_loop-feeds left (index + 1)
            (update (update s (frame_bytes e.kind e.flags e.version (length bytes))) bytes)
            (omega (arith, count)) in
        (
          item_of e bytes ∷ is,
          ap suc count',
          (
            record {
              entry = e;
              fields = fields;
              kind_is = refl;
              flags_is = refl;
              version_is = refl;
              size_is = sym len;
              bytes_are = eb;
            },
            all,
          ),
          digest_loop-step v left index s at eb (sym len) ∙ ed,
        )

  digest_with-parsed :
      (view : View) (s : S) {status : CapsuleStatus} {checked : Option View}
      → (view.base == 0) ≡ false
      → parse m view.base view.total_size (some blank_view) ≡ some (status, checked)
      → digest_with update m view s
        ≡ proceed status
            (do
              view' ← checked
              s' ←
                  digest_loop update m view' view'.entry_count 0
                    (update (update s digest_domain) (envelope_bytes view'.flags view'.entry_count))
              some (ok, s'))
            (λ bad. some (bad, s))
  unfolding digest_with
  digest_with-parsed view s there e = rw (there, e) refl

  -- The parser refuses the bytes, and the state is as before; or the bytes are a capsule, and the
  -- state has taken its stream.
  abbrev pub IsDigest : View → S → CapsuleStatus × S → Type 0
  IsDigest view s r =
      (((view.base ≡ 0)
          ⊎ ((status : CapsuleStatus) × (checked : Option View) × (parse m view.base view.total_size
                  (some blank_view)
                ≡ some (status, checked))
              × (status ≢ ok)
              × (r.0 ≡ status)))
        × (r.0 ≢ ok)
        × (r.1 ≡ s))
      ⊎ ((view.base ≢ 0)
          × (r.0 ≡ ok)
          × (h : HeaderFields) × (es : List EntryFields) × IsCapsule m view.base view.total_size h
              es
          × (is : List Item) × (length is ≡ h.entry_count)
          × AllItems m (view_of view.base view.total_size h) 0 is
          × (r.1 ≡ feed update s (chunks h.flags is)))

  -- `bbp_v2_digest`, of whatever view of mapped bytes, returns. Where the view has no data, or
  -- `bbp_v2_parse` refuses the bytes, it gives an error, the parser's in the second case, and the
  -- update function is not called. Else the bytes are a capsule, it succeeds, and the function is
  -- called with the abstract stream of the capsule, in order: the domain, the version, flags and
  -- count, and for each entry in the order of the directory the type, flags, version and size that
  -- the directory in memory has, and then its payload.
  pub digest-IsDigest :
      (view : View) (s : S)
      → IsMapped m view.base view.total_size
      → Ensures (IsDigest view s) (digest m (some view) (some update) s)
  unfolding digest
  digest-IsDigest view s mapped = elim (Bool-cases (view.base == 0)) [
    | inl null ↦ (
      (err_null, s),
      unfold digest_with in rw null refl,
      inl (inl (ground arith), (λ g. cc), refl),
    )
    | inr there ↦
        let ((status, checked), ep, parsed) =
          parse-IsParse m view.base view.total_size blank_view mapped in
        let step = digest_with-parsed view s there ep in
        elim parsed [
          | inl refused ↦ (
            (status, s),
            step ∙ proceed-stop status _ _ refused.0,
            inl (inr (status, checked, ep, refused.0, refl), refused.0, refl),
          )
          | inr (good, based, h, es, c, published) ↦
              let first = update (update s digest_domain) (envelope_bytes h.flags h.entry_count) in
              let (is, count, all, el) =
                digest_loop-feeds view.base view.total_size h es mapped based c h.entry_count 0
                  first (omega arith) in
              (
                (ok, feed update first (body_chunks is)),
                step ∙ (rw (good, published, el) refl),
                inr (
                  based,
                  refl,
                  h,
                  es,
                  c,
                  is,
                  count,
                  all,
                  ap
                      (λ n.
                        feed update (update (update s digest_domain) (envelope_bytes h.flags n))
                          (body_chunks is))
                      (sym count),
                ),
              )
        ]
  ]
