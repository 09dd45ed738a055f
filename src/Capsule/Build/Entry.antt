-- ===== src/Capsule/Build/Entry.antt =====
-- What `bbp_v2_build` of v2/bbp_v2.c writes for one entry.
use bear_boot.Prelude.{
  ℕ, ◌+◌, ◌*◌, ◌^◌, ◌≤◌, ◌<◌, ◌≡◌, ◌⊎◌, inl, inr, refl, sym, ◌∙◌, some, List, [], ◌∷◌, arith,
  length, >>=-eq-some, eq_of_some, subst,
}
use bear_boot.Bytes.{le-le_bytes2, le-le_bytes4, le-le_bytes8}
use bear_boot.Memory.{Memory, IsByteMemory, IsMapped, load_bytes, load}
use bear_boot.Memory.Loads.{load_bytes-Returns, length-load_bytes, load_bytes-IsBytes, load-lt}
use bear_boot.Memory.Stores.{
  Agree, load-Agree, load_bytes-Agree, store_bytes-IsStored, IsMapped-Extends,
}
use bear_boot.Memory.Within.{IsWithin, IsWithin-refl, IsWithin-trans, IsWithin-widen}
use bear_boot.Memory.Fields.{AllHold, AllHold-Agree, put_fields-AllSet}
use bear_boot.Crc.{crc64}
use bear_boot.Crc.Detect.{crc64-lt}
use bear_boot.Capsule.Build.{
  BuildEntry, read_build_entry, of_entry, payload_crc, entry_fields, emit_entry,
}

pub read_build_entry-Agree :
    (m m' : Memory) (entries index : ℕ)
    → Agree m m' (entries + index * 40) 40
    → read_build_entry m' entries index ≡ read_build_entry m entries index
unfolding read_build_entry
read_build_entry-Agree m m' entries index h =
    rw
      (
        load-Agree m m' (entries + index * 40) 8 (λ x p q. h x (omega arith) (omega arith)),
        load-Agree m m' (entries + index * 40 + 8) 4 (λ x p q. h x (omega arith) (omega arith)),
        load-Agree m m' (entries + index * 40 + 12) 2 (λ x p q. h x (omega arith) (omega arith)),
        load-Agree m m' (entries + index * 40 + 16) 4 (λ x p q. h x (omega arith) (omega arith)),
        load-Agree m m' (entries + index * 40 + 24) 8 (λ x p q. h x (omega arith) (omega arith)),
        load-Agree m m' (entries + index * 40 + 32) 8 (λ x p q. h x (omega arith) (omega arith)),
      )
      refl

-- The fields have the widths of the structure.
pub record IsNarrow (e : BuildEntry) : Type 0 where
  pub kind : e.kind < 2 ^ 64
  pub flags : e.flags < 2 ^ 32
  pub version : e.version < 2 ^ 16
  pub alignment : e.alignment < 2 ^ 32
  pub size : e.size < 2 ^ 64

pub read_build_entry-IsNarrow :
    (m : Memory) (entries index : ℕ) (e : BuildEntry)
    → IsByteMemory m
    → read_build_entry m entries index ≡ some e
    → IsNarrow e
unfolding read_build_entry
read_build_entry-IsNarrow m entries index e bytes h =
    let (kind, e1, h1) = >>=-eq-some (load m (entries + index * 40) 8) _ h in
    let (flags, e2, h2) = >>=-eq-some (load m (entries + index * 40 + 8) 4) _ h1 in
    let (version, e3, h3) = >>=-eq-some (load m (entries + index * 40 + 12) 2) _ h2 in
    let (alignment, e4, h4) = >>=-eq-some (load m (entries + index * 40 + 16) 4) _ h3 in
    let (base, e5, h5) = >>=-eq-some (load m (entries + index * 40 + 24) 8) _ h4 in
    let (size, e6, h6) = >>=-eq-some (load m (entries + index * 40 + 32) 8) _ h5 in
    let b1 : kind < 2 ^ 64 = load-lt m _ 8 kind bytes e1 in
    let b2 : flags < 2 ^ 32 = load-lt m _ 4 flags bytes e2 in
    let b3 : version < 2 ^ 16 = load-lt m _ 2 version bytes e3 in
    let b4 : alignment < 2 ^ 32 = load-lt m _ 4 alignment bytes e4 in
    let b6 : size < 2 ^ 64 = load-lt m _ 8 size bytes e6 in
    subst IsNarrow (eq_of_some h6)
      (record { kind = b1; flags = b2; version = b3; alignment = b4; size = b6 })

-- The directory's entry, in the layout of the format.
abbrev pub entry_slots : BuildEntry → ℕ → List ℕ → List (ℕ × ℕ × ℕ)
entry_slots e start payload =
    (0, 8, e.kind)
    ∷ (8, 4, e.flags)
    ∷ (12, 2, e.version)
    ∷ (16, 8, start)
    ∷ (24, 8, e.size)
    ∷ (32, 8, crc64 payload)
    ∷ (40, 4, e.alignment)
    ∷ []

-- The directory at `slot` and the payload at `start` are those of the entry: its fields, the bytes
-- that its source held, and their checksum.
pub record IsEmitted (m m' : Memory) (output slot start : ℕ) (e : BuildEntry) : Type 0 where
  pub payload : List ℕ
  pub source : load_bytes m e.base e.size ≡ some payload
  pub carried : load_bytes m' (output + start) e.size ≡ some payload
  pub directory : AllHold m' slot (entry_slots e start payload)

pub IsEmitted-Agree :
    (m m1 m2 : Memory) (output slot start : ℕ) (e : BuildEntry)
    → Agree m1 m2 slot 48
    → Agree m1 m2 (output + start) e.size
    → IsEmitted m m1 output slot start e
    → IsEmitted m m2 output slot start e
IsEmitted-Agree m m1 m2 output slot start e same_slot same_payload is = record {
  payload = is.payload;
  source = is.source;
  carried = load_bytes-Agree m1 m2 (output + start) e.size same_payload ∙ is.carried;
  directory =
      AllHold-Agree m1 m2 slot 0 48 (entry_slots e start is.payload)
        (λ x p q. same_slot x (omega arith) q)
        (
          omega arith,
          omega arith,
          (
            omega arith,
            omega arith,
            (
              omega arith,
              omega arith,
              (
                omega arith,
                omega arith,
                (
                  omega arith,
                  omega arith,
                  (omega arith, omega arith, (omega arith, omega arith, tt)),
                ),
              ),
            ),
          ),
        )
        is.directory;
}

-- Two ranges have no address in common.
abbrev pub Apart : ℕ → ℕ → ℕ → ℕ → Type 0
Apart a n c k = (a + n ≤ c) ⊎ (c + k ≤ a)

pub Apart-outside : (a n c k x : ℕ) → Apart a n c k → a ≤ x → x < a + n → (x < c) ⊎ (c + k ≤ x)
Apart-outside a n c k x (inl h) p q = inl (omega arith)
Apart-outside a n c k x (inr h) p q = inr (omega arith)

module _ (m0 : Memory) (output total entries index slot start : ℕ) (e : BuildEntry) where
  -- The entry as it is planned.
  pub record IsReady : Type 0 where
    pub listed : read_build_entry m0 entries index ≡ some e
    pub narrow : IsNarrow e
    pub array_apart : Apart (entries + index * 40) 40 output total
    pub source_apart : Apart e.base e.size output total
    pub source : IsMapped m0 e.base e.size
    pub low : output ≤ slot
    pub high : slot + 48 ≤ output + start
    pub fits : start + e.size ≤ total
    pub short : total ≤ 67108864

  module _ (m : Memory) (r : IsReady) (w : IsWithin output total m0 m) where
    pub listed_still : read_build_entry m entries index ≡ some e
    listed_still =
        read_build_entry-Agree m0 m entries index (λ x p q.
          w.outside x (Apart-outside (entries + index * 40) 40 output total x r.array_apart p q))
        ∙ r.listed

    source_still : load_bytes m e.base e.size ≡ load_bytes m0 e.base e.size
    source_still =
        load_bytes-Agree m0 m e.base e.size
          (λ x p q. w.outside x (Apart-outside e.base e.size output total x r.source_apart p q))

    of_entry-Returns : (f : BuildEntry → ℕ) → of_entry entries index f m ≡ some (f e)
    unfolding of_entry
    of_entry-Returns f = rw listed_still refl

    payload_crc-Returns :
        (payload : List ℕ)
        → load_bytes m (output + start) e.size ≡ some payload
        → payload_crc output entries index start m ≡ some (crc64 payload)
    unfolding payload_crc
    payload_crc-Returns payload h = rw (listed_still, h) refl

  pub emit_entry-IsEmitted :
      (m : Memory)
      → IsReady
      → IsWithin output total m0 m
      → IsByteMemory m0
      → IsMapped m output total
      → (m' : Memory) × (emit_entry m output entries index slot start ≡ some m')
        × IsWithin output total m m'
        × IsEmitted m0 m' output slot start e
        × ((x : ℕ)
            → (x < slot) ⊎ (slot + 48 ≤ x)
            → (x < output + start) ⊎ (output + start + e.size ≤ x)
            → m' x ≡ m x)
  unfolding emit_entry entry_fields
  emit_entry-IsEmitted m r w bytes mapped =
      let (payload, ep) = load_bytes-Returns m0 e.base e.size r.source in
      let len = length-load_bytes m0 e.base e.size payload ep in
      let is = load_bytes-IsBytes m0 e.base e.size payload bytes ep in
      let fits = r.fits in
      let low = r.low in
      let high = r.high in
      let (m1, e1, back, same1, ext1, bytes1) =
        store_bytes-IsStored m (output + start) payload
          (λ x p q. mapped x (omega arith) (omega (arith, len, fits))) is in
      let w1 : IsWithin output total m m1 =
        IsWithin-widen output total (output + start) (length payload) m m1 (omega arith)
          (omega (arith, len, fits)) (record { outside = same1; extends = ext1; bytes = bytes1 }) in
      let w01 = IsWithin-trans output total m0 m m1 w w1 in
      let still : (m' : Memory) → IsWithin slot 48 m1 m' → IsWithin output total m0 m' = λ m' v.
        IsWithin-trans output total m0 m1 m' w01
          (IsWithin-widen output total slot 48 m1 m' low (omega (arith, high, fits)) v) in
      let copied : load_bytes m1 (output + start) e.size ≡ some payload =
        subst (λ n. load_bytes m1 (output + start) n ≡ some payload) len back in
      let kept : (m' : Memory)
          → IsWithin slot 48 m1 m'
          → load_bytes m' (output + start) e.size ≡ some payload =
        λ m' v.
          load_bytes-Agree m1 m' (output + start) e.size
            (λ x p q. v.outside x (inr (omega (arith, p, high))))
          ∙ copied in
      let short = r.short in
      let start_small : start < 2 ^ 64 = omega (arith, fits, short) in
      let (m2, e2, w2, _, set) =
        put_fields-AllSet m1 slot 48 0 (entry_fields output entries index start)
          (e.kind ∷ e.flags ∷ e.version ∷ start ∷ e.size ∷ crc64 payload ∷ e.alignment ∷ []) m1
          (λ x p q.
            IsMapped-Extends m m1 output total w1.extends mapped x (omega (arith, low, p))
              (omega (arith, high, fits, q)))
          (IsWithin-refl slot 48 m1)
          (
            omega arith,
            omega arith,
            le-le_bytes8 e.kind r.narrow.kind,
            (λ m' v. of_entry-Returns m' r (still m' v) (λ e. e.kind)),
            (
              omega arith,
              omega arith,
              le-le_bytes4 e.flags r.narrow.flags,
              (λ m' v. of_entry-Returns m' r (still m' v) (λ e. e.flags)),
              (
                omega arith,
                omega arith,
                le-le_bytes2 e.version r.narrow.version,
                (λ m' v. of_entry-Returns m' r (still m' v) (λ e. e.version)),
                (
                  omega arith,
                  omega arith,
                  le-le_bytes8 start start_small,
                  (λ m' v. refl),
                  (
                    omega arith,
                    omega arith,
                    le-le_bytes8 e.size r.narrow.size,
                    (λ m' v. of_entry-Returns m' r (still m' v) (λ e. e.size)),
                    (
                      omega arith,
                      omega arith,
                      le-le_bytes8 (crc64 payload) (crc64-lt payload is),
                      (λ m' v. payload_crc-Returns m' r (still m' v) payload (kept m' v)),
                      (
                        omega arith,
                        omega arith,
                        le-le_bytes4 e.alignment r.narrow.alignment,
                        (λ m' v. of_entry-Returns m' r (still m' v) (λ e. e.alignment)),
                        omega arith,
                      ),
                    ),
                  ),
                ),
              ),
            ),
          ) in
      (
        m2,
        rw (listed_still m r w, source_still m r w, ep, e1) e2,
        IsWithin-trans output total m m1 m2 w1
            (IsWithin-widen output total slot 48 m1 m2 low (omega (arith, high, fits)) w2),
        record { payload = payload; source = ep; carried = kept m2 w2; directory = set },
        (λ x h k.
            w2.outside x h
            ∙ same1 x (subst (λ n. (x < output + start) ⊎ (output + start + n ≤ x)) (sym len) k)),
      )
