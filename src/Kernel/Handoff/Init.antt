-- ===== src/Kernel/Handoff/Init.antt =====
-- The initialisation of kernel/bbp_kernel.c on an untrusted hand-off.
use bear_boot.Prelude.{
  ℕ, ◌+◌, ◌-◌, ◌^◌, ◌≤◌, ◌<◌, ◌≡◌, ◌≢◌, ◌⊎◌, inl, inr, refl, ap, ◌∙◌, true, ◌||◌, ◌&&◌, ltb, leb,
  ◌==◌, ◌!=◌, Option, some, arith, sym, eq_of_some, Bool-cases, Returns, Ensures,
}
use bear_boot.Memory.{Memory, load, load_bytes, IsByteMemory, IsMapped}
use bear_boot.Memory.Loads.{load-Returns, IsMapped-part, IsMapped-prefix}
use bear_boot.Bytes.{IsBytes}
use bear_boot.Wire.{info_magic, tag_hhdm_id}
use bear_boot.Wire.Info
use bear_boot.Wire.Tag
use bear_boot.Kernel.Region.{Kctx}
use bear_boot.Kernel.Region.Bounds.{IsContext}
use bear_boot.Kernel.Seal.{crc_skip}
use bear_boot.Kernel.Seal.Laws.{memcmp_iff, memcmp-Returns}
use bear_boot.Kernel.Walk.Framing.{IsWindowMapped}
use bear_boot.Kernel.Walk.Safety.{crc_skip-Returns, find_tag-safe, IsFound, IsFramed-IsMapped}
use bear_boot.Kernel.Handoff.{
  Status, ok, err_null, err_magic, err_version, err_size, err_checksum, err_tag_checksum,
  fresh_context, adopt_hhdm, init_win, publish, init_bounded,
}

-- An INFO structure as the protocol wants it: the magic, major version 1, a declared size that
-- covers the structure and is at most 64 MiB, and a checksum that matches.
pub record IsInfo (m : Memory) (info : ℕ) : Type 0 where
  pub not_null : info ≢ 0
  pub magic : load_bytes m info 16 ≡ some info_magic
  pub major : Info.major m info ≡ some 1
  pub size : ℕ
  pub sized : Info.info_size m info ≡ some size
  pub at_least : 144 ≤ size
  pub at_most : size ≤ 67108864
  pub checksum : ℕ
  pub stored : Info.checksum m info ≡ some checksum
  pub computed : crc_skip m info 144 136 ≡ some checksum

-- What the HHDM lookup may do to a context: nothing, or, without a hint, take the offset from an
-- HHDM tag that passed the lookup.
pub data IsAdopted (m : Memory) (hint : ℕ) (k k' : Kctx) : Type 0 where
  kept : k' ≡ k → IsAdopted m hint k k'
  taken :
      (tag offset : ℕ)
      → hint ≡ 0
      → IsFound m k tag_hhdm_id tag
      → Tag.hhdm_offset m tag ≡ some offset
      → k' ≡ record k { hhdm_offset = offset }
      → IsAdopted m hint k k'

module _ (m : Memory) (info hint lo hi : ℕ) (bytes : IsByteMemory m) (header : IsMapped m info 144)
    (hint_lt : hint < 2 ^ 64) (hi_lt : hi < 2 ^ 64) (active : lo < hi)
    (mapped : IsWindowMapped m (fresh_context info hint lo hi)) where
  abbrev out : Kctx
  out = fresh_context info hint lo hi

  words : IsContext out
  words = record { hhdm_lt = hint_lt; hi_lt = hi_lt }

  adopt_hhdm-IsAdopted : Ensures (IsAdopted m hint out) (adopt_hhdm m out hint)
  unfolding adopt_hhdm
  adopt_hhdm-IsAdopted =
      let (t, e, found) = find_tag-safe m out words active mapped header tag_hhdm_id in
      elim (Bool-cases ((hint == 0) && (t != 0))) [
        | inr skip ↦ rw (e, skip) (out, refl, kept refl)
        | inl look ↦ elim found [
          | inl z ↦ absurd (not_both hint t look z)
          | inr f ↦ elim (Bool-cases (leb 40 f.framed.size)) [
            | inr short ↦ rw (e, look, f.framed.sized, short) (out, refl, kept refl)
            | inl whole ↦
                let (o, eo) = load-Returns m (t + 32) 8 (
                  IsMapped-part m t f.framed.size 32 8
                    (IsFramed-IsMapped m out words active mapped f.framed) (ground arith)) in
                rw (e, look, f.framed.sized, whole, eo)
                  (record out { hhdm_offset = o }, refl, taken t o (ground arith) f eo refl)
          ]
        ]
      ]
    where
      not_both : (a b : ℕ) → ((a == 0) && (b != 0)) ≡ true → b ≡ 0 → ⊥
      not_both a b h z = ground arith

  -- A valid hand-off with its context, or a refusal of one that is not valid.
  abbrev Outcome : Status × Option Kctx → Type 0
  Outcome r =
      ((r.0 ≡ ok) × IsInfo m info × ((k : Kctx) × (r.1 ≡ some k) × IsAdopted m hint out k))
      ⊎ ((r.0 ≢ ok) × (IsInfo m info → ⊥))

  init_win-Outcome : (before : Kctx) → Ensures Outcome (init_win m (some before) info hint lo hi)
  unfolding init_win
  init_win-Outcome before =
      let (d, ed) =
        memcmp-Returns m info info_magic (IsMapped-prefix m info 144 16 header (omega arith)) in
      let (v, ev) = field 16 2 (omega arith) in
      let (s, es) = field 20 4 (omega arith) in
      let (c, ec) = field 136 8 (omega arith) in
      let (g, eg) = crc_skip-Returns m info 144 136 header in
      let (k, ek, adopted) = adopt_hhdm-IsAdopted in
      elim (Bool-cases (info == 0)) [
        | inl null ↦ rw null (_, refl, inr (λ x. cc, λ i. ground (arith, i.not_null)))
        | inr there ↦ elim (Bool-cases (d != 0)) [
          | inl bad ↦
              rw (there, ed, bad)
                (
                  _,
                  refl,
                  inr (
                    λ x. cc,
                    λ i.
                        let zero_diff =
                          eq_of_some (
                            sym ed
                            ∙ (memcmp_iff m info info_magic bytes magic-IsBytes).1 i.magic) in
                        ground arith,
                  ),
                )
          | inr same ↦ elim (Bool-cases (v != 1)) [
            | inl bad ↦
                rw (there, ed, same, ev, bad)
                  (
                    _,
                    refl,
                    inr (λ x. cc, λ i. let one = eq_of_some (sym ev ∙ i.major) in ground arith),
                  )
            | inr current ↦ elim (Bool-cases (ltb s 144 || ltb 67108864 s)) [
              | inl bad ↦
                  rw (there, ed, same, ev, current, es, bad)
                    (
                      _,
                      refl,
                      inr (
                        λ x. cc,
                        λ i.
                            let length_field = eq_of_some (sym es ∙ i.sized) in
                            ground (arith, i.at_least, i.at_most),
                      ),
                    )
              | inr sized ↦ elim (Bool-cases (c != g)) [
                | inl bad ↦
                    rw (there, ed, same, ev, current, es, sized, ec, eg, bad)
                      (
                        _,
                        refl,
                        inr (
                          λ x. cc,
                          λ i.
                              let stored = eq_of_some (sym ec ∙ i.stored) in
                              let computed = eq_of_some (sym eg ∙ i.computed) in ground arith,
                        ),
                      )
                | inr sealed ↦
                    let zd : d ≡ 0 = ground arith in
                    let zv : v ≡ 1 = ground arith in
                    let zc : g ≡ c = ground arith in
                    let valid : IsInfo m info = record {
                      not_null = ground arith;
                      magic =
                          (memcmp_iff m info info_magic bytes magic-IsBytes).0 (ed ∙ ap some zd);
                      major = ev ∙ ap some zv;
                      size = s;
                      sized = es;
                      at_least = ground arith;
                      at_most = ground arith;
                      checksum = c;
                      stored = ec;
                      computed = eg ∙ ap some zc;
                    } in
                    rw (there, ed, same, ev, current, es, sized, ec, eg, sealed, ek)
                      ((ok, some k), refl, inl (refl, valid, (k, refl, adopted)))
              ]
            ]
          ]
        ]
      ]
    where
      field : (o n : ℕ) → o + n ≤ 144 → Returns (load m (info + o) n)
      field o n fits = load-Returns m (info + o) n (IsMapped-part m info 144 o n header fits)

      magic-IsBytes : IsBytes info_magic
      magic-IsBytes = omega arith

publish-refused :
    (st : Status) (candidate : Option Kctx) (before : Kctx)
    → st ≢ ok
    → publish st candidate before ≡ some before
publish-refused ok candidate before h = absurd (h refl)
publish-refused err_null candidate before h = refl
publish-refused err_magic candidate before h = refl
publish-refused err_version candidate before h = refl
publish-refused err_size candidate before h = refl
publish-refused err_checksum candidate before h = refl
publish-refused err_tag_checksum candidate before h = refl

publish-ok :
    (st : Status) (candidate : Option Kctx) (before k : Kctx)
    → st ≡ ok
    → candidate ≡ some k
    → publish st candidate before ≡ some k
publish-ok st candidate before k h e = rw (h, e) refl

-- What `bbp_init_bounded` establishes at its return with status `st` and `*result` as given: either
-- a refusal, of bad bounds or a malformed INFO structure, that leaves the caller's context alone, or success on a well-formed INFO structure,
-- with the walk window on the arena and the HHDM offset from the hint or an accepted tag.
pub data IsBounded (m : Memory) (before : Kctx) (info hint arena size : ℕ)
    (r : Status × Option Kctx) : Type 0 where
  refused :
      r.0 ≢ ok
      → r.1 ≡ some before
      → (IsInfo m info → 0 < arena → 0 < size → arena + size ≤ 2 ^ 48 → ⊥)
      → IsBounded m before info hint arena size r
  accepted :
      (k : Kctx)
      → r.0 ≡ ok
      → r.1 ≡ some k
      → IsInfo m info
      → 0 < arena
      → 0 < size
      → arena + size ≤ 2 ^ 48
      → IsAdopted m hint (fresh_context info hint arena (arena + size)) k
      → IsBounded m before info hint arena size r

-- In a memory of bytes, with the INFO structure and the arena mapped at a 64-bit offset, the
-- bounded initialisation returns without a fault. It accepts exactly a well-formed INFO structure
-- with a nonempty arena that ends at most at 2 ^ 48, with the walk window on the arena; it
-- refuses all else, and leaves the caller's context alone.
pub init_bounded-IsBounded :
    (m : Memory) (scratch before : Kctx) (info hint arena size : ℕ)
    → IsByteMemory m
    → IsMapped m info 144
    → hint < 2 ^ 64
    → IsWindowMapped m (fresh_context info hint arena (arena + size))
    → Ensures
        (IsBounded m before info hint arena size)
        (init_bounded m scratch (some before) info hint arena size)
unfolding init_bounded
init_bounded-IsBounded m scratch before info hint arena size bytes header hint_lt mapped =
    elim (Bool-cases (info == 0)) [
      | inl null ↦ rw null (_, refl, refused (λ x. cc) refl (λ i p q r. ground (arith, i.not_null)))
      | inr there ↦ elim (Bool-cases ((arena == 0) || (size == 0))) [
        | inl bad ↦ rw (there, bad) (_, refl, refused (λ x. cc) refl (λ i p q r. ground arith))
        | inr nonempty ↦ elim (Bool-cases (ltb (2 ^ 48) size)) [
          | inl bad ↦
              rw (there, nonempty, bad) (_, refl, refused (λ x. cc) refl (λ i p q r. ground arith))
          | inr small ↦ elim (Bool-cases (ltb (2 ^ 48 - size) arena)) [
            | inl bad ↦
                rw (there, nonempty, small, bad)
                  (_, refl, refused (λ x. cc) refl (λ i p q r. ground arith))
            | inr low ↦
                let (r, er, outcome) =
                  init_win-Outcome m info hint arena (arena + size) bytes header hint_lt
                    (ground arith) (ground arith) mapped scratch in
                rw (there, nonempty, small, low, er)
                  (
                    _,
                    refl,
                    elim outcome [
                      | inr (bad, invalid) ↦
                          refused bad (publish-refused r.0 r.1 before bad) (λ i p q r. invalid i)
                      | inl (good, valid, (k, ek, adopted)) ↦
                          accepted k good (publish-ok r.0 r.1 before k good ek) valid (ground arith)
                            (ground arith) (ground arith) adopted
                    ],
                  )
          ]
        ]
      ]
    ]
