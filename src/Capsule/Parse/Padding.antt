-- ===== src/Capsule/Parse/Padding.antt =====
-- `validate_padding` of v2/bbp_v2.c: what its walk over the spans has seen.
use bear_boot.Prelude.{
  ℕ, zero, suc, ◌+◌, ◌-◌, ◌*◌, ◌≤◌, ◌<◌, ◌≡◌, inl, inr, refl, ap, ◌∙◌, Bool, true, false, ◌&&◌, not,
  ltb, leb, ◌==◌, ◌!=◌, if◌then◌else◌, some, List, [], ◌∷◌, arith, length, Bool-cases, Ensures,
}
use bear_boot.Memory.{Memory, IsMapped}
use bear_boot.Memory.Loads.{IsMapped-part}
use bear_boot.Capsule.{
  CapsuleStatus, ok, err_format, err_padding, proceed, bytes_are_zero, directory_entry,
}
use bear_boot.Capsule.Parse.{
  EntryFields, select_entry, select_fixed, walk_padding, validate_padding,
}
use bear_boot.Capsule.Parse.Entries.{HasEntries}
use bear_boot.Capsule.Status.{CapsuleStatus-ok, proceed-stop}

pub bytes_are_zero-Returns :
    (m : Memory) (p n : ℕ)
    → IsMapped m p n
    → Ensures
        (λ clear. clear ≡ true → (x : ℕ) → p ≤ x → x < p + n → m x ≡ some 0)
        (bytes_are_zero m p n)
unfolding bytes_are_zero
bytes_are_zero-Returns m p zero mapped = (true, refl, λ g x u v. absurd (omega arith))
bytes_are_zero-Returns m p (suc n) mapped =
    let (b, eb) = mapped p (omega arith) (omega arith) in
    let (rest, er, k) =
      bytes_are_zero-Returns m (p + 1) n (λ x u v. mapped x (omega arith) (omega arith)) in
    elim (Bool-cases (b != 0)) [
      | inl bad ↦ (false, rw (eb, bad) refl, λ g. cc)
      | inr null ↦
          let eq : b ≡ 0 = ground arith in
          (
            rest,
            rw (eb, null) er,
            λ g x u v. elim (Bool-cases (ltb p x)) [
              | inl up ↦ k g x (ground arith) (omega arith)
              | inr down ↦ let here : x ≡ p = ground arith in rw here (eb ∙ ap some eq)
            ],
          )
    ]

-- `P` holds of every byte that is covered by a span, and of every byte that is zero.
module _ (m : Memory) (capsule extent : ℕ) (mapped : IsMapped m capsule extent) (P : ℕ → Type 0)
    (zero_holds : (x : ℕ) → m (capsule + x) ≡ some 0 → P x) where
  -- `P` holds below `cursor`, which is in the capsule.
  abbrev pub Reached : ℕ → Type 0
  Reached cursor = (cursor ≤ extent) × ((x : ℕ) → x < cursor → P x)

  -- A span of the capsule of which `P` holds.
  abbrev pub Spans : ℕ × ℕ → Type 0
  Spans span = (span.0 + span.1 ≤ extent) × ((x : ℕ) → span.0 ≤ x → x < span.0 + span.1 → P x)

  abbrev pub AllSpans : List EntryFields → Type 0
  AllSpans [] = Unit {0}
  AllSpans (e ∷ es) = Spans (e.offset, e.size) × AllSpans es

  gap :
      (cursor end : ℕ)
      → end ≤ extent
      → ((x : ℕ) → x < cursor → P x)
      → Ensures
          (λ clear. clear ≡ true → (x : ℕ) → x < end → P x)
          (if ltb cursor end then bytes_are_zero m (capsule + cursor) (end - cursor) else some true)
  gap cursor end fits below = elim (Bool-cases (ltb cursor end)) [
    | inr past ↦ (true, rw past refl, λ g x u. below x (ground arith))
    | inl short ↦
        let up : cursor < end = ground arith in
        let (clear, e, k) =
          bytes_are_zero-Returns m (capsule + cursor) (end - cursor)
            (IsMapped-part m capsule extent cursor (end - cursor) mapped (omega arith)) in
        (
          clear,
          rw short e,
          λ g x u. elim (Bool-cases (ltb x cursor)) [
            | inl old ↦ below x (ground arith)
            | inr new ↦
                let from : cursor ≤ x = ground arith in
                zero_holds x (k g (capsule + x) (omega arith) (omega arith))
          ],
        )
  ]

  select_entry-Spans :
      (a cursor : ℕ) (es : List EntryFields) (best : ℕ × ℕ)
      → HasEntries m a es
      → AllSpans es
      → Spans best
      → Ensures Spans (select_entry m a (length es) cursor best)
  unfolding select_entry
  select_entry-Spans a cursor [] best here all sound = (best, refl, sound)
  select_entry-Spans a cursor (e ∷ es) best here all sound =
      elim (Bool-cases (leb cursor e.offset && ltb e.offset best.0)) [
        | inl better ↦
            let (r, er, k) =
              select_entry-Spans (a + 48) cursor es (e.offset, e.size) here.1 all.1 all.0 in
            (r, rw (here.0.offset, better, here.0.size) er, k)
        | inr worse ↦
            let (r, er, k) = select_entry-Spans (a + 48) cursor es best here.1 all.1 sound in
            (r, rw (here.0.offset, worse) er, k)
      ]

  walk_padding-step :
      (directory_offset count left cursor : ℕ) {best : ℕ × ℕ} {clear : Bool}
      → select_entry m
          (directory_entry capsule directory_offset 0)
          count
          cursor
          (select_fixed extent directory_offset count cursor)
        ≡ some best
      → (if ltb cursor best.0
          then bytes_are_zero m (capsule + cursor) (best.0 - cursor)
          else some true)
        ≡ some clear
      → walk_padding m capsule extent directory_offset count (suc left) cursor ≡ (
          if best.1 == 0
          then some (err_format, cursor)
          else if not clear
          then some (err_padding, cursor)
          else walk_padding m capsule extent directory_offset count left (best.0 + best.1))
  unfolding walk_padding
  walk_padding-step directory_offset count left cursor eb ec = rw (eb, ec) refl

  module _ (directory_offset : ℕ) (es : List EntryFields)
      (here : HasEntries m (directory_entry capsule directory_offset 0) es) (all : AllSpans es)
      (header : Spans (0, 64)) (directory : Spans (directory_offset, length es * 48)) where
    select_fixed-Spans :
        (cursor : ℕ) → Spans (select_fixed extent directory_offset (length es) cursor)
    unfolding select_fixed
    select_fixed-Spans cursor = elim (Bool-cases (cursor == 0)) [
      | inl start ↦
          rw start
            (elim (Bool-cases
              ((length es != 0) && (leb cursor directory_offset && ltb directory_offset 0))) [
                | inl t ↦ rw t directory
                | inr f ↦ rw f header
              ])
      | inr on ↦
          rw on
            (elim (Bool-cases
              ((length es != 0) && (leb cursor directory_offset && ltb directory_offset extent))) [
                | inl t ↦ rw t directory
                | inr f ↦ rw f (omega arith, λ x u v. absurd (omega arith))
              ])
    ]

    pub walk_padding-Reached :
        (left cursor : ℕ)
        → Reached cursor
        → Ensures
            (λ r. r.0 ≡ ok → Reached r.1)
            (walk_padding m capsule extent directory_offset (length es) left cursor)
    walk_padding-Reached zero cursor reached =
        ((ok, cursor), unfold walk_padding in refl, λ _. reached)
    walk_padding-Reached (suc left) cursor reached =
        let (best, eb, span) =
          select_entry-Spans (directory_entry capsule directory_offset 0) cursor es
            (select_fixed extent directory_offset (length es) cursor) here all
            (select_fixed-Spans cursor) in
        let (clear, ec, k) = gap cursor best.0 (omega (arith, span.0)) reached.1 in
        let step = walk_padding-step directory_offset (length es) left cursor eb ec in
        elim (Bool-cases (best.1 == 0)) [
          | inl empty ↦ ((err_format, cursor), step ∙ (rw empty refl), λ g. cc)
          | inr full ↦ elim (Bool-cases clear) [
            | inr dirty ↦ ((err_padding, cursor), step ∙ (rw (full, dirty) refl), λ g. cc)
            | inl clean ↦
                let below : (x : ℕ) → x < best.0 + best.1 → P x = λ x u.
                  elim (Bool-cases (ltb x best.0)) [
                    | inl before ↦ k clean x (ground arith)
                    | inr inside ↦ span.1 x (ground arith) u
                  ] in
                let (r, er, next) = walk_padding-Reached left (best.0 + best.1) (span.0, below) in
                (r, step ∙ (rw (full, clean) er), next)
          ]
        ]

    validate_padding-step :
        {status : CapsuleStatus} {cursor : ℕ} {clear : Bool}
        → walk_padding m capsule extent directory_offset
            (length es)
            (length es + 1 + (if length es != 0 then 1 else 0))
            0
          ≡ some (status, cursor)
        → (if ltb cursor extent
            then bytes_are_zero m (capsule + cursor) (extent - cursor)
            else some true)
          ≡ some clear
        → validate_padding m capsule extent directory_offset (length es)
          ≡ proceed status (if not clear then some err_padding else some ok) some
    unfolding validate_padding
    validate_padding-step ew ec = rw (ew, ec) refl

    -- The padding check returns; if it passes, `P` holds of every byte of the capsule.
    pub validate_padding-covers :
        Ensures
          (λ status. status ≡ ok → (x : ℕ) → x < extent → P x)
          (validate_padding m capsule extent directory_offset (length es))
    validate_padding-covers =
        let ((status, cursor), ew, k) =
          walk_padding-Reached (length es + 1 + (if length es != 0 then 1 else 0)) 0
            (omega arith, λ x u. absurd (omega arith)) in
        elim (CapsuleStatus-ok status) [
          | inr bad ↦ (
            status,
            unfold validate_padding in rw ew (proceed-stop status _ some bad),
            λ g. absurd (bad g),
          )
          | inl good ↦
              let (clear, ec, full) = gap cursor extent (omega arith) (k good).1 in
              let step = validate_padding-step ew ec in
              elim (Bool-cases clear) [
                | inr dirty ↦ (err_padding, step ∙ (rw (good, dirty) refl), λ g. cc)
                | inl clean ↦ (ok, step ∙ (rw (good, clean) refl), λ g. full clean)
              ]
        ]
