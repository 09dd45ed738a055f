-- ===== src/Capsule/Parse/Sound.antt =====
-- What `bbp_v2_parse` of v2/bbp_v2.c accepts.
use bear_boot.Prelude.{
  ℕ, ◌≤◌, ◌≡◌, ◌≢◌, ◌⊎◌, inl, inr, refl, ap, ◌∙◌, true, false, ◌||◌, ltb, ◌==◌, Option, some, List,
  arith, Bool-cases, Ensures,
}
use bear_boot.Memory.{Memory, load_bytes, IsMapped}
use bear_boot.Memory.Loads.{IsMapped-prefix}
use bear_boot.Capsule.{
  CapsuleStatus, ok, err_null, err_magic, err_extent, proceed, magic, View, bytes_equal,
}
use bear_boot.Capsule.Parse.{
  HeaderFields, EntryFields, read_header, check_header, check_body, view_of, parse,
}
use bear_boot.Capsule.Status.{CapsuleStatus-ok, proceed-stop}
use bear_boot.Capsule.Parse.Header.{bytes_equal-Returns, check_header-IsHeader, read_header-Returns}
use bear_boot.Capsule.Parse.Body.{IsCapsule, check_body-IsCapsule}

-- What a parse of a capsule means: refused, and `*out` is as before; or accepted, and then the
-- memory holds a capsule, and `*out` is its view.
abbrev pub IsParse : Memory → ℕ → ℕ → Option View → CapsuleStatus × Option View → Type 0
IsParse m capsule extent before r =
    ((r.0 ≢ ok) × (r.1 ≡ before))
    ⊎ ((r.0 ≡ ok)
        × (capsule ≢ 0)
        × (h : HeaderFields) × (es : List EntryFields) × IsCapsule m capsule extent h es
        × (r.1 ≡ some (view_of capsule extent h)))

parse-refuses :
    (m : Memory) (capsule extent : ℕ) (before : View) (status : CapsuleStatus)
    → status ≢ ok
    → parse m capsule extent (some before) ≡ some (status, some before)
    → Ensures (IsParse m capsule extent (some before)) (parse m capsule extent (some before))
parse-refuses m capsule extent before status bad e = ((status, some before), e, inl (bad, refl))

parse-body :
    (m : Memory) (capsule extent : ℕ) (before : View) (h : HeaderFields) {body : CapsuleStatus}
    → (capsule == 0) ≡ false
    → (ltb extent 64 || ltb 67108864 extent) ≡ false
    → bytes_equal m capsule magic ≡ some true
    → read_header m capsule ≡ some h
    → check_header h extent ≡ ok
    → check_body m capsule extent h ≡ some body
    → parse m capsule extent (some before)
      ≡ proceed body (some (ok, some (view_of capsule extent h))) (λ bad. some (bad, some before))
unfolding parse
parse-body m capsule extent before h e1 e2 e3 e4 e5 e6 = rw (e1, e2, e3, e4, e5, e6) refl

parse-header :
    (m : Memory) (capsule extent : ℕ) (before : View) (h : HeaderFields)
    → (capsule == 0) ≡ false
    → (ltb extent 64 || ltb 67108864 extent) ≡ false
    → bytes_equal m capsule magic ≡ some true
    → read_header m capsule ≡ some h
    → check_header h extent ≢ ok
    → parse m capsule extent (some before) ≡ some (check_header h extent, some before)
unfolding parse
parse-header m capsule extent before h e1 e2 e3 e4 bad =
    rw (e1, e2, e3, e4) (proceed-stop (check_header h extent) _ _ bad)

-- `bbp_v2_parse` of a mapped extent, with an `out`, returns. Either it refuses with an error and
-- leaves `*out` as it was, or it accepts, publishes the view, and the memory holds a capsule: the
-- header has the format's version, sizes and flags and the given extent; every entry is aligned
-- and in the capsule, apart from the header, the directory and the other payloads; every byte of
-- the capsule is in one of those or zero; the checksum and that of each payload match; and the
-- bytes hashed are within the work limit.
pub parse-IsParse :
    (m : Memory) (capsule extent : ℕ) (before : View)
    → IsMapped m capsule extent
    → Ensures (IsParse m capsule extent (some before)) (parse m capsule extent (some before))
parse-IsParse m capsule extent before mapped = elim (Bool-cases (capsule == 0)) [
  | inl null ↦
      parse-refuses m capsule extent before err_null (λ g. cc) (unfold parse in rw null refl)
  | inr there ↦ elim (Bool-cases (ltb extent 64 || ltb 67108864 extent)) [
    | inl wrong ↦
        parse-refuses m capsule extent before err_extent (λ g. cc)
          (unfold parse in rw (there, wrong) refl)
    | inr sized ↦
        let long : 64 ≤ extent = ground arith in
        let (same, es, k) =
          bytes_equal-Returns m capsule magic
            (IsMapped-prefix m capsule extent 8 mapped (omega arith)) in
        elim (Bool-cases same) [
          | inr other ↦
              parse-refuses m capsule extent before err_magic (λ g. cc)
                (unfold parse in rw (there, sized, es, other) refl)
          | inl match' ↦ known there sized long (es ∙ ap some match') (k match')
        ]
  ]
]
  where
    known :
        (capsule == 0) ≡ false
        → (ltb extent 64 || ltb 67108864 extent) ≡ false
        → 64 ≤ extent
        → bytes_equal m capsule magic ≡ some true
        → load_bytes m capsule 8 ≡ some magic
        → Ensures (IsParse m capsule extent (some before)) (parse m capsule extent (some before))
    known there sized long same is_magic =
        let (h, eh) =
          read_header-Returns m capsule (IsMapped-prefix m capsule extent 64 mapped long) in
        elim (CapsuleStatus-ok (check_header h extent)) [
          | inr bad ↦
              parse-refuses m capsule extent before (check_header h extent) bad
                (parse-header m capsule extent before h there sized same eh bad)
          | inl good ↦
              let (body, eb, sound) =
                check_body-IsCapsule m capsule extent h mapped long is_magic eh
                  (check_header-IsHeader h extent good) in
              let step = parse-body m capsule extent before h there sized same eh good eb in
              elim (CapsuleStatus-ok body) [
                | inr bad ↦
                    parse-refuses m capsule extent before body bad
                      (step ∙ proceed-stop body _ _ bad)
                | inl fine ↦
                    let (es, c) = sound fine in
                    (
                      (ok, some (view_of capsule extent h)),
                      step ∙ (rw fine refl),
                      inr (refl, (λ z. ground arith), h, es, c, refl),
                    )
              ]
        ]
