-- ===== src/Auth/Gate.antt =====
-- The order of the gates in `bbp_v2_auth_parse` of v2/bbp_v2_auth.c: the header, the MAC, the capsule,
-- the policy.
use bear_boot.Prelude.{
  ℕ, ◌+◌, ◌-◌, ◌≡◌, ◌≢◌, ◌⊎◌, inl, inr, refl, sym, eq_of_some, ◌∙◌, Bool, true, false, not, ◌==◌,
  if◌then◌else◌, Option, some, List, arith, Bool-cases, Ensures, ◌>>=◌,
}
use bear_boot.Memory.{Memory, IsMapped}
use bear_boot.Memory.Loads.{IsMapped-part}
use bear_boot.Capsule.{CapsuleStatus, ok, proceed, View}
use bear_boot.Capsule.Parse.{HeaderFields, EntryFields, view_of, parse}
use bear_boot.Capsule.Parse.Sound.{parse-IsParse}
use bear_boot.Capsule.Parse.Body.{IsCapsule}
use bear_boot.Capsule.Status.{proceed-stop}
use bear_boot.Auth.{
  AuthStatus, auth_ok, auth_err_null, auth_err_mac, auth_err_capsule, auth_err_policy, MacVerify,
  AuthPolicy, AuthView, zero_from, blank, apply_policy, authenticate, auth_parse,
}
use bear_boot.Auth.Envelope.{
  AuthStatus-ok, IsEnvelope, IsParts, check_envelope-IsEnvelope, check_envelope-admits, parts,
  pass-stop,
}

module _ {W : Type 0} (m : Memory) (verify_mac : MacVerify W) (policy : AuthPolicy W) (w : W)
    (envelope extent : ℕ) (before : AuthView) where
  abbrev Outcome : Type 0
  Outcome = AuthStatus × W × Option AuthView

  abbrev pub accepted : ℕ → List ℕ → View → AuthView
  accepted rollback_index key capsule = record {
    envelope = envelope;
    envelope_size = extent;
    rollback_index = rollback_index;
    key_identity = key;
    capsule = capsule;
  }

  -- The policy has answered `answer` on the view `capsule`.
  abbrev pub IsJudged : ℕ → List ℕ → View → Bool × W → Outcome → Type 0
  IsJudged rollback_index key capsule answer r =
      ((answer.0 ≡ false) × (r ≡ (auth_err_policy, answer.1, some before)))
      ⊎ ((answer.0 ≡ true) × (r ≡ (auth_ok, answer.1, some (accepted rollback_index key capsule))))

  -- The MAC is accepted, and the state is `w'`: the capsule is refused, and the policy is not asked;
  -- or it is a capsule, and the policy decides.
  abbrev pub IsChecked : ℕ → List ℕ → W → Outcome → Type 0
  IsChecked rollback_index key w' r =
      ((status : CapsuleStatus) × (capsule : Option View) × (parse m (envelope + 80) (extent - 80)
            (some blank)
          ≡ some (status, capsule))
        × (status ≢ ok)
        × (r ≡ (auth_err_capsule, w', some before)))
      ⊎ ((h : HeaderFields) × (es : List EntryFields) × IsCapsule m (envelope + 80) (extent - 80) h
            es
          × IsJudged rollback_index key (view_of (envelope + 80) (extent - 80) h)
              (policy w' rollback_index key (view_of (envelope + 80) (extent - 80) h)) r)

  -- The MAC has answered `answer`.
  abbrev pub IsVerified : ℕ → List ℕ → Bool × W → Outcome → Type 0
  IsVerified rollback_index key answer r =
      ((answer.0 ≡ false) × (r ≡ (auth_err_mac, answer.1, some before)))
      ⊎ ((answer.0 ≡ true) × IsChecked rollback_index key answer.1 r)

  -- There is no envelope, and no callback is called; or there is one, and the MAC decides.
  abbrev pub IsGated : Outcome → Type 0
  IsGated r =
      (((envelope ≡ 0) ⊎ (IsEnvelope m envelope extent → ⊥))
        × (r.0 ≢ auth_ok)
        × (r.1 ≡ w)
        × (r.2 ≡ some before))
      ⊎ ((envelope ≢ 0)
          × IsEnvelope m envelope extent
          × (rollback_index : ℕ) × (header : List ℕ) × (key : List ℕ) × (bytes : List ℕ)
          × (tag : List ℕ) × IsParts m envelope extent rollback_index header key bytes tag
          × IsVerified rollback_index key (verify_mac w key (zero_from 48 header) bytes tag) r)

  apply_policy-IsJudged :
      (w' : W) (rollback_index : ℕ) (key : List ℕ) (capsule : View)
      → IsJudged rollback_index key capsule
          (policy w' rollback_index key capsule)
          (apply_policy policy w' envelope extent rollback_index key before (some capsule))
  unfolding apply_policy
  apply_policy-IsJudged w' rollback_index key capsule =
      elim (Bool-cases (policy w' rollback_index key capsule).0) [
        | inl yes' ↦ inr (yes', rw yes' refl)
        | inr no' ↦ inl (no', rw no' refl)
      ]

  module _ (mapped : IsMapped m envelope extent) (is : IsEnvelope m envelope extent)
      {rollback_index : ℕ} {header key bytes tag : List ℕ}
      (p : IsParts m envelope extent rollback_index header key bytes tag) where
    abbrev answer : Bool × W
    answer = verify_mac w key (zero_from 48 header) bytes tag

    authenticate-step : authenticate m verify_mac policy w envelope extent before ≡ (
        if not answer.0 then some (auth_err_mac, answer.1, some before) else (do
          (status, capsule) ← parse m (envelope + 80) (extent - 80) (some blank)
          proceed status
              (some
                (apply_policy policy answer.1 envelope extent rollback_index key before capsule))
              (λ _. some (auth_err_capsule, answer.1, some before))))
    unfolding authenticate
    authenticate-step =
        rw (is.capsule_size, p.rollback_is, p.header_is, p.key_is, p.capsule_is, p.tag_is) refl

    authenticate-parsed :
        {status : CapsuleStatus} {capsule : Option View}
        → answer.0 ≡ true
        → parse m (envelope + 80) (extent - 80) (some blank) ≡ some (status, capsule)
        → authenticate m verify_mac policy w envelope extent before
          ≡ proceed status
              (some
                (apply_policy policy answer.1 envelope extent rollback_index key before capsule))
              (λ _. some (auth_err_capsule, answer.1, some before))
    authenticate-parsed valid e = authenticate-step ∙ (rw (valid, e) refl)

    authenticate-IsVerified :
        Ensures
          (IsVerified rollback_index key answer)
          (authenticate m verify_mac policy w envelope extent before)
    authenticate-IsVerified = elim (Bool-cases answer.0) [
      | inr forged ↦ (
        (auth_err_mac, answer.1, some before),
        authenticate-step ∙ (rw forged refl),
        inl (forged, refl),
      )
      | inl valid ↦
          let ((status, capsule), er, parsed) =
            parse-IsParse m (envelope + 80) (extent - 80) blank
              (IsMapped-part m envelope extent 80 (extent - 80) mapped (omega (arith, is.long))) in
          let step = authenticate-parsed valid er in
          elim parsed [
            | inl refused ↦ (
              (auth_err_capsule, answer.1, some before),
              step ∙ proceed-stop status _ _ refused.0,
              inr (valid, inl (status, capsule, er, refused.0, refl)),
            )
            | inr (good, based, h, es, c, published) ↦ (
              apply_policy policy answer.1 envelope extent rollback_index key before
                  (some (view_of (envelope + 80) (extent - 80) h)),
              step ∙ (rw (good, published) refl),
              inr (
                valid,
                inr (
                  h,
                  es,
                  c,
                  apply_policy-IsJudged answer.1 rollback_index key
                      (view_of (envelope + 80) (extent - 80) h),
                ),
              ),
            )
          ]
    ]

  -- `bbp_v2_auth_parse` of a mapped extent, with both callbacks and an `out`, returns, and passes
  -- its gates in order. Where the pointer is NULL or the header is not that of an envelope, it gives
  -- an error before any callback is called, and only there. Else the MAC is asked, about the key
  -- identity, the header with its tag zeroed, the exact capsule and the tag; if it says no, that is
  -- the error whatever the capsule is, and the policy is not asked. If it says yes, the parser
  -- decides: where it refuses the capsule, that is the error, and the policy is not asked. Else the
  -- bytes are a capsule, and the policy is asked, about the rollback index, the key identity and
  -- the view. `*out` is changed only where all have passed, and then it names the envelope and that
  -- view.
  pub auth_parse-IsGated :
      IsMapped m envelope extent
      → Ensures IsGated
          (auth_parse m (some verify_mac) (some policy) w envelope extent (some before))
  auth_parse-IsGated mapped = elim (Bool-cases (envelope == 0)) [
    | inl null ↦ (
      (auth_err_null, w, some before),
      unfold auth_parse in rw null refl,
      inl (inl (ground arith), (λ g. cc), refl, refl),
    )
    | inr there ↦
        let (status, es, k) = check_envelope-IsEnvelope m envelope extent mapped in
        elim (AuthStatus-ok status) [
          | inr bad ↦ (
            (status, w, some before),
            unfold auth_parse in rw (there, es) (pass-stop status _ _ bad),
            inl (
              inr (λ is. bad (eq_of_some (sym es ∙ check_envelope-admits m envelope extent is))),
              bad,
              refl,
              refl,
            ),
          )
          | inl good ↦
              let is = k good in
              let (i, header, key, bytes, tag, p) = parts m envelope extent mapped is.long in
              let (r, er, v) = authenticate-IsVerified mapped is p in
              (
                r,
                unfold auth_parse in rw (there, es, good) er,
                inr ((λ z. ground arith), is, i, header, key, bytes, tag, p, v),
              )
        ]
  ]
