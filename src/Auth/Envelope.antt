-- ===== src/Auth/Envelope.antt =====
-- The header of the envelope that v2/bbp_v2_auth.c accepts.
use bear_boot.Prelude.{
  ℕ, ◌+◌, ◌-◌, ◌≤◌, ◌≡◌, ◌≢◌, ◌⊎◌, inl, inr, refl, ap, ◌∙◌, Bool, true, false, ◌||◌, not, ltb, ◌!=◌,
  if◌then◌else◌, some, List, arith, Bool-cases, Ensures,
}
use bear_boot.Memory.{Memory, load_bytes, IsMapped}
use bear_boot.Memory.Loads.{IsMapped-part, IsMapped-prefix, load-Returns, load_bytes-Returns}
use bear_boot.Capsule.{get16, get32, get64}
use bear_boot.Capsule.Parse.Header.{bytes_equal-Returns, bytes_equal-known}
use bear_boot.Auth.{
  auth_magic, AuthStatus, auth_ok, auth_err_null, auth_err_magic, auth_err_version,
  auth_err_algorithm, auth_err_flags, auth_err_extent, auth_err_mac, auth_err_capsule,
  auth_err_policy, pass, check_envelope,
}

pub AuthStatus-ok : (x : AuthStatus) → (x ≡ auth_ok) ⊎ (x ≢ auth_ok)
AuthStatus-ok auth_ok = inl refl
AuthStatus-ok auth_err_null = inr (λ e. cc)
AuthStatus-ok auth_err_magic = inr (λ e. cc)
AuthStatus-ok auth_err_version = inr (λ e. cc)
AuthStatus-ok auth_err_algorithm = inr (λ e. cc)
AuthStatus-ok auth_err_flags = inr (λ e. cc)
AuthStatus-ok auth_err_extent = inr (λ e. cc)
AuthStatus-ok auth_err_mac = inr (λ e. cc)
AuthStatus-ok auth_err_capsule = inr (λ e. cc)
AuthStatus-ok auth_err_policy = inr (λ e. cc)

pub pass-stop :
    {A : Type 0} (x : AuthStatus) (next : A) (stop : AuthStatus → A)
    → x ≢ auth_ok
    → pass x next stop ≡ stop x
pass-stop auth_ok next stop h = absurd (h refl)
pass-stop auth_err_null next stop h = refl
pass-stop auth_err_magic next stop h = refl
pass-stop auth_err_version next stop h = refl
pass-stop auth_err_algorithm next stop h = refl
pass-stop auth_err_flags next stop h = refl
pass-stop auth_err_extent next stop h = refl
pass-stop auth_err_mac next stop h = refl
pass-stop auth_err_capsule next stop h = refl
pass-stop auth_err_policy next stop h = refl

-- The header of an envelope of `extent` bytes.
pub record IsEnvelope (m : Memory) (envelope extent : ℕ) : Type 0 where
  pub long : 80 ≤ extent
  pub short : extent ≤ 67108944
  pub known : load_bytes m envelope 8 ≡ some auth_magic
  pub version : get16 m (envelope + 8) ≡ some 1
  pub algorithm : get16 m (envelope + 10) ≡ some 1
  pub flags : get32 m (envelope + 12) ≡ some 0
  pub capsule_size : get64 m (envelope + 24) ≡ some (extent - 80)

module _ (m : Memory) (envelope extent : ℕ) (mapped : IsMapped m envelope extent) where
  pub check_envelope-IsEnvelope :
      Ensures
        (λ status. status ≡ auth_ok → IsEnvelope m envelope extent)
        (check_envelope m envelope extent)
  check_envelope-IsEnvelope = elim (Bool-cases (ltb extent 80 || ltb 67108864 (extent - 80))) [
    | inl wrong ↦ (auth_err_extent, unfold check_envelope in rw wrong refl, λ g. cc)
    | inr sized ↦
        let long : 80 ≤ extent = ground arith in
        let short : extent ≤ 67108944 = ground arith in
        let part = λ (o n : ℕ) (fits : o + n ≤ 80).
          load-Returns m (envelope + o) n
            (IsMapped-part m envelope extent o n mapped (omega arith)) in
        let (same, es, k) =
          bytes_equal-Returns m envelope auth_magic
            (IsMapped-prefix m envelope extent 8 mapped (omega arith)) in
        let (v, ev) = part 8 2 (omega arith) in
        let (a, ea) = part 10 2 (omega arith) in
        let (f, ef) = part 12 4 (omega arith) in
        let (c, ec) = part 24 8 (omega arith) in
        (
          status same v a f c,
          unfold check_envelope in rw (sized, es, ev, ea, ef, ec) refl,
          λ g. record {
            long = long;
            short = short;
            known = k (same_ok same v a f c g);
            version = ev ∙ ap some (version_ok same v a f c g);
            algorithm = ea ∙ ap some (algorithm_ok same v a f c g);
            flags = ef ∙ ap some (flags_ok same v a f c g);
            capsule_size = ec ∙ ap some (size_ok same v a f c g);
          },
        )
  ]
    where
      status : Bool → (v a f c : ℕ) → AuthStatus
      status same v a f c =
          if not same
          then auth_err_magic
          else if v != 1
          then auth_err_version
          else if a != 1
          then auth_err_algorithm
          else if f != 0
          then auth_err_flags
          else if ltb 67108864 c || (c != extent - 80)
          then auth_err_extent
          else auth_ok

      same_ok : (same : Bool) (v a f c : ℕ) → status same v a f c ≡ auth_ok → same ≡ true
      same_ok same v a f c g = ground arith

      version_ok : (same : Bool) (v a f c : ℕ) → status same v a f c ≡ auth_ok → v ≡ 1
      version_ok same v a f c g = ground arith

      algorithm_ok : (same : Bool) (v a f c : ℕ) → status same v a f c ≡ auth_ok → a ≡ 1
      algorithm_ok same v a f c g = ground arith

      flags_ok : (same : Bool) (v a f c : ℕ) → status same v a f c ≡ auth_ok → f ≡ 0
      flags_ok same v a f c g = ground arith

      size_ok : (same : Bool) (v a f c : ℕ) → status same v a f c ≡ auth_ok → c ≡ extent - 80
      size_ok same v a f c g = ground arith

-- Whatever has the header of an envelope passes the checks.
pub check_envelope-admits :
    (m : Memory) (envelope extent : ℕ)
    → IsEnvelope m envelope extent
    → check_envelope m envelope extent ≡ some auth_ok
unfolding check_envelope
check_envelope-admits m envelope extent is =
    let long = is.long in
    let short = is.short in
    let sized : (ltb extent 80 || ltb 67108864 (extent - 80)) ≡ false = ground arith in
    let size : (ltb 67108864 (extent - 80) || ((extent - 80) != extent - 80)) ≡ false =
      ground arith in
    rw
      (
        sized,
        bytes_equal-known m envelope auth_magic is.known,
        is.version,
        is.algorithm,
        is.flags,
        is.capsule_size,
        size,
      )
      refl

-- The parts of the envelope that the callbacks are given.
pub record IsParts (m : Memory) (envelope extent rollback_index : ℕ) (header key bytes tag : List ℕ)
    : Type 0 where
  pub rollback_is : get64 m (envelope + 16) ≡ some rollback_index
  pub header_is : load_bytes m envelope 80 ≡ some header
  pub key_is : load_bytes m (envelope + 32) 16 ≡ some key
  pub capsule_is : load_bytes m (envelope + 80) (extent - 80) ≡ some bytes
  pub tag_is : load_bytes m (envelope + 48) 32 ≡ some tag

pub parts :
    (m : Memory) (envelope extent : ℕ)
    → IsMapped m envelope extent
    → 80 ≤ extent
    → (rollback_index : ℕ) × (header : List ℕ) × (key : List ℕ) × (bytes : List ℕ) × (tag : List ℕ)
      × IsParts m envelope extent rollback_index header key bytes tag
parts m envelope extent mapped long =
    let bytes_at = λ (o n : ℕ) (fits : o + n ≤ extent).
      load_bytes-Returns m (envelope + o) n (IsMapped-part m envelope extent o n mapped fits) in
    let (r, er) =
      load-Returns m (envelope + 16) 8
        (IsMapped-part m envelope extent 16 8 mapped (omega arith)) in
    let (h, eh) =
      load_bytes-Returns m envelope 80 (IsMapped-prefix m envelope extent 80 mapped long) in
    let (k, ek) = bytes_at 32 16 (omega arith) in
    let (b, eb) = bytes_at 80 (extent - 80) (omega arith) in
    let (t, et) = bytes_at 48 32 (omega arith) in
    (
      r,
      h,
      k,
      b,
      t,
      record { rollback_is = er; header_is = eh; key_is = ek; capsule_is = eb; tag_is = et },
    )
