-- ===== src/Auth.antt =====
-- v2/bbp_v2_auth.c and include/bbp/bbp_v2_auth.h: the authenticated envelope of a capsule. The two
-- callbacks are parameters: each is a function of the bytes and values that it is given and of the
-- state `W` behind the contexts, and gives its answer and the state it leaves.
pub mod Envelope
pub mod Gate
use bear_boot.Prelude.{
  ℕ, zero, suc, ◌+◌, ◌-◌, Bool, ◌||◌, not, ltb, ◌==◌, ◌!=◌, if◌then◌else◌, Option, none, some, List,
  [], ◌∷◌, ◌>>=◌,
}
use bear_boot.Memory.{Memory, load_bytes}
use bear_boot.Capsule.{CapsuleStatus, proceed, max_extent, View, get16, get32, get64, bytes_equal}
use bear_boot.Capsule.Parse.{parse}

abbrev pub auth_magic : List ℕ
auth_magic = b'B' ∷ b'B' ∷ b'P' ∷ b'2' ∷ b'A' ∷ b'U' ∷ b'T' ∷ b'H' ∷ []

abbrev auth_version : ℕ
auth_version = 1

abbrev alg_hmac_sha256 : ℕ
alg_hmac_sha256 = 1

abbrev auth_header_size : ℕ
auth_header_size = 80

abbrev key_id_size : ℕ
key_id_size = 16

abbrev tag_size : ℕ
tag_size = 32

abbrev tag_offset : ℕ
tag_offset = 48

abbrev max_capsule_size : ℕ
max_capsule_size = max_extent

-- `bbp_v2_auth_status_t`.
pub data AuthStatus : Type 0 where
  auth_ok auth_err_null auth_err_magic auth_err_version auth_err_algorithm auth_err_flags
        auth_err_extent auth_err_mac auth_err_capsule auth_err_policy :
      AuthStatus

-- Go on with `next` where no check has failed, or stop.
abbrev pub pass : {A : Type 0} → AuthStatus → A → (AuthStatus → A) → A
pass auth_ok next stop = next
pass auth_err_null next stop = stop auth_err_null
pass auth_err_magic next stop = stop auth_err_magic
pass auth_err_version next stop = stop auth_err_version
pass auth_err_algorithm next stop = stop auth_err_algorithm
pass auth_err_flags next stop = stop auth_err_flags
pass auth_err_extent next stop = stop auth_err_extent
pass auth_err_mac next stop = stop auth_err_mac
pass auth_err_capsule next stop = stop auth_err_capsule
pass auth_err_policy next stop = stop auth_err_policy

-- `bbp_v2_auth_mac_verify_fn`: of the key identity, the header, the capsule and the tag.
abbrev pub MacVerify : Type 0 → Type 0
MacVerify W = W → List ℕ → List ℕ → List ℕ → List ℕ → Bool × W

-- `bbp_v2_auth_policy_fn`: of the rollback index, the key identity and the capsule.
abbrev pub AuthPolicy : Type 0 → Type 0
AuthPolicy W = W → ℕ → List ℕ → View → Bool × W

-- `struct bbp_v2_auth_view`.
pub record AuthView : Type 0 where
  pub envelope : ℕ
  pub envelope_size : ℕ
  pub rollback_index : ℕ
  pub key_identity : List ℕ
  pub capsule : View

-- The bytes with those from `n` on zeroed: `bytes_zero` at the tag of the copied header.
unfoldable pub zero_from : ℕ → List ℕ → List ℕ
zero_from n [] = []
zero_from zero (x ∷ xs) = 0 ∷ zero_from zero xs
zero_from (suc n) (x ∷ xs) = x ∷ zero_from n xs

-- The checks on the envelope's header, in the order of the source.
unfoldable pub check_envelope : Memory → ℕ → ℕ → Option AuthStatus
check_envelope m envelope extent =
    if ltb extent auth_header_size || ltb max_capsule_size (extent - auth_header_size)
    then some auth_err_extent
    else do
      known ← bytes_equal m envelope auth_magic
      version ← get16 m (envelope + 8)
      algorithm ← get16 m (envelope + 10)
      flags ← get32 m (envelope + 12)
      capsule_size ← get64 m (envelope + 24)
      some (
          if not known
          then auth_err_magic
          else if version != auth_version
          then auth_err_version
          else if algorithm != alg_hmac_sha256
          then auth_err_algorithm
          else if flags != 0
          then auth_err_flags
          else if ltb max_capsule_size capsule_size || (capsule_size != extent - auth_header_size)
          then auth_err_extent
          else auth_ok)

-- `candidate.capsule` before the parser writes it.
abbrev pub blank : View
blank = record { base = 0; total_size = 0; directory_offset = 0; flags = 0; entry_count = 0 }

module _ {W : Type 0} where
  -- The call of the policy, and what follows it; the parser published the capsule's view.
  unfoldable pub apply_policy :
      AuthPolicy W
      → W
      → ℕ
      → ℕ
      → ℕ
      → List ℕ
      → AuthView
      → Option View
      → AuthStatus × W × Option AuthView
  apply_policy policy w envelope extent rollback_index key before none =
      (auth_err_capsule, w, some before)
  apply_policy policy w envelope extent rollback_index key before (some capsule) =
      let answer = policy w rollback_index key capsule in
      if not answer.0 then (auth_err_policy, answer.1, some before) else (
        auth_ok,
        answer.1,
        some (record {
          envelope = envelope;
          envelope_size = extent;
          rollback_index = rollback_index;
          key_identity = key;
          capsule = capsule;
        }),
      )

  -- The steps behind the checks on the header: the MAC, the capsule, the policy.
  unfoldable pub authenticate :
      Memory
      → MacVerify W
      → AuthPolicy W
      → W
      → ℕ
      → ℕ
      → AuthView
      → Option (AuthStatus × W × Option AuthView)
  authenticate m verify_mac policy w envelope extent before = do
    capsule_size ← get64 m (envelope + 24)
    rollback_index ← get64 m (envelope + 16)
    header ← load_bytes m envelope auth_header_size
    key ← load_bytes m (envelope + 32) key_id_size
    bytes ← load_bytes m (envelope + auth_header_size) capsule_size
    tag ← load_bytes m (envelope + tag_offset) tag_size
    let answer = verify_mac w key (zero_from tag_offset header) bytes tag
    (if not answer.0 then some (auth_err_mac, answer.1, some before) else (do
      (status, capsule) ← parse m (envelope + auth_header_size) capsule_size (some blank)
      proceed status
          (some (apply_policy policy answer.1 envelope extent rollback_index key before capsule))
          (λ _. some (auth_err_capsule, answer.1, some before))))

  -- `bbp_v2_auth_parse`: the status, the state behind the contexts, and what `*out` holds.
  unfoldable pub auth_parse :
      Memory
      → Option (MacVerify W)
      → Option (AuthPolicy W)
      → W
      → ℕ
      → ℕ
      → Option AuthView
      → Option (AuthStatus × W × Option AuthView)
  auth_parse m none policy w envelope extent out = some (auth_err_null, w, out)
  auth_parse m (some verify_mac) none w envelope extent out = some (auth_err_null, w, out)
  auth_parse m (some verify_mac) (some policy) w envelope extent none =
      some (auth_err_null, w, none)
  auth_parse m (some verify_mac) (some policy) w envelope extent (some before) =
      if envelope == 0 then some (auth_err_null, w, some before) else do
        status ← check_envelope m envelope extent
        pass status (authenticate m verify_mac policy w envelope extent before)
            (λ bad. some (bad, w, some before))
