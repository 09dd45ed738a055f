-- ===== src/Capsule/Digest.antt =====
-- `bbp_v2_digest` of v2/bbp_v2.c. The update function is a parameter: it takes the state `S` and the
-- bytes that it is given to the next state.
pub mod Stream
pub mod Unique
use bear_boot.Prelude.{
  ℕ, zero, suc, ◌+◌, Bool, ◌==◌, if◌then◌else◌, Option, none, some, List, [], ◌∷◌, ◌++◌, ◌>>=◌,
}
use bear_boot.Bytes.{le_bytes}
use bear_boot.Memory.{Memory, load_bytes}
use bear_boot.Capsule.{
  CapsuleStatus, ok, err_null, proceed, version_major, version_minor, View, EntryView,
}
use bear_boot.Capsule.Parse.{parse}
use bear_boot.Capsule.Entry.{get_entry}

-- `domain`.
abbrev pub digest_domain : List ℕ
digest_domain =
    b'B' ∷ b'B' ∷ b'P' ∷ b'-' ∷ b'V' ∷ b'2' ∷ b'-' ∷ b'D' ∷ b'I' ∷ b'G' ∷ b'E' ∷ b'S' ∷ b'T' ∷ 0 ∷ 0
    ∷ 1 ∷ []

-- `envelope`, of 16 bytes.
unfoldable pub envelope_bytes : ℕ → ℕ → List ℕ
envelope_bytes flags entry_count =
    le_bytes 2 version_major
    ++ (le_bytes 2 version_minor ++ (le_bytes 4 flags ++ (le_bytes 4 entry_count ++ le_bytes 4 0)))

-- `frame`, of 32 bytes.
unfoldable pub frame_bytes : ℕ → ℕ → ℕ → ℕ → List ℕ
frame_bytes kind flags version size =
    le_bytes 8 kind
    ++ (le_bytes 4 flags
        ++ (le_bytes 2 version ++ (le_bytes 2 0 ++ (le_bytes 8 size ++ le_bytes 8 0))))

-- `checked` and `entry` before they are written.
abbrev pub blank_view : View
blank_view = record { base = 0; total_size = 0; directory_offset = 0; flags = 0; entry_count = 0 }

abbrev pub blank_entry : EntryView
blank_entry = record {
  kind = 0;
  flags = 0;
  version = 0;
  alignment = 0;
  offset = 0;
  size = 0;
  checksum = 0;
  base = 0;
}

module _ {S : Type 0} (update : S → List ℕ → S) where
  -- The loop over the entries, of which `left` are left from `index` on.
  unfoldable pub digest_loop : Memory → View → ℕ → ℕ → S → Option S
  digest_loop m checked zero index s = some s
  digest_loop m checked (suc left) index s = do
    (status, got) ← get_entry m (some checked) index (some blank_entry)
    entry ← got
    bytes ← load_bytes m entry.base entry.size
    digest_loop m checked left (index + 1)
        (update (update s (frame_bytes entry.kind entry.flags entry.version entry.size)) bytes)

  -- `bbp_v2_digest` with an update function: the status, and the state.
  unfoldable pub digest_with : Memory → View → S → Option (CapsuleStatus × S)
  digest_with m view s = if view.base == 0 then some (err_null, s) else do
    (status, checked) ← parse m view.base view.total_size (some blank_view)
    proceed status
        (do
          view' ← checked
          s' ←
              digest_loop m view' view'.entry_count 0
                (update (update s digest_domain) (envelope_bytes view'.flags view'.entry_count))
          some (ok, s'))
        (λ bad. some (bad, s))

-- `bbp_v2_digest`.
unfoldable pub digest :
    {S : Type 0} → Memory → Option View → Option (S → List ℕ → S) → S → Option (CapsuleStatus × S)
digest m none update s = some (err_null, s)
digest m (some view) none s = some (err_null, s)
digest m (some view) (some update) s = digest_with update m view s
