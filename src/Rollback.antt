-- ===== src/Rollback.antt =====
-- experimental/rollback/bbp_boot_state.c: the anti-rollback policy of a boot.
pub mod Policy
use bear_boot.Prelude.{
  ℕ, ◌-◌, ◌^◌, List, [], ◌∷◌, ◌&&◌, ◌||◌, Bool, true, false, not, ltb, ◌==◌, ◌!=◌, if◌then◌else◌,
}

-- `enum bbp_boot_role`, an int that need not be one of the enumerators.
abbrev pub role_release : ℕ
role_release = 1

abbrev pub role_recovery : ℕ
role_recovery = 2

-- `enum bbp_boot_decision`.
pub data Decision : Type 0 where
  reject_rollback accept_retry accept_update reject_gap reject_exhausted reject_role : Decision

-- `struct bbp_boot_policy_result`.
pub record PolicyResult : Type 0 where
  pub decision : Decision
  pub floor : ℕ

abbrev pub uint64_max : ℕ
uint64_max = 2 ^ 64 - 1

abbrev pub decided : Decision → ℕ → PolicyResult
decided decision floor = record { decision = decision; floor = floor }

-- `bbp_boot_policy_evaluate`.
unfoldable pub evaluate : ℕ → ℕ → ℕ → PolicyResult
evaluate floor generation role =
    if (role != role_release) && (role != role_recovery)
    then decided reject_role floor
    else if (floor == uint64_max) && (generation != floor)
    then decided reject_exhausted floor
    else if ltb generation floor
    then decided reject_rollback floor
    else if generation == floor
    then decided accept_retry floor
    else if generation - floor != 1
    then decided reject_gap floor
    else if role == role_recovery
    then decided reject_role floor
    else decided accept_update generation

-- A sequence of boots, each of which commits the floor of its result.
unfoldable pub commit_all : ℕ → List (ℕ × ℕ) → ℕ
commit_all floor [] = floor
commit_all floor (boot ∷ boots) = commit_all (evaluate floor boot.0 boot.1).floor boots
