-- ===== src/Rollback/Policy.antt =====
-- What experimental/rollback/bbp_boot_state.c lets boot, and how its floor moves.
use bear_boot.Prelude.{ℕ, ◌+◌, ◌^◌, ◌≤◌, ◌<◌, ◌≡◌, ◌≢◌, ◌⊎◌, ◌↔◌, List, [], ◌∷◌, arith, length}
use bear_boot.Rollback.{accept_retry, accept_update, evaluate, commit_all}

-- For words of 64 bits, a boot is accepted as an update exactly when it is a release one generation
-- above the floor; as a retry exactly when it is a release or a recovery at the floor. The floor
-- moves to the generation on an update, and stays where it is otherwise.
pub evaluate-decides :
    (floor generation role : ℕ)
    → floor < 2 ^ 64
    → generation < 2 ^ 64
    → (((evaluate floor generation role).decision ≡ accept_update)
        ↔ ((role ≡ 1) × (generation ≡ floor + 1)))
      × (((evaluate floor generation role).decision ≡ accept_retry)
          ↔ (((role ≡ 1) ⊎ (role ≡ 2)) × (generation ≡ floor)))
      × (((evaluate floor generation role).decision ≡ accept_update)
          → (evaluate floor generation role).floor ≡ generation)
      × (((evaluate floor generation role).decision ≢ accept_update)
          → (evaluate floor generation role).floor ≡ floor)
unfolding evaluate
evaluate-decides floor generation role p q = (
  (λ e. ground arith, λ e. ground arith),
  (λ e. ground arith, λ e. ground arith),
  λ e. ground arith,
  λ e. ground arith,
)

evaluate-bounds :
    (floor generation role : ℕ)
    → floor < 2 ^ 64
    → generation < 2 ^ 64
    → (floor ≤ (evaluate floor generation role).floor)
      × ((evaluate floor generation role).floor ≤ floor + 1)
      × ((evaluate floor generation role).floor < 2 ^ 64)
unfolding evaluate
evaluate-bounds floor generation role p q = ground arith

-- The generations of the boots fit in 64 bits.
abbrev pub IsGenerations : List (ℕ × ℕ) → Type 0
IsGenerations [] = Unit {0}
IsGenerations (boot ∷ boots) = (boot.0 < 2 ^ 64) × IsGenerations boots

-- Over any sequence of boots from a 64-bit floor, the floor never falls, rises by at most one a
-- boot, and stays a 64-bit word.
pub commit_all-bounds :
    (floor : ℕ) (boots : List (ℕ × ℕ))
    → floor < 2 ^ 64
    → IsGenerations boots
    → (floor ≤ commit_all floor boots)
      × (commit_all floor boots ≤ floor + length boots)
      × (commit_all floor boots < 2 ^ 64)
unfolding commit_all
commit_all-bounds floor [] p q = (omega arith, omega arith, p)
commit_all-bounds floor (boot ∷ boots) p q =
    let (low, high, fits) = evaluate-bounds floor boot.0 boot.1 p q.0 in
    let (low', high', fits') =
      commit_all-bounds (evaluate floor boot.0 boot.1).floor boots fits q.1 in
    (omega arith, omega arith, fits')
