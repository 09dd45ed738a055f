-- ===== src/Prelude/Runs.antt =====
-- Total correctness of a run: it returns, with a value that meets a postcondition.
use mathlib.Core.Path.{◌≡◌}
use mathlib.Core.Option.{Option, some}

abbrev pub Ensures {ℓ κ} : {A : Type ℓ} → (A → Type κ) → Option A → Type (ℓ ⊔ κ)
Ensures {A} P o = (v : A) × (o ≡ some v) × P v

abbrev pub Returns {ℓ} : {A : Type ℓ} → Option A → Type ℓ
Returns {A} o = (v : A) × (o ≡ some v)
