-- ===== src/Memory/Fields.antt =====
-- Fields that are written one behind another.
use bear_boot.Prelude.{
  ℕ, ◌+◌, ◌≤◌, ◌<◌, ◌≡◌, inl, refl, ◌∙◌, Option, some, List, [], ◌∷◌, arith, ◌>>=◌,
}
use bear_boot.Bytes.{le, le_bytes}
use bear_boot.Memory.{Memory, load, store, IsMapped}
use bear_boot.Memory.Stores.{load-Agree, store-IsStored, IsMapped-Extends}
use bear_boot.Memory.Within.{IsWithin, IsWithin-trans, IsWithin-store}

-- An offset, a width, and the value, which is computed in the memory of the moment.
abbrev pub Field : Type 0
Field = ℕ × ℕ × (Memory → Option ℕ)

abbrev pub constant : ℕ → Memory → Option ℕ
constant v m = some v

unfoldable pub put_fields : Memory → ℕ → List Field → Option Memory
put_fields m base [] = some m
put_fields m base ((offset, width, value) ∷ fields) = do
  v ← value m
  m' ← store m (base + offset) width v
  put_fields m' base fields

-- These offsets and widths hold these values.
abbrev pub AllHold : Memory → ℕ → List (ℕ × ℕ × ℕ) → Type 0
AllHold m base [] = Unit {0}
AllHold m base ((o, w, v) ∷ slots) = (load m (base + o) w ≡ some v) × AllHold m base slots

abbrev pub AllSet : Memory → ℕ → List Field → List ℕ → Type 0
AllSet m base [] vs = Unit {0}
AllSet m base (f ∷ fs) [] = ⊥
AllSet m base ((o, w, f) ∷ fs) (v ∷ vs) = (load m (base + o) w ≡ some v) × AllSet m base fs vs

-- The slots lie in `[low, high)`.
abbrev pub AllInside : ℕ → ℕ → List (ℕ × ℕ × ℕ) → Type 0
AllInside low high [] = Unit {0}
AllInside low high ((o, w, v) ∷ slots) = (low ≤ o) × (o + w ≤ high) × AllInside low high slots

pub AllHold-Agree :
    (m m' : Memory) (base low n : ℕ) (slots : List (ℕ × ℕ × ℕ))
    → ((x : ℕ) → base + low ≤ x → x < base + n → m' x ≡ m x)
    → AllInside low n slots
    → AllHold m base slots
    → AllHold m' base slots
AllHold-Agree m m' base low n [] agree inside h = tt
AllHold-Agree m m' base low n ((o, w, v) ∷ slots) agree (up, down, inside) (e, h) = (
  load-Agree m m' (base + o) w (λ x p q. agree x (omega arith) (omega arith)) ∙ e,
  AllHold-Agree m m' base low n slots agree inside h,
)

module _ (m0 : Memory) (base n : ℕ) where
  -- The fields lie one behind another from `at` on, and have these values whatever is written.
  abbrev pub Fills : ℕ → List Field → List ℕ → Type 0
  Fills at [] vs = at ≤ n
  Fills at (f ∷ fs) [] = ⊥
  Fills at ((o, w, f) ∷ fs) (v ∷ vs) =
      (at ≤ o)
      × (o + w ≤ n)
      × (le (le_bytes w v) ≡ v)
      × ((m : Memory) → IsWithin base n m0 m → f m ≡ some v)
      × Fills (o + w) fs vs

  pub put_fields-AllSet :
      (at : ℕ) (fs : List Field) (vs : List ℕ) (m : Memory)
      → IsMapped m base n
      → IsWithin base n m0 m
      → Fills at fs vs
      → (m' : Memory) × (put_fields m base fs ≡ some m')
        × IsWithin base n m m'
        × ((x : ℕ) → x < base + at → m' x ≡ m x)
        × AllSet m' base fs vs
  unfolding put_fields
  put_fields-AllSet at [] vs m mapped w fills = (
    m,
    refl,
    record { outside = λ x h. refl; extends = λ x b e. (b, e); bytes = λ h. h },
    (λ x h. refl),
    tt,
  )
  put_fields-AllSet at (f ∷ fs) [] m mapped w fills = absurd fills
  put_fields-AllSet at ((o, k, f) ∷ fs) (v ∷ vs) m mapped w (above, below, fits, value, fills) =
      let (m1, e1, s) =
        store-IsStored m (base + o) k v (λ x p q. mapped x (omega arith) (omega arith)) in
      let w1 = IsWithin-store base n m m1 (base + o) k v s (omega arith) (omega arith) in
      let (m2, e2, w2, same, set) =
        put_fields-AllSet (o + k) fs vs m1 (IsMapped-Extends m m1 base n s.extends mapped)
          (IsWithin-trans base n m0 m m1 w w1) fills in
      (
        m2,
        rw (value m w, e1) e2,
        IsWithin-trans base n m m1 m2 w1 w2,
        (λ x h. same x (omega arith) ∙ s.same x (inl (omega arith))),
        (load-Agree m1 m2 (base + o) k (λ x p q. same x (omega arith)) ∙ s.back fits, set),
      )
