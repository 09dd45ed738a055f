-- ===== src/Bridge/Bounds.antt =====
-- The tags of bridge/bbp_bridge.c with fields of references alone, and those with an array counted at 32.
use native.Mathlib.Nat.{le-div_iff_mul-le}
use bear_boot.Prelude.{
  ℕ, zero, suc, ◌+◌, ◌-◌, ◌*◌, ◌/◌, ◌≤◌, ◌<◌, ◌≡◌, ◌⊎◌, inl, inr, refl, ap, sym, ◌∙◌, Bool, true,
  false, ltb, ◌!=◌, some, List, [], ◌∷◌, arith, Bool-cases, Ensures, Returns, eq_of_some, subst,
}
use bear_boot.Memory.{Memory, load, IsMapped}
use bear_boot.Memory.Loads.{load-Returns, IsMapped-part}
use bear_boot.Bridge.{
  malformed, self_contained, external, array_fits, any_set, any_element_set, fixed, elements,
  counted,
}
use bear_boot.Bridge.Shape.{
  plain, array, SomeSet, AllClear, SomeElement, AllElements, Holds, IsVerdict,
}

-- The fields at these offsets lie in the first `n` bytes.
abbrev pub AllBelow : ℕ → List ℕ → Type 0
AllBelow n [] = Unit {0}
AllBelow n (offset ∷ offsets) = (offset + 8 ≤ n) × AllBelow n offsets

-- A test has decided between the two.
abbrev Decides : Type 0 → Type 0 → Bool → Type 0
Decides P N b = ((b ≡ true) × P) ⊎ ((b ≡ false) × N)

pub any_set-Decides :
    (m : Memory) (p n : ℕ) (offsets : List ℕ)
    → IsMapped m p n
    → AllBelow n offsets
    → Ensures (Decides (SomeSet m p offsets) (AllClear m p offsets)) (any_set m p offsets)
unfolding any_set
any_set-Decides m p n [] mapped below = (false, refl, inr (refl, tt))
any_set-Decides m p n (offset ∷ offsets) mapped below =
    let (v, ev) = load-Returns m (p + offset) 8 (IsMapped-part m p n offset 8 mapped below.0) in
    let (rest, er, d) = any_set-Decides m p n offsets mapped below.1 in
    elim (Bool-cases (v != 0)) [
      | inl set ↦ (true, rw (ev, set) refl, inl (refl, inl (v, ev, λ z. ground arith)))
      | inr clear ↦
          let null : v ≡ 0 = ground arith in
          (
            rest,
            rw (ev, clear) er,
            elim d [ inl t ↦ inl (t.0, inr t.1) | inr f ↦ inr (f.0, (ev ∙ ap some null, f.1)) ],
          )
    ]

any_element_set-Decides :
    (m : Memory) (p stride : ℕ) (offsets : List ℕ) (left : ℕ)
    → IsMapped m p (left * stride)
    → AllBelow stride offsets
    → Ensures
        (Decides (SomeElement m p stride offsets left) (AllElements m p stride offsets left))
        (any_element_set m p stride offsets left)
unfolding any_element_set
any_element_set-Decides m p stride offsets zero mapped below = (false, refl, inr (refl, tt))
any_element_set-Decides m p stride offsets (suc left) mapped below =
    let more : suc left * stride ≡ stride + left * stride = omega arith in
    let (set, es, d) =
      any_set-Decides m p stride offsets (λ x u v. mapped x u (omega (arith, more))) below in
    let (rest, er, k) =
      any_element_set-Decides m (p + stride) stride offsets left
        (λ x u v. mapped x (omega arith) (omega (arith, more))) below in
    elim d [
      | inl t ↦ (true, rw (es, t.0) refl, inl (refl, inl t.1))
      | inr f ↦ (
        rest,
        rw (es, f.0) er,
        elim k [ inl t ↦ inl (t.0, inr t.1) | inr g ↦ inr (g.0, (f.1, g.1)) ],
      )
    ]

pub array_fits-le :
    (size base count stride : ℕ)
    → 0 < stride
    → array_fits size base count stride ≡ true
    → base + count * stride ≤ size
unfolding array_fits
array_fits-le size base count stride pos fits =
    let below : base ≤ size = ground arith in
    let few : count ≤ (size - base) / stride = ground arith in
    omega (arith, below, (le-div_iff_mul-le {k = stride} {x = count} {y = size - base} pos).0 few)

pub array_fits-not :
    (size base count stride : ℕ)
    → 0 < stride
    → array_fits size base count stride ≡ false
    → base + count * stride ≤ size
    → ⊥
unfolding array_fits
array_fits-not size base count stride pos off fits =
    let few : count ≤ (size - base) / stride =
      (le-div_iff_mul-le {k = stride} {x = count} {y = size - base} pos).1 (omega (arith, fits)) in
    ground arith

module _ (m : Memory) (tag size : ℕ) (mapped : IsMapped m tag size) where
  pub field-Returns : (o n : ℕ) → o + n ≤ size → Returns (load m (tag + o) n)
  field-Returns o n fits = load-Returns m (tag + o) n (IsMapped-part m tag size o n mapped fits)

  -- A count that leaves the tag: no array of it is in the tag.
  pub too_many :
      (least at width stride : ℕ) {count : ℕ}
      → 0 < stride
      → load m (tag + at) width ≡ some count
      → array_fits size least count stride ≡ false
      → Holds m tag size least at width stride
      → ⊥
  too_many least at width stride {count} pos e off (long, c, ec, fits) =
      let same : c ≡ count = eq_of_some (sym ec ∙ e) in
      array_fits-not size least count stride pos off
        (subst (λ t. least + t * stride ≤ size) same fits)

  pub fixed-IsVerdict :
      (least : ℕ) (offsets : List ℕ)
      → (least ≤ size → AllBelow size offsets)
      → Ensures (IsVerdict m tag size (plain least offsets)) (fixed m tag size least offsets)
  fixed-IsVerdict least offsets below = elim (Bool-cases (ltb size least)) [
    | inl short ↦ (malformed, unfold fixed in rw short refl, inl (refl, λ h. ground arith))
    | inr long ↦
        let whole : least ≤ size = ground arith in
        let (set, es, d) = any_set-Decides m tag size offsets mapped (below whole) in
        elim d [
          | inl t ↦
              (external, unfold fixed in rw (long, es, t.0) refl, inr (whole, inl (refl, t.1)))
          | inr f ↦ (
            self_contained,
            unfold fixed in rw (long, es, f.0) refl,
            inr (whole, inr (refl, f.1)),
          )
        ]
  ]

  pub elements-Decides :
      (least count stride : ℕ) (offsets : List ℕ)
      → 0 < stride
      → AllBelow stride offsets
      → array_fits size least count stride ≡ true
      → Ensures
          (λ r.
            ((r ≡ external) × SomeElement m (tag + least) stride offsets count)
            ⊎ ((r ≡ self_contained) × AllElements m (tag + least) stride offsets count))
          (elements m tag size least count stride offsets)
  elements-Decides least count stride offsets pos below fits =
      let room = array_fits-le size least count stride pos fits in
      let (set, es, d) =
        any_element_set-Decides m (tag + least) stride offsets count
          (IsMapped-part m tag size least (count * stride) mapped room) below in
      elim d [
        | inl t ↦ (external, unfold elements in rw (fits, es, t.0) refl, inl (refl, t.1))
        | inr f ↦ (self_contained, unfold elements in rw (fits, es, f.0) refl, inr (refl, f.1))
      ]

  pub counted-IsVerdict :
      (least stride : ℕ) (offsets : List ℕ)
      → 36 ≤ least
      → 0 < stride
      → AllBelow stride offsets
      → Ensures
          (IsVerdict m tag size (array least stride offsets))
          (counted m tag size least stride offsets)
  counted-IsVerdict least stride offsets room pos below = elim (Bool-cases (ltb size least)) [
    | inl short ↦ (malformed, unfold counted in rw short refl, inl (refl, λ h. off short h.0))
    | inr long ↦
        let whole : least ≤ size = ground arith in
        let (count, ec) = field-Returns 32 4 (omega (arith, whole, room)) in
        elim (Bool-cases (array_fits size least count stride)) [
          | inr over ↦ (
            malformed,
            unfold counted elements in rw (long, ec, over) refl,
            inl (refl, too_many least 32 4 stride pos ec over),
          )
          | inl fits ↦
              let holds : Holds m tag size least 32 4 stride =
                (whole, count, ec, array_fits-le size least count stride pos fits) in
              let (r, er, d) = elements-Decides least count stride offsets pos below fits in
              (
                r,
                unfold counted in rw (long, ec) er,
                inr (
                  holds,
                  elim d [
                    | inl t ↦ inl (t.0, (count, ec, t.1))
                    | inr f ↦ inr (f.0, (count, ec, f.1))
                  ],
                ),
              )
        ]
  ]
    where
      off : ltb size least ≡ true → least ≤ size → ⊥
      off short whole = ground arith
