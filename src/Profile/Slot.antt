-- ===== src/Profile/Slot.antt =====
-- The loop of v2/bbp_v2_profile.c over the entries: its bit for each type, and what it has seen.
use bear_boot.Prelude.{
  ℕ, ◌+◌, ◌<◌, ◌≡◌, ◌≢◌, inl, inr, sym, ◌∙◌, Bool, true, false, some, arith, Bool-cases, ltb,
  eq_of_some, ap, subst,
}
use bear_boot.Memory.{Memory}
use bear_boot.Capsule.{ok, View, EntryView}
use bear_boot.Capsule.Entry.{get_entry}
use bear_boot.Profile.{blank_entry}

module _ (m : Memory) (view : View) where
  -- `bbp_v2_get_entry` gives this entry at the index.
  abbrev pub IsAt : ℕ → EntryView → Type 0
  IsAt i e = get_entry m (some view) i (some blank_entry) ≡ some (ok, some e)

  -- The entry at the index is not of the type `k`.
  abbrev pub IsOther : ℕ → ℕ → Type 0
  IsOther k i = (e : EntryView) → IsAt i e → e.kind ≢ k

  -- Below `n`: no entry of the type `k`; or exactly one, and `P` holds of it.
  abbrev pub Slot : ℕ → (EntryView → Type 0) → ℕ → Bool → Type 0
  Slot k P n false = (j : ℕ) → j < n → IsOther k j
  Slot k P n true =
      (i : ℕ) × (i < n)
      × (e : EntryView) × IsAt i e
      × (e.kind ≡ k)
      × P e
      × ((j : ℕ) → j < n → j ≢ i → IsOther k j)

  at_most : (k n : ℕ) → IsOther k n → (j : ℕ) → (j < n → IsOther k j) → j < n + 1 → IsOther k j
  at_most k n new j old below = elim (Bool-cases (ltb j n)) [
    | inl less ↦ old (ground arith)
    | inr last ↦ let same : n ≡ j = ground arith in subst (IsOther k) same new
  ]

  pub Slot-skip :
      (k : ℕ) (P : EntryView → Type 0) (n : ℕ) (f : Bool)
      → IsOther k n
      → Slot k P n f
      → Slot k P (n + 1) f
  Slot-skip k P n false new old = λ j u. at_most k n new j (old j) u
  Slot-skip k P n true new (i, u, e, g, same, p, alone) =
      (i, omega arith, e, g, same, p, λ j v apart. at_most k n new j (λ w. alone j w apart) v)

  pub Slot-fill :
      (k : ℕ) (P P' : EntryView → Type 0) (n : ℕ) (f : Bool) (e : EntryView)
      → f ≡ false
      → IsAt n e
      → e.kind ≡ k
      → P' e
      → Slot k P n f
      → Slot k P' (n + 1) true
  Slot-fill k P P' n true e clear g same p old = absurd (cc)
  Slot-fill k P P' n false e clear g same p old =
      (n, omega arith, e, g, same, p, λ j v apart. old j (omega arith))

  -- An entry is of one type only.
  pub IsAt-IsOther : (k k' n : ℕ) (e : EntryView) → IsAt n e → e.kind ≡ k → k ≢ k' → IsOther k' n
  IsAt-IsOther k k' n e g same apart x h bad =
      let one : (ok, some e) ≡ (ok, some x) = eq_of_some (sym g ∙ h) in
      let this : e ≡ x = eq_of_some (ap (λ p. p.1) one) in
      apart (sym same ∙ ap (λ v. v.kind) this ∙ bad)
