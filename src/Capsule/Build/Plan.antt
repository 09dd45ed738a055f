-- ===== src/Capsule/Build/Plan.antt =====
-- The layout that `bbp_v2_build` of v2/bbp_v2.c plans: where each payload starts.
use native.Mathlib.Nat.{
  pow-suc, one-le-pow, div-add-mod', mod-lt, mod-eq_of_lt, mul-mod_left, div-lt_iff_lt-mul,
}
use bear_boot.Prelude.{
  ℕ, zero, suc, ◌+◌, ◌-◌, ◌*◌, ◌/◌, ◌%◌, ◌^◌, ◌≤◌, ◌<◌, ◌≡◌, ◌≢◌, inl, inr, refl, ap, sym, ◌∙◌,
  true, ◌||◌, not, ltb, ◌==◌, bit_and, some, List, [], ◌∷◌, arith, Bool-cases, Option-cases,
  Ensures, subst, eq_of_some,
}
use bear_boot.Word.Bits.{bit_and_high, bit_and_mask, bit_and_pred-pow}
use bear_boot.Capsule.{
  ok, err_null, err_extent, err_overflow, err_alignment, err_work, power_of_two,
}
use bear_boot.Memory.{Memory}
use bear_boot.Capsule.Build.{BuildEntry, read_build_entry, align_up, plan}

-- The next multiple of the alignment.
pub record IsAligned (value alignment start : ℕ) : Type 0 where
  pub least : value ≤ start
  pub most : start < value + alignment
  pub aligned : bit_and start (alignment - 1) ≡ 0

power_of_two-pow : (a : ℕ) → power_of_two a ≡ true → (k : ℕ) × (a ≡ 2 ^ k)
unfolding power_of_two
power_of_two-pow a p =
    let pos : 0 < a = ground arith in
    let clear : bit_and a (a - 1) ≡ 0 = ground arith in bit_and_pred-pow a pos clear

pow-add : (j k : ℕ) → 2 ^ (j + k) ≡ 2 ^ j * 2 ^ k
pow-add zero k = let e : zero + k ≡ k = omega arith in rw e (omega arith)
pow-add (suc j) k =
    let e : suc j + k ≡ suc (j + k) = omega arith in
    rw e (omega (arith, ap (λ t. t * 2 ^ k) (pow-suc 2 j), pow-suc 2 (j + k), pow-add j k))

-- `~(2 ^ k - 1)` on 64 bits is `m * 2 ^ k`, of which all the `64 - k` digits of `m` are set.
align_mask :
    (k : ℕ) → k ≤ 64 → (m : ℕ) × (m + 1 ≡ 2 ^ (64 - k)) × (2 ^ 64 - 1 - (2 ^ k - 1) ≡ m * 2 ^ k)
align_mask k few =
    let m = 2 ^ (64 - k) - 1 in
    let pos : 1 ≤ 2 ^ (64 - k) = one-le-pow (64 - k) 2 (omega arith) in
    let pos' : 1 ≤ 2 ^ k = one-le-pow k 2 (omega arith) in
    let next : m + 1 ≡ 2 ^ (64 - k) = omega (arith, pos) in
    let sum : 64 - k + k ≡ 64 = omega (arith, few) in
    let whole : 2 ^ 64 ≡ 2 ^ (64 - k) * 2 ^ k = rw sum at (pow-add (64 - k) k) in
    let split : (m + 1) * 2 ^ k ≡ m * 2 ^ k + 2 ^ k = omega arith in
    let scaled : (m + 1) * 2 ^ k ≡ 2 ^ (64 - k) * 2 ^ k = ap (λ t. t * 2 ^ k) next in
    (m, next, omega (arith, whole, split, scaled, pos'))

pow-lt : (k : ℕ) → 2 ^ k ≤ 4096 → k ≤ 12
pow-lt k small = elim (Bool-cases (ltb k 13)) [
  | inl below ↦ ground arith
  | inr past ↦
      let long : k - 13 + 13 ≡ k = ground arith in
      absurd (
        omega (
          arith,
          subst (λ t. 2 ^ t ≡ 2 ^ (k - 13) * 2 ^ 13) long (pow-add (k - 13) 13),
          one-le-pow (k - 13) 2 (omega arith),
        ))
]

-- Clearing the `k` low digits of a 64-bit number.
clear_low :
    (k x : ℕ) → k ≤ 64 → x < 2 ^ 64 → bit_and x (2 ^ 64 - 1 - (2 ^ k - 1)) ≡ x / 2 ^ k * 2 ^ k
clear_low k x few small =
    let (m, full, mask) = align_mask k few in
    let pos : 0 < 2 ^ k = one-le-pow k 2 (omega arith) in
    let sum : 64 - k + k ≡ 64 = omega (arith, few) in
    let whole : 2 ^ 64 ≡ 2 ^ (64 - k) * 2 ^ k = rw sum at (pow-add (64 - k) k) in
    let high : x / 2 ^ k < 2 ^ (64 - k) =
      (div-lt_iff_lt-mul {k = 2 ^ k} {x = x} {y = 2 ^ (64 - k)} pos).1
        (omega (arith, whole, small)) in
    let digits : bit_and (x / 2 ^ k) m ≡ x / 2 ^ k =
      bit_and_mask (64 - k) (x / 2 ^ k) m full ∙ mod-eq_of_lt high in
    let shifted = bit_and_high k (x / 2 ^ k) (x % 2 ^ k) m (mod-lt x pos) in
    ap (bit_and x) mask
    ∙ ap (λ t. bit_and t (m * 2 ^ k)) (sym (div-add-mod' x (2 ^ k)))
    ∙ shifted
    ∙ ap (λ t. t * 2 ^ k) digits

align_up-result :
    (value a s : ℕ)
    → align_up value a ≡ some s
    → (value ≤ 2 ^ 64 - 1 - (a - 1)) × (bit_and (value + (a - 1)) (2 ^ 64 - 1 - (a - 1)) ≡ s)
unfolding align_up
align_up-result value a s e = elim (Bool-cases (ltb (2 ^ 64 - 1 - (a - 1)) value)) [
  | inl past ↦ absurd (ground arith)
  | inr fits ↦ (ground arith, eq_of_some (rw fits at e))
]

-- Aligning to a power of two of at most 4096 gives the next multiple.
pub align_up-IsAligned :
    (value a s : ℕ)
    → power_of_two a ≡ true
    → a ≤ 4096
    → align_up value a ≡ some s
    → IsAligned value a s
align_up-IsAligned value a s power small e =
    let (fits, is) = align_up-result value a s e in
    let (k, ek) = power_of_two-pow a power in
    let few : k ≤ 12 = pow-lt k (omega (arith, ek, small)) in
    let pos : 0 < 2 ^ k = one-le-pow k 2 (omega arith) in
    let x = value + (2 ^ k - 1) in
    let in_range : x < 2 ^ 64 = omega (arith, fits, ek, small, pos) in
    let s_is : s ≡ x / 2 ^ k * 2 ^ k =
      sym (rw ek at is) ∙ clear_low k x (omega (arith, few)) in_range in
    let split = div-add-mod' x (2 ^ k) in
    let rest = mod-lt x pos in
    record {
      least = omega (arith, s_is, split, rest, pos);
      most = omega (arith, s_is, split, ek, pos);
      aligned =
          bit_and_mask k s (a - 1) (omega (arith, ek, pos))
          ∙ (rw s_is (mul-mod_left (x / 2 ^ k) (2 ^ k)));
    }

-- The payload of `e` starts at `start`, the next multiple of its alignment behind `cursor`.
pub record IsPlaced (e : BuildEntry) (cursor start : ℕ) : Type 0 where
  pub based : e.base ≢ 0
  pub nonempty : 0 < e.size
  pub power : power_of_two e.alignment ≡ true
  pub small : e.alignment ≤ 4096
  pub start_is : align_up cursor e.alignment ≡ some start
  pub is : IsAligned cursor e.alignment start

-- The first `n` entries, placed one behind the other from `cursor` on, end at `total`.
abbrev pub IsLaid : ℕ → List BuildEntry → ℕ → ℕ → Type 0
IsLaid zero es cursor total = cursor ≡ total
IsLaid (suc n) [] cursor total = ⊥
IsLaid (suc n) (e ∷ es) cursor total =
    (start : ℕ) × IsPlaced e cursor start × IsLaid n es (start + e.size) total

pub IsLaid-le :
    (n : ℕ) (es : List BuildEntry) (cursor total : ℕ) → IsLaid n es cursor total → cursor ≤ total
IsLaid-le zero es cursor total h = omega (arith, h)
IsLaid-le (suc n) [] cursor total h = absurd h
IsLaid-le (suc n) (e ∷ es) cursor total (start, p, h) =
    omega (arith, IsLaid-le n es (start + e.size) total h, p.is.least)

-- The first `n` entries of the array behind `index` are these.
abbrev pub IsArray : Memory → ℕ → ℕ → ℕ → List BuildEntry → Type 0
IsArray m entries index zero es = Unit {0}
IsArray m entries index (suc n) [] = ⊥
IsArray m entries index (suc n) (e ∷ es) =
    (read_build_entry m entries index ≡ some e) × IsArray m entries (index + 1) n es

-- The checks on the entries return; if they pass, the entries are laid out.
pub plan-IsLaid :
    (m : Memory) (entries n : ℕ) (es : List BuildEntry) (index cursor work : ℕ)
    → IsArray m entries index n es
    → Ensures
        (λ r. r.0 ≡ ok → IsLaid n es cursor r.1 × (cursor ≤ 67108864 → r.1 ≤ 67108864))
        (plan m entries n index cursor work)
unfolding plan
plan-IsLaid m entries zero es index cursor work arr =
    ((ok, cursor, work), refl, λ _. (refl, λ h. h))
plan-IsLaid m entries (suc n) [] index cursor work arr = absurd arr
plan-IsLaid m entries (suc n) (e ∷ es) index cursor work arr =
    elim (Bool-cases ((e.base == 0) || (e.size == 0))) [
      | inl null ↦ ((err_null, cursor, work), rw (arr.0, null) refl, λ g. cc)
      | inr there ↦ elim (Bool-cases (not (power_of_two e.alignment) || ltb 4096 e.alignment)) [
        | inl odd ↦ ((err_alignment, cursor, work), rw (arr.0, there, odd) refl, λ g. cc)
        | inr even ↦ elim (Option-cases (align_up cursor e.alignment)) [
          | inl over ↦ ((err_overflow, cursor, work), rw (arr.0, there, even, over) refl, λ g. cc)
          | inr (start, es') ↦ elim (Bool-cases (ltb (2 ^ 64 - 1 - start) e.size)) [
            | inl over ↦
                ((err_overflow, start, work), rw (arr.0, there, even, es', over) refl, λ g. cc)
            | inr fits ↦ elim (Bool-cases (ltb (100663296 - work) e.size)) [
              | inl much ↦ (
                (err_work, start + e.size, work),
                rw (arr.0, there, even, es', fits, much) refl,
                λ g. cc,
              )
              | inr work' ↦ elim (Bool-cases (ltb 67108864 (start + e.size))) [
                | inl long ↦ (
                  (err_extent, start + e.size, work + e.size),
                  rw (arr.0, there, even, es', fits, work', long) refl,
                  λ g. cc,
                )
                | inr short ↦
                    let power : power_of_two e.alignment ≡ true = ground arith in
                    let small : e.alignment ≤ 4096 = ground arith in
                    let based : e.base ≢ 0 = λ z. ground arith in
                    let nonempty : 0 < e.size = ground arith in
                    let room : start + e.size ≤ 67108864 = ground arith in
                    let placed : IsPlaced e cursor start = record {
                      based = based;
                      nonempty = nonempty;
                      power = power;
                      small = small;
                      start_is = es';
                      is = align_up-IsAligned cursor e.alignment start power small es';
                    } in
                    let (r, er, k) =
                      plan-IsLaid m entries n es (index + 1) (start + e.size) (work + e.size)
                        arr.1 in
                    (
                      r,
                      rw (arr.0, there, even, es', fits, work', short) er,
                      λ g. let (laid, extent) = k g in ((start, placed, laid), λ _. extent room),
                    )
              ]
            ]
          ]
        ]
      ]
    ]
