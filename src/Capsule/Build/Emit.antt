-- ===== src/Capsule/Build/Emit.antt =====
-- The loop of `bbp_v2_build` of v2/bbp_v2.c that writes the entries.
use bear_boot.Prelude.{
  ℕ, zero, suc, ◌+◌, ◌*◌, ◌≤◌, ◌<◌, ◌≡◌, ◌⊎◌, inl, inr, refl, ◌∙◌, some, true, false, List, [], ◌∷◌,
  arith, Bool-cases, Ensures,
}
use bear_boot.Memory.{Memory, IsByteMemory, IsMapped}
use bear_boot.Memory.Stores.{IsMapped-Extends}
use bear_boot.Memory.Within.{IsWithin, IsWithin-refl, IsWithin-trans}
use bear_boot.Capsule.Build.{BuildEntry, memory_ranges_overlap, source_overlaps, start_of, emit}
use bear_boot.Capsule.Build.Plan.{IsPlaced, IsLaid, IsLaid-le, IsArray}
use bear_boot.Capsule.Build.Entry.{
  IsEmitted, IsEmitted-Agree, Apart, IsReady, read_build_entry-IsNarrow, listed_still,
  emit_entry-IsEmitted,
}

-- The sources of the first `n` entries can be read.
abbrev pub AllMapped : Memory → ℕ → List BuildEntry → Type 0
AllMapped m zero es = Unit {0}
AllMapped m (suc n) [] = Unit {0}
AllMapped m (suc n) (e ∷ es) = IsMapped m e.base e.size × AllMapped m n es

-- The sources of the first `n` entries are apart from the output.
abbrev pub AllClear : ℕ → ℕ → ℕ → List BuildEntry → Type 0
AllClear output total zero es = Unit {0}
AllClear output total (suc n) [] = Unit {0}
AllClear output total (suc n) (e ∷ es) =
    Apart e.base e.size output total × AllClear output total n es

pub source_overlaps-AllClear :
    (m : Memory) (entries n : ℕ) (es : List BuildEntry) (index output total : ℕ)
    → IsArray m entries index n es
    → Ensures
        (λ meet. meet ≡ false → AllClear output total n es)
        (source_overlaps m entries n index output total)
unfolding source_overlaps memory_ranges_overlap
source_overlaps-AllClear m entries zero es index output total arr = (false, refl, λ _. tt)
source_overlaps-AllClear m entries (suc n) [] index output total arr = absurd arr
source_overlaps-AllClear m entries (suc n) (e ∷ es) index output total arr =
    let (rest, er, k) = source_overlaps-AllClear m entries n es (index + 1) output total arr.1 in
    elim (Bool-cases (memory_ranges_overlap output total e.base e.size)) [
      | inl meet ↦ (true, rw (arr.0, meet) refl, λ g. cc)
      | inr apart ↦ (rest, rw (arr.0, apart) er, λ g. (clear e apart, k g))
    ]
  where
    clear :
        (e : BuildEntry)
        → memory_ranges_overlap output total e.base e.size ≡ false
        → Apart e.base e.size output total
    clear e apart = ground arith

start_of-start :
    (cursor start : ℕ) (e : BuildEntry)
    → IsPlaced e cursor start
    → start_of cursor e.alignment ≡ start
unfolding start_of
start_of-start cursor start e p = rw (start_of, p.start_is) refl

-- The first `n` entries are in `m'`: each in its slot of the directory, from `index` on, with its
-- payload at the next multiple of its alignment behind the one before, up to `total`.
abbrev pub AllEmitted : Memory → Memory → ℕ → ℕ → ℕ → List BuildEntry → ℕ → ℕ → Type 0
AllEmitted m m' output index zero es cursor total = cursor ≡ total
AllEmitted m m' output index (suc n) [] cursor total = ⊥
AllEmitted m m' output index (suc n) (e ∷ es) cursor total =
    (start : ℕ) × IsPlaced e cursor start
    × IsEmitted m m' output (output + 64 + index * 48) start e
    × AllEmitted m m' output (index + 1) n es (start + e.size) total

pub AllEmitted-le :
    (m m' : Memory) (output index n : ℕ) (es : List BuildEntry) (cursor total : ℕ)
    → AllEmitted m m' output index n es cursor total
    → cursor ≤ total
AllEmitted-le m m' output index zero es cursor total h = omega (arith, h)
AllEmitted-le m m' output index (suc n) [] cursor total h = absurd h
AllEmitted-le m m' output index (suc n) (e ∷ es) cursor total (start, p, is, h) =
    let least = p.is.least in
    omega (arith, AllEmitted-le m m' output (index + 1) n es (start + e.size) total h, least)

pub AllEmitted-Agree :
    (m m1 m2 : Memory) (output index n : ℕ) (es : List BuildEntry) (cursor total : ℕ)
    → ((x : ℕ) → output + 64 ≤ x → x < output + total → m2 x ≡ m1 x)
    → 64 + (index + n) * 48 ≤ cursor
    → AllEmitted m m1 output index n es cursor total
    → AllEmitted m m2 output index n es cursor total
AllEmitted-Agree m m1 m2 output index zero es cursor total agree room h = h
AllEmitted-Agree m m1 m2 output index (suc n) [] cursor total agree room h = absurd h
AllEmitted-Agree m m1 m2 output index (suc n) (e ∷ es) cursor total agree room (start, p, is, h) =
    let end = AllEmitted-le m m1 output (index + 1) n es (start + e.size) total h in
    let least = p.is.least in
    (
      start,
      p,
      IsEmitted-Agree m m1 m2 output (output + 64 + index * 48) start e
          (λ x a b. agree x (omega (arith, a)) (omega (arith, b, room, least, end)))
          (λ x a b. agree x (omega (arith, a, room, least)) (omega (arith, b, end))) is,
      AllEmitted-Agree m m1 m2 output (index + 1) n es (start + e.size) total agree
          (omega (arith, room, least)) h,
    )

module _ (m0 : Memory) (output total entries : ℕ) (bytes : IsByteMemory m0)
    (short : total ≤ 67108864) where
  ready :
      (n index : ℕ) (es : List BuildEntry) (e : BuildEntry) (cursor start : ℕ)
      → IsArray m0 entries index (suc n) (e ∷ es)
      → Apart entries ((index + suc n) * 40) output total
      → AllMapped m0 (suc n) (e ∷ es)
      → AllClear output total (suc n) (e ∷ es)
      → IsPlaced e cursor start
      → start + e.size ≤ total
      → 64 + (index + suc n) * 48 ≤ cursor
      → IsReady m0 output total entries index (output + 64 + index * 48) start e
  ready n index es e cursor start arr apart sources clear p end room =
      let least = p.is.least in
      record {
        listed = arr.0;
        narrow = read_build_entry-IsNarrow m0 entries index e bytes arr.0;
        array_apart = inside apart;
        source_apart = clear.0;
        source = sources.0;
        low = omega arith;
        high = omega (arith, room, least);
        fits = end;
        short = short;
      }
    where
      inside :
          Apart entries ((index + suc n) * 40) output total
          → Apart (entries + index * 40) 40 output total
      inside (inl h) = inl (omega (arith, h))
      inside (inr h) = inr (omega (arith, h))

  pub emit-AllEmitted :
      (n : ℕ) (es : List BuildEntry) (index cursor : ℕ) (m : Memory)
      → IsMapped m output total
      → IsWithin output total m0 m
      → IsArray m0 entries index n es
      → Apart entries ((index + n) * 40) output total
      → AllMapped m0 n es
      → AllClear output total n es
      → IsLaid n es cursor total
      → 64 + (index + n) * 48 ≤ cursor
      → (m' : Memory) × (emit m output entries n index cursor ≡ some m')
        × IsWithin output total m m'
        × AllEmitted m0 m' output index n es cursor total
        × ((x : ℕ)
            → (x < output + 64 + index * 48) ⊎ (output + 64 + (index + n) * 48 ≤ x)
            → (x < output + cursor) ⊎ (output + total ≤ x)
            → m' x ≡ m x)
  unfolding emit
  emit-AllEmitted zero es index cursor m mapped w arr apart sources clear laid room =
      (m, refl, IsWithin-refl output total m, laid, (λ x h k. refl))
  emit-AllEmitted (suc n) [] index cursor m mapped w arr apart sources clear laid room = absurd laid
  emit-AllEmitted (suc n) (e ∷ es) index cursor m mapped w arr apart sources clear (start, p, laid)
        room =
      let end = IsLaid-le n es (start + e.size) total laid in
      let least = p.is.least in
      let slot = output + 64 + index * 48 in
      let r = ready n index es e cursor start arr apart sources clear p end room in
      let (m1, e1, w1, is, same1) =
        emit_entry-IsEmitted m0 output total entries index slot start e m r w bytes mapped in
      let w01 = IsWithin-trans output total m0 m m1 w w1 in
      let next : index + 1 + n ≡ index + suc n = omega arith in
      let (m2, e2, w2, all, same2) =
        emit-AllEmitted n es (index + 1) (start + e.size) m1
          (IsMapped-Extends m m1 output total w1.extends mapped) w01 arr.1 (rw next apart) sources.1
          clear.1 laid (omega (arith, room, least)) in
      (
        m2,
        rw
            (
              listed_still m0 output total entries index slot start e m r w,
              start_of-start cursor start e p,
              e1,
              listed_still m0 output total entries index slot start e m1 r w01,
            )
            e2,
        IsWithin-trans output total m m1 m2 w1 w2,
        (
          start,
          p,
          IsEmitted-Agree m0 m1 m2 output slot start e
              (λ x a b. same2 x (inl (omega (arith, b))) (inl (omega (arith, b, room, least))))
              (λ x a b. same2 x (inr (omega (arith, a, room, least))) (inl (omega (arith, b)))) is,
          all,
        ),
        (λ x h k.
            same2 x (up x h) (down x start k least)
            ∙ same1 x (up_one x h) (down_one x start end k least)),
      )
    where
      up :
          (x : ℕ)
          → (x < output + 64 + index * 48) ⊎ (output + 64 + (index + suc n) * 48 ≤ x)
          → (x < output + 64 + (index + 1) * 48) ⊎ (output + 64 + (index + 1 + n) * 48 ≤ x)
      up x (inl h) = inl (omega arith)
      up x (inr h) = inr (omega arith)

      up_one :
          (x : ℕ)
          → (x < output + 64 + index * 48) ⊎ (output + 64 + (index + suc n) * 48 ≤ x)
          → (x < output + 64 + index * 48) ⊎ (output + 64 + index * 48 + 48 ≤ x)
      up_one x (inl h) = inl h
      up_one x (inr h) = inr (omega arith)

      down :
          (x start : ℕ)
          → (x < output + cursor) ⊎ (output + total ≤ x)
          → cursor ≤ start
          → (x < output + (start + e.size)) ⊎ (output + total ≤ x)
      down x start (inl h) l = inl (omega arith)
      down x start (inr h) l = inr h

      down_one :
          (x start : ℕ)
          → start + e.size ≤ total
          → (x < output + cursor) ⊎ (output + total ≤ x)
          → cursor ≤ start
          → (x < output + start) ⊎ (output + start + e.size ≤ x)
      down_one x start end (inl h) l = inl (omega arith)
      down_one x start end (inr h) l = inr (omega arith)
