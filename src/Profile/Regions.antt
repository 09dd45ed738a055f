-- ===== src/Profile/Regions.antt =====
-- The memory map of the profile P0 of v2/bbp_v2_profile.c: its loop over the regions.
use bear_boot.Prelude.{
  ℕ, zero, suc, ◌+◌, ◌-◌, ◌*◌, ◌^◌, ◌≤◌, ◌<◌, ◌≡◌, inl, inr, refl, ◌∙◌, Bool, true, false, ◌||◌,
  ltb, ◌==◌, ◌!=◌, if◌then◌else◌, none, some, arith, Bool-cases, Ensures, eq_of_some, ap, subst,
}
use bear_boot.Memory.{Memory, IsByteMemory, IsMapped}
use bear_boot.Memory.Loads.{IsMapped-part, load-Returns, load-lt}
use bear_boot.Capsule.{EntryView, get32}
use bear_boot.Profile.{check_memory, check_memory_map}
use bear_boot.Profile.Content.{AllRegions, IsMemoryMap}

check_memory-AllRegions :
    (m : Memory) (a n : ℕ)
    → IsByteMemory m
    → IsMapped m a (n * 32)
    → Ensures (λ good. good ≡ true → AllRegions m a n) (check_memory m a n)
unfolding check_memory
check_memory-AllRegions m a zero bytes mapped = (true, refl, λ _. tt)
check_memory-AllRegions m a (suc n) bytes mapped =
    let part = λ (o k : ℕ) (fits : o + k ≤ 32).
      load-Returns m (a + o) k (IsMapped-part m a (suc n * 32) o k mapped (omega arith)) in
    let (b, eb) = load-Returns m a 8 (λ x u v. mapped x u (omega arith)) in
    let (l, el) = part 8 8 (omega arith) in
    let (k, ek) = part 16 4 (omega arith) in
    let (r, er) = part 28 4 (omega arith) in
    let (rest, es, all) =
      check_memory-AllRegions m (a + 32) n bytes (λ x u v. mapped x (omega arith) (omega arith)) in
    elim (Bool-cases ((l == 0) || (ltb (2 ^ 64 - 1 - l) b || ((k == 0) || (r != 0))))) [
      | inl bad ↦ (false, rw (eb, el, ek, er, bad) refl, λ g. cc)
      | inr good ↦
          let null : r ≡ 0 = ground arith in
          let nonempty : 0 < l = ground arith in
          let typed : 0 < k = ground arith in
          let small : l < 256 ^ 8 = load-lt m (a + 8) 8 l bytes el in
          let room : b ≤ 18446744073709551615 - l = ground arith in
          (
            rest,
            rw (eb, el, ek, er, good) es,
            λ g. (
              record {
                base = b;
                length = l;
                kind = k;
                base_is = eb;
                length_is = el;
                kind_is = ek;
                reserved = er ∙ ap some null;
                nonempty = nonempty;
                bounded = omega (arith, room, small);
                typed = typed;
              },
              all g,
            ),
          )
    ]

check_memory_map-regions :
    (m : Memory) (e : EntryView) {c z : ℕ} {good : Bool}
    → ltb e.size 8 ≡ false
    → get32 m e.base ≡ some c
    → get32 m (e.base + 4) ≡ some z
    → ((c == 0) || (ltb 4096 c || ((z != 32) || (c * 32 != e.size - 8)))) ≡ false
    → check_memory m (e.base + 8) c ≡ some good
    → check_memory_map m e ≡ some (if good then some c else none)
unfolding check_memory_map
check_memory_map-regions m e long ec ez fits eg = rw (long, ec, ez, fits, eg) refl

pub check_memory_map-IsMemoryMap :
    (m : Memory) (e : EntryView)
    → IsByteMemory m
    → IsMapped m e.base e.size
    → Ensures (λ o. (c : ℕ) → o ≡ some c → IsMemoryMap m c e) (check_memory_map m e)
check_memory_map-IsMemoryMap m e bytes mapped = elim (Bool-cases (ltb e.size 8)) [
  | inl short ↦ (none, unfold check_memory_map in rw short refl, λ c g. cc)
  | inr long ↦
      let room : 8 ≤ e.size = ground arith in
      let (c, ec) = load-Returns m e.base 4 (λ x u v. mapped x u (omega (arith, room))) in
      let (z, ez) =
        load-Returns m (e.base + 4) 4
          (IsMapped-part m e.base e.size 4 4 mapped (omega (arith, room))) in
      elim (Bool-cases ((c == 0) || (ltb 4096 c || ((z != 32) || (c * 32 != e.size - 8))))) [
        | inl bad ↦ (none, unfold check_memory_map in rw (long, ec, ez, bad) refl, λ x g. cc)
        | inr fits ↦
            let nonempty : 0 < c = ground arith in
            let few : c ≤ 4096 = ground arith in
            let stride : z ≡ 32 = ground arith in
            let whole : c * 32 ≡ e.size - 8 = ground arith in
            let (good, eg, all) =
              check_memory-AllRegions m (e.base + 8) c bytes
                (IsMapped-part m e.base e.size 8 (c * 32) mapped (omega (arith, whole, room))) in
            let step = check_memory_map-regions m e long ec ez fits eg in
            elim (Bool-cases good) [
              | inr wrong ↦ (none, step ∙ (rw wrong refl), λ x g. cc)
              | inl right ↦
                  let is : IsMemoryMap m c e = record {
                    size = omega (arith, whole, room);
                    count_is = ec;
                    entry_size = ez ∙ ap some stride;
                    nonempty = nonempty;
                    few = few;
                    regions = all right;
                  } in
                  (
                    some c,
                    step ∙ (rw right refl),
                    λ x g. subst (λ n. IsMemoryMap m n e) (eq_of_some g) is,
                  )
            ]
      ]
]
