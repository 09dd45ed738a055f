-- ===== src/Builder/Layout.antt =====
-- The chain of tags that bootloader/bbp_build.c lays out in its arena.
use bear_boot.Prelude.{
  ℕ, ◌+◌, ◌-◌, ◌%◌, ◌^◌, ◌≤◌, ◌<◌, ◌≡◌, refl, ◌∙◌, some, List, [], ◌∷◌, ◌++◌, arith, length,
}
use bear_boot.Memory.{Memory, IsByteMemory, IsMapped}
use bear_boot.Memory.Stores.{Agree, load-Agree}
use bear_boot.Wire.Tag
use bear_boot.Builder.{Builder}
use bear_boot.Builder.Bump.{IsSized}

-- A tag that was allocated: its offset in the arena, its identifier and its total size.
pub record Placement : Type 0 where
  pub offset : ℕ
  pub id : ℕ
  pub size : ℕ

-- The tags lie in order, aligned and apart, in `[lo, hi)` of the arena.
abbrev pub Ordered : ℕ → List Placement → ℕ → Type 0
Ordered lo [] hi = lo ≤ hi
Ordered lo (p ∷ ps) hi =
    (lo ≤ p.offset)
    × (p.offset % 8 ≡ 0)
    × (32 ≤ p.size)
    × (p.size ≤ 16777216)
    × Ordered (p.offset + p.size) ps hi

-- From the physical address `cur` the `next_tag` fields lead through the tags to NULL.
abbrev pub Linked : Memory → Builder → ℕ → List Placement → Type 0
Linked m b cur [] = cur ≡ 0
Linked m b cur (p ∷ ps) =
    (cur ≡ b.arena_phys + p.offset)
    × (Tag.tag_id m (b.arena + p.offset) ≡ some p.id)
    × (Tag.tag_size m (b.arena + p.offset) ≡ some p.size)
    × ((next : ℕ) × (Tag.next_tag m (b.arena + p.offset) ≡ some next) × Linked m b next ps)

-- The address of the last tag, 0 if there is none.
abbrev pub last_of : Builder → ℕ → List Placement → ℕ
last_of b t [] = t
last_of b t (p ∷ ps) = last_of b (b.arena + p.offset) ps

-- A builder in a good state, with the tags that it has laid out.
pub record IsBuilder (m : Memory) (b : Builder) (ps : List Placement) : Type 0 where
  pub sized : IsSized b
  pub phys_pos : 0 < b.arena_phys
  pub phys_aligned : b.arena_phys % 8 ≡ 0
  pub below_max : b.arena_phys + b.used ≤ 2 ^ 48
  pub virt_lt : b.arena + b.capacity < 2 ^ 64
  pub arena_pos : 0 < b.arena
  pub bytes : IsByteMemory m
  pub mapped : IsMapped m b.arena b.capacity
  pub ordered : Ordered 0 ps b.used
  pub linked : Linked m b b.first_phys ps
  pub last : b.last ≡ last_of b 0 ps
  pub count : b.tag_count ≡ length ps
  pub few : length ps ≤ 1024

pub Ordered-bounds : (lo : ℕ) (ps : List Placement) (hi : ℕ) → Ordered lo ps hi → lo ≤ hi
Ordered-bounds lo [] hi h = h
Ordered-bounds lo (p ∷ ps) hi (a, b, c, d, r) =
    omega (arith, Ordered-bounds (p.offset + p.size) ps hi r)

pub Ordered-append :
    (lo : ℕ) (ps : List Placement) (hi : ℕ) (p : Placement)
    → Ordered lo ps hi
    → hi ≤ p.offset
    → p.offset % 8 ≡ 0
    → 32 ≤ p.size
    → p.size ≤ 16777216
    → Ordered lo (ps ++ (p ∷ [])) (p.offset + p.size)
Ordered-append lo [] hi p h a b c d = (omega arith, b, c, d, omega arith)
Ordered-append lo (q ∷ ps) hi p (e, f, g, i, r) a b c d =
    (e, f, g, i, Ordered-append (q.offset + q.size) ps hi p r a b c d)

pub Ordered-weaken :
    (lo : ℕ) (ps : List Placement) (hi hi' : ℕ) → Ordered lo ps hi → hi ≤ hi' → Ordered lo ps hi'
Ordered-weaken lo [] hi hi' h k = omega arith
Ordered-weaken lo (p ∷ ps) hi hi' (a, b, c, d, r) k =
    (a, b, c, d, Ordered-weaken (p.offset + p.size) ps hi hi' r k)

-- A chain survives any change outside its tags' first 24 bytes.
pub Linked-Agree :
    (m m' : Memory) (b : Builder) (cur lo : ℕ) (ps : List Placement) (hi : ℕ)
    → Ordered lo ps hi
    → Agree m m' (b.arena + lo) (hi - lo)
    → Linked m b cur ps
    → Linked m' b cur ps
Linked-Agree m m' b cur lo [] hi o same l = l
Linked-Agree m m' b cur lo (p ∷ ps) hi (above, aligned, least, most, o) same
      (here, id, size, (next, en, l)) =
    (
      here,
      load-Agree m m' (b.arena + p.offset) 8 (near 0 8 (omega arith)) ∙ id,
      load-Agree m m' (b.arena + p.offset + 8) 4 (part 8 4 (omega arith)) ∙ size,
      (
        next,
        load-Agree m m' (b.arena + p.offset + 16) 8 (part 16 8 (omega arith)) ∙ en,
        Linked-Agree m m' b next (p.offset + p.size) ps hi o
            (λ x q r. same x (omega arith) (omega arith)) l,
      ),
    )
  where
    bound : p.offset + p.size ≤ hi
    bound = Ordered-bounds (p.offset + p.size) ps hi o

    part : (k n : ℕ) → k + n ≤ 32 → Agree m m' (b.arena + p.offset + k) n
    part k n room x q r = same x (omega arith) (omega (arith, bound))

    near : (k n : ℕ) → k + n ≤ 32 → Agree m m' (b.arena + p.offset) n
    near k n room x q r = same x (omega arith) (omega (arith, bound))

-- The last tag stands in the range of the chain.
pub last_of-bounds :
    (b : Builder) (t lo : ℕ) (p : Placement) (ps : List Placement) (hi : ℕ)
    → Ordered lo (p ∷ ps) hi
    → (b.arena + lo ≤ last_of b t (p ∷ ps)) × (last_of b t (p ∷ ps) + 32 ≤ b.arena + hi)
last_of-bounds b t lo p [] hi (a, al, least, most, o) = omega arith
last_of-bounds b t lo p (q ∷ ps) hi (a, al, least, most, o) =
    omega (arith, last_of-bounds b (b.arena + p.offset) (p.offset + p.size) q ps hi o)

pub last_of-append :
    (b : Builder) (t : ℕ) (ps : List Placement) (q : Placement)
    → last_of b t (ps ++ (q ∷ [])) ≡ b.arena + q.offset
last_of-append b t [] q = refl
last_of-append b t (p ∷ ps) q = last_of-append b (b.arena + p.offset) ps q
