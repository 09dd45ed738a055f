-- ===== src/Builder/Stamp.antt =====
-- The stores of `bbp_alloc_tag` in bootloader/bbp_build.c.
use bear_boot.Prelude.{ℕ, ◌+◌, ◌^◌, ◌≤◌, ◌<◌, ◌≡◌, ◌⊎◌, inl, inr, refl, ◌∙◌, some, arith}
use bear_boot.Bytes.{le-le_bytes4, le-le_bytes8}
use bear_boot.Memory.{Memory, IsByteMemory, IsMapped}
use bear_boot.Memory.Loads.{IsMapped-part, IsMapped-prefix}
use bear_boot.Memory.Stores.{
  Extends, Extends-trans, IsMapped-Extends, store-IsStored, load-IsStored,
}
use bear_boot.Wire.Tag
use bear_boot.Builder.{stamp}

-- A fresh header: identifier and size as asked, no successor, and nothing else written.
pub record IsStamped (m m' : Memory) (tag id size : ℕ) : Type 0 where
  pub identified : Tag.tag_id m' tag ≡ some id
  pub sized : Tag.tag_size m' tag ≡ some size
  pub last : Tag.next_tag m' tag ≡ some 0
  pub same : (x : ℕ) → (x < tag) ⊎ (tag + 32 ≤ x) → m' x ≡ m x
  pub extends : Extends m m'
  pub bytes : IsByteMemory m → IsByteMemory m'

pub stamp-IsStamped :
    (m : Memory) (tag id version size : ℕ)
    → id < 2 ^ 64
    → size < 2 ^ 32
    → IsMapped m tag 32
    → (m' : Memory) × (stamp m tag id version size ≡ some m') × IsStamped m m' tag id size
unfolding stamp
stamp-IsStamped m tag id version size hi hs h =
    let (m1, e1, s1) = store-IsStored m tag 8 id (IsMapped-prefix m tag 32 8 h (omega arith)) in
    let x1 = s1.extends in
    let (m2, e2, s2) = store-IsStored m1 (tag + 8) 4 size (part m1 x1 8 4 (omega arith)) in
    let x2 = Extends-trans m m1 m2 x1 s2.extends in
    let (m3, e3, s3) = store-IsStored m2 (tag + 12) 2 version (part m2 x2 12 2 (omega arith)) in
    let x3 = Extends-trans m m2 m3 x2 s3.extends in
    let (m4, e4, s4) = store-IsStored m3 (tag + 14) 2 0 (part m3 x3 14 2 (omega arith)) in
    let x4 = Extends-trans m m3 m4 x3 s4.extends in
    let (m5, e5, s5) = store-IsStored m4 (tag + 16) 8 0 (part m4 x4 16 8 (omega arith)) in
    let x5 = Extends-trans m m4 m5 x4 s5.extends in
    let (m6, e6, s6) = store-IsStored m5 (tag + 24) 8 0 (part m5 x5 24 8 (omega arith)) in
    (
      m6,
      rw (e1, e2, e3, e4, e5, e6) refl,
      record {
        identified =
            load-IsStored s6 tag 8 (inl (omega arith))
            ∙ load-IsStored s5 tag 8 (inl (omega arith))
            ∙ load-IsStored s4 tag 8 (inl (omega arith))
            ∙ load-IsStored s3 tag 8 (inl (omega arith))
            ∙ load-IsStored s2 tag 8 (inl (omega arith))
            ∙ s1.back (le-le_bytes8 id hi);
        sized =
            load-IsStored s6 (tag + 8) 4 (inl (omega arith))
            ∙ load-IsStored s5 (tag + 8) 4 (inl (omega arith))
            ∙ load-IsStored s4 (tag + 8) 4 (inl (omega arith))
            ∙ load-IsStored s3 (tag + 8) 4 (inl (omega arith))
            ∙ s2.back (le-le_bytes4 size hs);
        last =
            load-IsStored s6 (tag + 16) 8 (inl (omega arith))
            ∙ s5.back (le-le_bytes8 0 (omega arith));
        same = λ x o.
            s6.same x (clear x 24 8 (omega arith) o)
            ∙ s5.same x (clear x 16 8 (omega arith) o)
            ∙ s4.same x (clear x 14 2 (omega arith) o)
            ∙ s3.same x (clear x 12 2 (omega arith) o)
            ∙ s2.same x (clear x 8 4 (omega arith) o)
            ∙ s1.same x (first x o);
        extends = Extends-trans m m5 m6 x5 s6.extends;
        bytes = λ b. s6.bytes (s5.bytes (s4.bytes (s3.bytes (s2.bytes (s1.bytes b)))));
      },
    )
  where
    part : (n : Memory) → Extends m n → (o l : ℕ) → o + l ≤ 32 → IsMapped n (tag + o) l
    part n x o l room = IsMapped-Extends m n (tag + o) l x (IsMapped-part m tag 32 o l h room)

    clear :
        (x o l : ℕ) → o + l ≤ 32 → (x < tag) ⊎ (tag + 32 ≤ x) → (x < tag + o) ⊎ (tag + o + l ≤ x)
    clear x o l room (inl below) = inl (omega arith)
    clear x o l room (inr above) = inr (omega arith)

    first : (x : ℕ) → (x < tag) ⊎ (tag + 32 ≤ x) → (x < tag) ⊎ (tag + 8 ≤ x)
    first x (inl below) = inl below
    first x (inr above) = inr (omega arith)
