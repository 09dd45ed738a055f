-- ===== src/Builder/Info.antt =====
-- `bbp_builder_finalize` of bootloader/bbp_build.c fills in INFO.
use bear_boot.Prelude.{
  ℕ, ◌+◌, ◌-◌, ◌%◌, ◌^◌, ◌≤◌, ◌<◌, ◌≡◌, ◌≢◌, ◌⊎◌, inl, inr, sym, ◌∙◌, some, arith,
}
use bear_boot.Bytes.{IsBytes, le-le_bytes2, le-le_bytes4, le-le_bytes8}
use bear_boot.Memory.{Memory, store, store_bytes, IsByteMemory, IsMapped}
use bear_boot.Memory.Loads.{IsMapped-part, IsMapped-prefix}
use bear_boot.Memory.Stores.{
  Extends, Extends-trans, IsMapped-Extends, store-IsStored, store_bytes-IsStored, load-IsStored,
  load-Agree, load_bytes-Agree,
}
use bear_boot.Wire.{info_magic}
use bear_boot.Wire.Info
use bear_boot.Kernel.Handoff.Init.{IsInfo}
use bear_boot.Builder.{Builder, crc_skip, fill_info}
use bear_boot.Builder.Sealing.{crc_skip-consumer, crc_skip-value, crc_skip-Agree}

-- INFO as the consumer wants it, with the first tag of the builder, and nothing else written.
pub record IsFilled (m m' : Memory) (b : Builder) (info : ℕ) : Type 0 where
  pub valid : IsInfo m' info
  pub first : Info.first_tag m' info ≡ some b.first_phys
  pub same : (x : ℕ) → (x < info) ⊎ (info + 144 ≤ x) → m' x ≡ m x
  pub extends : Extends m m'
  pub bytes : IsByteMemory m → IsByteMemory m'

magic-IsBytes : IsBytes info_magic
magic-IsBytes = omega arith

fill_info-steps :
    (m m1 m2 m3 m4 m5 m6 m7 m8 : Memory) (b : Builder) (info sum : ℕ)
    → store m (info + 16) 2 1 ≡ some m1
    → store m1 (info + 18) 2 1 ≡ some m2
    → store_bytes m2 info info_magic ≡ some m3
    → store m3 (info + 116) 4 b.tag_count ≡ some m4
    → store m4 (info + 120) 8 b.first_phys ≡ some m5
    → store m5 (info + 20) 4 ((144 + b.used) % 2 ^ 32) ≡ some m6
    → store m6 (info + 136) 8 0 ≡ some m7
    → crc_skip m7 info 144 136 ≡ some sum
    → store m7 (info + 136) 8 sum ≡ some m8
    → fill_info m b info ≡ some m8
unfolding fill_info
fill_info-steps m m1 m2 m3 m4 m5 m6 m7 m8 b info sum e1 e2 e3 e4 e5 e6 e7 ec e8 =
    rw (e1, e2, e3, e4, e5, e6, e7, ec) e8

pub fill_info-IsFilled :
    (m : Memory) (b : Builder) (info : ℕ)
    → info ≢ 0
    → IsByteMemory m
    → IsMapped m info 144
    → b.first_phys < 2 ^ 64
    → b.used ≤ 67108864 - 144
    → (m' : Memory) × (fill_info m b info ≡ some m') × IsFilled m m' b info
fill_info-IsFilled m b info there hm h small fits =
    let (m1, e1, s1) =
      store-IsStored m (info + 16) 2 1 (IsMapped-part m info 144 16 2 h (omega arith)) in
    let x1 = s1.extends in
    let (m2, e2, s2) = store-IsStored m1 (info + 18) 2 1 (part m1 x1 18 2 (omega arith)) in
    let x2 = Extends-trans m m1 m2 x1 s2.extends in
    let (m3, e3, magic, same3, ext3, byt3) =
      store_bytes-IsStored m2 info info_magic
        (IsMapped-prefix m2 info 144 16 (IsMapped-Extends m m2 info 144 x2 h) (omega arith))
        magic-IsBytes in
    let x3 = Extends-trans m m2 m3 x2 ext3 in
    let (m4, e4, s4) =
      store-IsStored m3 (info + 116) 4 b.tag_count (part m3 x3 116 4 (omega arith)) in
    let x4 = Extends-trans m m3 m4 x3 s4.extends in
    let (m5, e5, s5) =
      store-IsStored m4 (info + 120) 8 b.first_phys (part m4 x4 120 8 (omega arith)) in
    let x5 = Extends-trans m m4 m5 x4 s5.extends in
    let (m6, e6, s6) =
      store-IsStored m5 (info + 20) 4 ((144 + b.used) % 2 ^ 32) (part m5 x5 20 4 (omega arith)) in
    let x6 = Extends-trans m m5 m6 x5 s6.extends in
    let (m7, e7, s7) = store-IsStored m6 (info + 136) 8 0 (part m6 x6 136 8 (omega arith)) in
    let x7 = Extends-trans m m6 m7 x6 s7.extends in
    let b7 = s7.bytes (s6.bytes (s5.bytes (s4.bytes (byt3 (s2.bytes (s1.bytes hm)))))) in
    let (sum, ec, low) =
      crc_skip-value m7 info 144 136 b7 (IsMapped-Extends m m7 info 144 x7 h) (omega arith)
        (omega arith) in
    let (m8, e8, s8) = store-IsStored m7 (info + 136) 8 sum (part m7 x7 136 8 (omega arith)) in
    (
      m8,
      fill_info-steps m m1 m2 m3 m4 m5 m6 m7 m8 b info sum e1 e2 e3 e4 e5 e6 e7 ec e8,
      record {
        valid = record {
          not_null = there;
          magic =
              load_bytes-Agree m3 m8 info 16 (λ x p q.
                s8.same x (inl (omega arith))
                ∙ s7.same x (inl (omega arith))
                ∙ s6.same x (inl (omega arith))
                ∙ s5.same x (inl (omega arith))
                ∙ s4.same x (inl (omega arith)))
              ∙ magic;
          major =
              load-IsStored s8 (info + 16) 2 (inl (omega arith))
              ∙ load-IsStored s7 (info + 16) 2 (inl (omega arith))
              ∙ load-IsStored s6 (info + 16) 2 (inl (omega arith))
              ∙ load-IsStored s5 (info + 16) 2 (inl (omega arith))
              ∙ load-IsStored s4 (info + 16) 2 (inl (omega arith))
              ∙ load-Agree m2 m3 (info + 16) 2 (λ x p q. same3 x (inr (omega arith)))
              ∙ load-IsStored s2 (info + 16) 2 (inl (omega arith))
              ∙ s1.back (le-le_bytes2 1 (omega arith));
          size = (144 + b.used) % 2 ^ 32;
          sized =
              load-IsStored s8 (info + 20) 4 (inl (omega arith))
              ∙ load-IsStored s7 (info + 20) 4 (inl (omega arith))
              ∙ s6.back (le-le_bytes4 ((144 + b.used) % 2 ^ 32) (omega arith));
          at_least = omega arith;
          at_most = omega arith;
          checksum = sum;
          stored = s8.back (le-le_bytes8 sum low);
          computed =
              crc_skip-Agree m7 m8 info 144 136 (λ x p q. s8.same x (inl (omega arith)))
                (λ x p q. s8.same x (inr (omega arith)))
              ∙ sym (crc_skip-consumer m7 info 144 136 (omega arith) (omega arith))
              ∙ ec;
        };
        first =
            load-IsStored s8 (info + 120) 8 (inl (omega arith))
            ∙ load-IsStored s7 (info + 120) 8 (inl (omega arith))
            ∙ load-IsStored s6 (info + 120) 8 (inr (omega arith))
            ∙ s5.back (le-le_bytes8 b.first_phys small);
        same = λ x o.
            s8.same x (clear x 136 8 (omega arith) o)
            ∙ s7.same x (clear x 136 8 (omega arith) o)
            ∙ s6.same x (clear x 20 4 (omega arith) o)
            ∙ s5.same x (clear x 120 8 (omega arith) o)
            ∙ s4.same x (clear x 116 4 (omega arith) o)
            ∙ same3 x (front x o)
            ∙ s2.same x (clear x 18 2 (omega arith) o)
            ∙ s1.same x (clear x 16 2 (omega arith) o);
        extends = Extends-trans m m7 m8 x7 s8.extends;
        bytes = λ c. s8.bytes b7;
      },
    )
  where
    part : (n : Memory) → Extends m n → (o l : ℕ) → o + l ≤ 144 → IsMapped n (info + o) l
    part n x o l room = IsMapped-Extends m n (info + o) l x (IsMapped-part m info 144 o l h room)

    clear :
        (x o l : ℕ)
        → o + l ≤ 144
        → (x < info) ⊎ (info + 144 ≤ x)
        → (x < info + o) ⊎ (info + o + l ≤ x)
    clear x o l room (inl below) = inl (omega arith)
    clear x o l room (inr above) = inr (omega arith)

    front : (x : ℕ) → (x < info) ⊎ (info + 144 ≤ x) → (x < info) ⊎ (info + 16 ≤ x)
    front x (inl below) = inl below
    front x (inr above) = inr (omega arith)
