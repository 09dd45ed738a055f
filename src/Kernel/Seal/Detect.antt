-- ===== src/Kernel/Seal/Detect.antt =====
-- Damage to a sealed structure of kernel/bbp_kernel.c.
use mathlib.Core.List.{append_assoc}
use bear_boot.Prelude.{
  ℕ, zero, suc, ◌+◌, ◌-◌, ◌≤◌, ◌≡◌, ◌≢◌, ◌⊎◌, inl, inr, refl, ap, ◌∙◌, sym, true, false, Bool-cases,
  ◌==◌, some, List, [], ◌∷◌, ◌++◌, arith, length, take, drop, eq_of_some, ==_iff,
}
use bear_boot.Bytes.{IsBytes}
use bear_boot.Memory.{Memory, load_bytes, IsByteMemory}
use bear_boot.Memory.Loads.{load_bytes-IsBytes}
use bear_boot.Crc.{crc64}
use bear_boot.Crc.Detect.{crc64_burst}
use bear_boot.Wire.Tag
use bear_boot.Kernel.Seal.{zeros}
use bear_boot.Kernel.Seal.Laws.{zero_field, crc_skip-zero_field}
use bear_boot.Kernel.Walk.{tag_crc_ok}

IsBytes-append : (xs ys : List ℕ) → IsBytes xs → IsBytes ys → IsBytes (xs ++ ys)
IsBytes-append [] ys h k = k
IsBytes-append (x ∷ xs) ys h k = (h.0, IsBytes-append xs ys h.1 k)

IsBytes-parts : (xs ys : List ℕ) → IsBytes (xs ++ ys) → IsBytes xs × IsBytes ys
IsBytes-parts [] ys h = (tt, h)
IsBytes-parts (x ∷ xs) ys h = let (p, q) = IsBytes-parts xs ys h.1 in ((h.0, p), q)

IsBytes-take : (n : ℕ) (xs : List ℕ) → IsBytes xs → IsBytes (take n xs)
IsBytes-take zero xs h = tt
IsBytes-take (suc n) [] h = tt
IsBytes-take (suc n) (x ∷ xs) h = (h.0, IsBytes-take n xs h.1)

IsBytes-drop : (n : ℕ) (xs : List ℕ) → IsBytes xs → IsBytes (drop n xs)
IsBytes-drop zero xs h = h
IsBytes-drop (suc n) [] h = tt
IsBytes-drop (suc n) (x ∷ xs) h = IsBytes-drop n xs h.1

pub zero_field-IsBytes : (off : ℕ) (xs : List ℕ) → IsBytes xs → IsBytes (zero_field off xs)
zero_field-IsBytes off xs h =
    IsBytes-append (take off xs) _ (IsBytes-take off xs h)
      (IsBytes-append zeros _ (omega arith) (IsBytes-drop (off + 8) xs h))

-- A prefix in front of the field stays.
zero_field-before :
    (off : ℕ) (xs r : List ℕ)
    → length xs ≤ off
    → zero_field off (xs ++ r) ≡ xs ++ zero_field (off - length xs) r
zero_field-before off [] r h = let e : off - 0 ≡ off = omega arith in rw e
zero_field-before zero (x ∷ xs) r h = absurd (omega arith)
zero_field-before (suc off) (x ∷ xs) r h =
    let e : suc off + 8 ≡ suc (off + 8) = omega arith in
    let f : suc off - suc (length xs) ≡ off - length xs = omega arith in
    rw (e, f) (ap (λ t. x ∷ t) (zero_field-before off xs r (omega arith)))

take-append : (n : ℕ) (xs r : List ℕ) → n ≤ length xs → take n (xs ++ r) ≡ take n xs
take-append zero xs r h = refl
take-append (suc n) [] r h = absurd (omega arith)
take-append (suc n) (x ∷ xs) r h = ap (λ t. x ∷ t) (take-append n xs r (omega arith))

drop-append : (n : ℕ) (xs r : List ℕ) → n ≤ length xs → drop n (xs ++ r) ≡ drop n xs ++ r
drop-append zero xs r h = refl
drop-append (suc n) [] r h = absurd (omega arith)
drop-append (suc n) (x ∷ xs) r h = drop-append n xs r (omega arith)

-- What follows the field stays.
zero_field-after :
    (off : ℕ) (xs r : List ℕ)
    → off + 8 ≤ length xs
    → zero_field off (xs ++ r) ≡ zero_field off xs ++ r
zero_field-after off xs r h =
    rw (take-append off xs r (omega arith), drop-append (off + 8) xs r h)
      (sym (append_assoc (take off xs) (zeros ++ drop (off + 8) xs) r))

-- The run of bytes `bs` behind `xs` does not touch the field at `off`.
abbrev pub Misses : ℕ → List ℕ → List ℕ → Type 0
Misses off xs bs = (length xs + length bs ≤ off) ⊎ (off + 8 ≤ length xs)

zero_field_burst :
    (off : ℕ) (xs bs ds ys : List ℕ)
    → IsBytes (xs ++ (bs ++ ys))
    → IsBytes ds
    → length bs ≡ length ds
    → length bs ≤ 8
    → Misses off xs bs
    → crc64 (zero_field off (xs ++ (bs ++ ys))) ≡ crc64 (zero_field off (xs ++ (ds ++ ys)))
    → bs ≡ ds
zero_field_burst off xs bs ds ys h hd len few (inl before) e =
    crc64_burst xs bs ds (zero_field (off - length xs - length bs) ys) hx hb hd
      (zero_field-IsBytes _ ys hy) len few
      (ap crc64 (sym (parts bs before))
        ∙ e
        ∙ ap crc64 (parts ds (omega arith))
        ∙ ap (λ n. crc64 (xs ++ (ds ++ zero_field (off - length xs - n) ys))) (sym len))
  where
    hx : IsBytes xs
    hx = (IsBytes-parts xs (bs ++ ys) h).0

    hb : IsBytes bs
    hb = (IsBytes-parts bs ys (IsBytes-parts xs (bs ++ ys) h).1).0

    hy : IsBytes ys
    hy = (IsBytes-parts bs ys (IsBytes-parts xs (bs ++ ys) h).1).1

    parts :
        (cs : List ℕ)
        → length xs + length cs ≤ off
        → zero_field off (xs ++ (cs ++ ys))
          ≡ xs ++ (cs ++ zero_field (off - length xs - length cs) ys)
    parts cs room =
        zero_field-before off xs (cs ++ ys) (omega arith)
        ∙ ap (λ t. xs ++ t) (zero_field-before (off - length xs) cs ys (omega arith))
zero_field_burst off xs bs ds ys h hd len few (inr after) e =
    crc64_burst (zero_field off xs) bs ds ys (zero_field-IsBytes off xs hx) hb hd hy len few (
      ap crc64 (sym (zero_field-after off xs (bs ++ ys) after))
      ∙ e
      ∙ ap crc64 (zero_field-after off xs (ds ++ ys) after))
  where
    hx : IsBytes xs
    hx = (IsBytes-parts xs (bs ++ ys) h).0

    hb : IsBytes bs
    hb = (IsBytes-parts bs ys (IsBytes-parts xs (bs ++ ys) h).1).0

    hy : IsBytes ys
    hy = (IsBytes-parts bs ys (IsBytes-parts xs (bs ++ ys) h).1).1

tag_crc_ok-matches :
    (n : Memory) (tag size sealed : ℕ) (zs : List ℕ)
    → 32 ≤ size
    → Tag.tag_size n tag ≡ some size
    → Tag.checksum n tag ≡ some sealed
    → load_bytes n tag size ≡ some zs
    → tag_crc_ok n tag ≡ some true
    → crc64 (zero_field 24 zs) ≡ sealed
unfolding tag_crc_ok
tag_crc_ok-matches n tag size sealed zs room a b c d =
    (==_iff (crc64 (zero_field 24 zs)) sealed).0
      (eq_of_some (rw (a, crc_skip-zero_field n tag size 24 zs (omega arith) c, b) at d))

-- A run of at most eight bytes outside the checksum field is determined by the rest of the tag.
tag_crc_ok_burst :
    (m m' : Memory) (tag size : ℕ) (xs bs ds ys : List ℕ) {sealed : ℕ}
    → IsByteMemory m
    → IsByteMemory m'
    → 32 ≤ size
    → Tag.tag_size m tag ≡ some size
    → Tag.tag_size m' tag ≡ some size
    → Tag.checksum m tag ≡ some sealed
    → Tag.checksum m' tag ≡ some sealed
    → load_bytes m tag size ≡ some (xs ++ (bs ++ ys))
    → load_bytes m' tag size ≡ some (xs ++ (ds ++ ys))
    → length bs ≡ length ds
    → length bs ≤ 8
    → Misses 24 xs bs
    → tag_crc_ok m tag ≡ some true
    → tag_crc_ok m' tag ≡ some true
    → bs ≡ ds
tag_crc_ok_burst m m' tag size xs bs ds ys {sealed} hm hm' room es es' ec ec' el el' len few out ok
      ok' =
    zero_field_burst 24 xs bs ds ys (load_bytes-IsBytes m tag size _ hm el) hd len few out
      (matches m es ec el ok ∙ sym (matches m' es' ec' el' ok'))
  where
    hd : IsBytes ds
    hd =
        (IsBytes-parts ds ys
          (IsBytes-parts xs (ds ++ ys) (load_bytes-IsBytes m' tag size _ hm' el')).1).0

    matches :
        (n : Memory) {zs : List ℕ}
        → Tag.tag_size n tag ≡ some size
        → Tag.checksum n tag ≡ some sealed
        → load_bytes n tag size ≡ some zs
        → tag_crc_ok n tag ≡ some true
        → crc64 (zero_field 24 zs) ≡ sealed
    matches n {zs} a b c d = tag_crc_ok-matches n tag size sealed zs room a b c d

tag_crc_ok-value :
    (m : Memory) (tag size sealed : ℕ) (bytes : List ℕ)
    → 32 ≤ size
    → Tag.tag_size m tag ≡ some size
    → Tag.checksum m tag ≡ some sealed
    → load_bytes m tag size ≡ some bytes
    → tag_crc_ok m tag ≡ some (crc64 (zero_field 24 bytes) == sealed)
unfolding tag_crc_ok
tag_crc_ok-value m tag size sealed bytes room a b c =
    rw (a, crc_skip-zero_field m tag size 24 bytes (omega arith) c, b) refl

-- Take a tag whose checksum matches, and a second memory of bytes in which the tag has the same
-- declared size of at least 32 and the same checksum field, and contents that differ, and differ
-- only in one run of up to eight bytes outside that field. There the checksum does not match.
pub tag_crc_ok-detects_burst :
    (m m' : Memory) (tag size sealed : ℕ) (xs bs ds ys : List ℕ)
    → IsByteMemory m
    → IsByteMemory m'
    → 32 ≤ size
    → Tag.tag_size m tag ≡ some size
    → Tag.tag_size m' tag ≡ some size
    → Tag.checksum m tag ≡ some sealed
    → Tag.checksum m' tag ≡ some sealed
    → load_bytes m tag size ≡ some (xs ++ (bs ++ ys))
    → load_bytes m' tag size ≡ some (xs ++ (ds ++ ys))
    → length bs ≡ length ds
    → length bs ≤ 8
    → Misses 24 xs bs
    → tag_crc_ok m tag ≡ some true
    → bs ≢ ds
    → tag_crc_ok m' tag ≡ some false
tag_crc_ok-detects_burst m m' tag size sealed xs bs ds ys hm hm' room es es' ec ec' el el' len few
      out ok differ =
    let value = tag_crc_ok-value m' tag size sealed (xs ++ (ds ++ ys)) room es' ec' el' in
    elim (Bool-cases (crc64 (zero_field 24 (xs ++ (ds ++ ys))) == sealed)) [
      | inr bad ↦ value ∙ ap some bad
      | inl same ↦ absurd (
          differ (
            tag_crc_ok_burst m m' tag size xs bs ds ys hm hm' room es es' ec ec' el el' len few out
              ok (value ∙ ap some same)))
    ]
