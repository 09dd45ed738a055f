-- ===== src/Memory/Parts.antt =====
-- A load of part of what another load read.
use bear_boot.Prelude.{ℕ, zero, suc, ◌+◌, ◌-◌, ◌≤◌, ◌≡◌, refl, some, List, arith, take, drop}
use bear_boot.Memory.{Memory, load_bytes}
use bear_boot.Memory.Loads.{load_bytes-suc}

pub load_bytes-take :
    (m : Memory) (a len n : ℕ) (bs : List ℕ)
    → n ≤ len
    → load_bytes m a len ≡ some bs
    → load_bytes m a n ≡ some (take n bs)
unfolding load_bytes
load_bytes-take m a len zero bs h e = refl
load_bytes-take m a zero (suc n) bs h e = absurd (omega arith)
load_bytes-take m a (suc len) (suc n) bs h e =
    let (b, rest, eb, er, shape) = load_bytes-suc m a len bs e in
    rw (eb, load_bytes-take m (a + 1) len n rest (omega arith) er, shape)

pub load_bytes-drop :
    (m : Memory) (a len n : ℕ) (bs : List ℕ)
    → n ≤ len
    → load_bytes m a len ≡ some bs
    → load_bytes m (a + n) (len - n) ≡ some (drop n bs)
load_bytes-drop m a len zero bs h e =
    let start : a + zero ≡ a = omega arith in
    let count : len - zero ≡ len = omega arith in rw (start, count) e
load_bytes-drop m a zero (suc n) bs h e = absurd (omega arith)
load_bytes-drop m a (suc len) (suc n) bs h e =
    let (b, rest, eb, er, shape) = load_bytes-suc m a len bs e in
    let start : a + suc n ≡ a + 1 + n = omega arith in
    let count : suc len - suc n ≡ len - n = omega arith in
    rw (start, count, shape) (load_bytes-drop m (a + 1) len n rest (omega arith) er)
