-- ===== src/Crc/Detect.antt =====
-- What the checksum of include/bbp/bbp_crc64.h promises: the incremental form agrees with the
-- one-shot form, and a short run of damaged bytes changes it.
use bear_boot.Prelude.{
  ℕ, ◌^◌, ◌<◌, ◌≤◌, ◌≡◌, ◌≢◌, refl, bit_xor, arith, List, [], ◌∷◌, ◌++◌, length,
}
use bear_boot.Bytes.{IsBytes}
use bear_boot.Word.Bits.{bit_xor_injective, bit_xor-lt}
use bear_boot.Crc.{crc64_init, crc64_bits, crc64_update, crc64_final, crc64}
use bear_boot.Crc.Round.{crc64_update_injective, crc64_update_burst, crc64_update-lt}

-- Updating with one buffer and then with another is updating with their concatenation.
pub crc64_update-append :
    (c : ℕ) (xs ys : List ℕ) → crc64_update (crc64_update c xs) ys ≡ crc64_update c (xs ++ ys)
unfolding crc64_update
crc64_update-append c [] ys = refl
crc64_update-append c (x ∷ xs) ys = crc64_update-append (crc64_bits 8 (bit_xor c x)) xs ys

pub crc64_init-lt : crc64_init < 2 ^ 64
unfolding crc64_init
crc64_init-lt = omega arith

-- The checksum of bytes fits in 64 bits.
pub crc64-lt : (bs : List ℕ) → IsBytes bs → crc64 bs < 2 ^ 64
unfolding crc64 crc64_final
crc64-lt bs h = bit_xor-lt 64 _ _ (crc64_update-lt bs crc64_init h crc64_init-lt) (omega arith)

-- A run of at most eight bytes is determined by the checksum and what surrounds it.
pub crc64_burst :
    (xs bs ds ys : List ℕ)
    → IsBytes xs
    → IsBytes bs
    → IsBytes ds
    → IsBytes ys
    → length bs ≡ length ds
    → length bs ≤ 8
    → crc64 (xs ++ (bs ++ ys)) ≡ crc64 (xs ++ (ds ++ ys))
    → bs ≡ ds
unfolding crc64 crc64_final
crc64_burst xs bs ds ys hx hb hd hy len few e = crc64_update_burst c bs ds hb hd len few hc (
    crc64_update_injective ys _ _ hy (crc64_update-lt bs c hb hc) (crc64_update-lt ds c hd hc) (
      cc (
        bit_xor_injective _ _ _ e,
        crc64_update-append crc64_init xs (bs ++ ys),
        crc64_update-append crc64_init xs (ds ++ ys),
        crc64_update-append c bs ys,
        crc64_update-append c ds ys,
      )))
  where
    c : ℕ
    c = crc64_update crc64_init xs

    hc : c < 2 ^ 64
    hc = crc64_update-lt xs crc64_init hx crc64_init-lt

-- Two messages of bytes that differ, and differ only in a run of at most eight consecutive bytes,
-- have different checksums, whatever surrounds the run.
pub crc64-detects_burst :
    (xs bs ds ys : List ℕ)
    → IsBytes xs
    → IsBytes bs
    → IsBytes ds
    → IsBytes ys
    → length bs ≡ length ds
    → length bs ≤ 8
    → bs ≢ ds
    → crc64 (xs ++ (bs ++ ys)) ≢ crc64 (xs ++ (ds ++ ys))
crc64-detects_burst xs bs ds ys hx hb hd hy len few differ e =
    differ (crc64_burst xs bs ds ys hx hb hd hy len few e)
