-- ===== src/Examples/Tests.antt =====
-- The functions of kernel/bbp_kernel.c and include/bbp/bbp_crc64.h run on a concrete hand-off.
use bear_boot.Prelude.{◌≡◌, refl, some, [], ◌∷◌}
use bear_boot.Memory.{load, load_bytes}
use bear_boot.Bytes.{le}
use bear_boot.Crc.{crc64, crc64_init, crc64_update, crc64_bits, crc64_bit, crc64_final}
use bear_boot.Kernel.Seal.{crc_skip}
use bear_boot.Kernel.Region.{phys_to_virt, tag_len_ok, tag_ptr_ok, tag_region_ok, address_region_ok}
use bear_boot.Kernel.Walk.{tag_at, tag_crc_ok, is_corrupt, find_tag_loop, find_tag}
use bear_boot.Examples.Sample.{sample, consumer}

-- The check value of CRC-64/XZ.
crc64_check_value :
    crc64 (b'1' ∷ b'2' ∷ b'3' ∷ b'4' ∷ b'5' ∷ b'6' ∷ b'7' ∷ b'8' ∷ b'9' ∷ []) ≡ 0x995DC9BBDF1939FA
unfolding crc64 crc64_init crc64_update crc64_bits crc64_bit crc64_final
crc64_check_value = refl

second_tag : find_tag sample consumer 9 ≡ some 73768
unfolding find_tag find_tag_loop tag_at is_corrupt tag_crc_ok phys_to_virt tag_len_ok tag_ptr_ok
    tag_region_ok address_region_ok load load_bytes le crc_skip crc64_init crc64_update crc64_bits
    crc64_bit crc64_final
second_tag = refl
