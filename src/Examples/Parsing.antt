-- ===== src/Examples/Parsing.antt =====
-- The parser, the profile, the envelope and the digest of version 2 on a concrete capsule.
use bear_boot.Prelude.{
  ℕ, ◌≡◌, refl, Bool, Option, some, false, true, ◌==◌, ◌&&◌, List, [], ◌∷◌, ◌++◌, arith, Ensures,
}
use bear_boot.Bytes.{le}
use bear_boot.Memory.{load, load_bytes}
use bear_boot.Crc.{crc64_update, crc64, crc64_init, crc64_bit, crc64_bits, crc64_final}
use bear_boot.Capsule.{
  CapsuleStatus, ok, bytes_equal, bytes_are_zero, power_of_two, span_overlaps, directory_entry,
  crc_with_zero_checksum,
}
use bear_boot.Capsule.Parse.{
  read_header, read_entry, check_header, check_entry, overlaps_prior, check_entries, select_entry,
  select_fixed, walk_padding, validate_padding, check_payloads, check_body, parse,
}
use bear_boot.Capsule.Parse.Sound.{IsParse, parse-IsParse}
use bear_boot.Capsule.Entry.{get_entry, read_view, outside_extent}
use bear_boot.Capsule.Entry.Inside.{IsGot, get_entry-IsGot}
use bear_boot.Capsule.Entry.Parsed.{IsPayload, parse-get_entry}
use bear_boot.Capsule.Digest.{digest}
use bear_boot.Capsule.Digest.Stream.{Item, IsDigest, digest-IsDigest}
use bear_boot.Capsule.Digest.Unique.{IsSized, chunks_injective}
use bear_boot.Profile.{
  P0View, kind_bit, check_identity, check_memory, check_memory_map, check_kernel_address,
  check_devicetree, check_content, p0_loop, p0_validate,
}
use bear_boot.Profile.Sound.{IsValidated, p0_validate-IsValidated}
use bear_boot.Auth.{auth_parse}
use bear_boot.Auth.Gate.{IsGated, auth_parse-IsGated}
use bear_boot.Examples.Capsule.{
  shipped, shipped-IsMapped, shipped_view, before, entry_before, result_before, auth_before,
  verify_nine, at_least_five, profiled, profiled-IsMapped, profiled-IsByteMemory, profiled_view,
}

shipped_parses : parse shipped 16464 120 (some before) ≡ some (ok, some shipped_view)
unfolding parse check_body check_payloads validate_padding walk_padding select_fixed select_entry
    check_entries overlaps_prior check_entry check_header read_entry read_header
    crc_with_zero_checksum directory_entry span_overlaps power_of_two bytes_are_zero bytes_equal
    load load_bytes le crc64 crc64_init crc64_bit crc64_bits crc64_final crc64_update
shipped_parses = refl

parse-IsParse_example :
    Ensures (IsParse shipped 16464 120 (some before)) (parse shipped 16464 120 (some before))
parse-IsParse_example = parse-IsParse shipped 16464 120 before (shipped-IsMapped 16464 120)

get_entry-IsGot_example :
    Ensures
      (IsGot shipped shipped_view 0 entry_before)
      (get_entry shipped (some shipped_view) 0 (some entry_before))
get_entry-IsGot_example =
    get_entry-IsGot shipped shipped_view 0 entry_before (shipped-IsMapped 16464 120)

parse-get_entry_example :
    Ensures
      (IsPayload shipped shipped_view 0)
      (get_entry shipped (some shipped_view) 0 (some entry_before))
parse-get_entry_example =
    parse-get_entry shipped 16464 120 before shipped_view 0 entry_before
      (shipped-IsMapped 16464 120) shipped_parses (omega arith)

-- A state that keeps the bytes that it is given.
abbrev keep : List ℕ → List ℕ → List ℕ
keep seen bytes = seen ++ bytes

digest-IsDigest_example :
    Ensures
      (IsDigest keep shipped shipped_view [])
      (digest shipped (some shipped_view) (some keep) [])
digest-IsDigest_example = digest-IsDigest keep shipped shipped_view [] (shipped-IsMapped 16464 120)

abbrev items : List Item
items = record { kind = 4660; flags = 0; version = 1; bytes = 66 ∷ [] } ∷ []

abbrev no_flags : ℕ
no_flags = 0

chunks_injective_example : (no_flags ≡ no_flags) × (items ≡ items)
chunks_injective_example =
    chunks_injective 0 0 items items (omega arith) (omega arith) (items_sized, tt) (items_sized, tt)
      refl
  where
    items_sized : IsSized (record { kind = 4660; flags = 0; version = 1; bytes = 66 ∷ [] })
    items_sized = record {
      kind_lt = omega arith;
      flags_lt = omega arith;
      version_lt = omega arith;
      size_lt = omega arith;
    }

abbrev accepted : Option (CapsuleStatus × Option P0View) → Bool
accepted (some (ok, some r)) = (r.cpu_count == 4) && (r.dtb_size == 4)
accepted _ = false

profiled_validates :
    accepted (p0_validate profiled (some profiled_view) (some result_before)) ≡ true
unfolding p0_validate p0_loop check_content check_devicetree check_kernel_address check_memory_map
    check_memory check_identity kind_bit get_entry read_view outside_extent directory_entry load
    load_bytes le
profiled_validates = refl

p0_validate-IsValidated_example :
    Ensures
      (IsValidated profiled profiled_view (some result_before))
      (p0_validate profiled (some profiled_view) (some result_before))
p0_validate-IsValidated_example =
    p0_validate-IsValidated profiled profiled_view profiled-IsByteMemory
      (profiled-IsMapped 16464 340) result_before

auth_parse-IsGated_example :
    Ensures
      (IsGated shipped verify_nine at_least_five 0 16384 200 auth_before)
      (auth_parse shipped (some verify_nine) (some at_least_five) 0 16384 200 (some auth_before))
auth_parse-IsGated_example =
    auth_parse-IsGated shipped verify_nine at_least_five 0 16384 200 auth_before
      (shipped-IsMapped 16384 200)
