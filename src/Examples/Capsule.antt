-- ===== src/Examples/Capsule.antt =====
-- A capsule of version 2 with one entry and an envelope around it, and one with the profile P0.
use bear_boot.Prelude.{
  ℕ, ◌+◌, ◌-◌, ◌<◌, ◌%◌, refl, false, leb, ◌==◌, subst, eq_of_some, some, List, [], ◌∷◌, ◌++◌,
  arith,
}
use bear_boot.Memory.{Memory, IsByteMemory, IsMapped}
use bear_boot.Capsule.{View, EntryView}
use bear_boot.Profile.{P0View}
use bear_boot.Auth.{AuthView, MacVerify, AuthPolicy}
use bear_boot.Examples.Sample.{nth}

abbrev pub capsule_bytes : List ℕ
capsule_bytes =
    66 ∷ 66 ∷ 80 ∷ 50 ∷ 67 ∷ 65 ∷ 80 ∷ 0 ∷ 2 ∷ 0 ∷ 0 ∷ 0 ∷ 64 ∷ 0 ∷ 48 ∷ 0 ∷ 0 ∷ 0 ∷ 0 ∷ 0 ∷ 1 ∷ 0
    ∷ 0 ∷ 0 ∷ 120 ∷ 0 ∷ 0 ∷ 0 ∷ 0 ∷ 0 ∷ 0 ∷ 0 ∷ 64 ∷ 0 ∷ 0 ∷ 0 ∷ 0 ∷ 0 ∷ 0 ∷ 0 ∷ 142 ∷ 49 ∷ 239 ∷ 80
    ∷ 242 ∷ 75 ∷ 192 ∷ 175 ∷ 0 ∷ 0 ∷ 0 ∷ 0 ∷ 0 ∷ 0 ∷ 0 ∷ 0 ∷ 0 ∷ 0 ∷ 0 ∷ 0 ∷ 0 ∷ 0 ∷ 0 ∷ 0 ∷ 52 ∷ 18
    ∷ 0 ∷ 0 ∷ 0 ∷ 0 ∷ 0 ∷ 0 ∷ 0 ∷ 0 ∷ 0 ∷ 0 ∷ 1 ∷ 0 ∷ 0 ∷ 0 ∷ 112 ∷ 0 ∷ 0 ∷ 0 ∷ 0 ∷ 0 ∷ 0 ∷ 0 ∷ 8
    ∷ 0 ∷ 0 ∷ 0 ∷ 0 ∷ 0 ∷ 0 ∷ 0 ∷ 7 ∷ 237 ∷ 144 ∷ 199 ∷ 40 ∷ 234 ∷ 132 ∷ 243 ∷ 8 ∷ 0 ∷ 0 ∷ 0 ∷ 0 ∷ 0
    ∷ 0 ∷ 0 ∷ 66 ∷ 101 ∷ 97 ∷ 114 ∷ 66 ∷ 111 ∷ 111 ∷ 116 ∷ []

abbrev pub profile_bytes : List ℕ
profile_bytes =
    66 ∷ 66 ∷ 80 ∷ 50 ∷ 67 ∷ 65 ∷ 80 ∷ 0 ∷ 2 ∷ 0 ∷ 0 ∷ 0 ∷ 64 ∷ 0 ∷ 48 ∷ 0 ∷ 0 ∷ 0 ∷ 0 ∷ 0 ∷ 4 ∷ 0
    ∷ 0 ∷ 0 ∷ 84 ∷ 1 ∷ 0 ∷ 0 ∷ 0 ∷ 0 ∷ 0 ∷ 0 ∷ 64 ∷ 0 ∷ 0 ∷ 0 ∷ 0 ∷ 0 ∷ 0 ∷ 0 ∷ 20 ∷ 18 ∷ 223 ∷ 141
    ∷ 199 ∷ 31 ∷ 188 ∷ 140 ∷ 0 ∷ 0 ∷ 0 ∷ 0 ∷ 0 ∷ 0 ∷ 0 ∷ 0 ∷ 0 ∷ 0 ∷ 0 ∷ 0 ∷ 0 ∷ 0 ∷ 0 ∷ 0 ∷ 1 ∷ 0
    ∷ 0 ∷ 0 ∷ 50 ∷ 80 ∷ 66 ∷ 66 ∷ 0 ∷ 0 ∷ 0 ∷ 0 ∷ 1 ∷ 0 ∷ 0 ∷ 0 ∷ 0 ∷ 1 ∷ 0 ∷ 0 ∷ 0 ∷ 0 ∷ 0 ∷ 0 ∷ 16
    ∷ 0 ∷ 0 ∷ 0 ∷ 0 ∷ 0 ∷ 0 ∷ 0 ∷ 121 ∷ 145 ∷ 192 ∷ 224 ∷ 59 ∷ 138 ∷ 134 ∷ 156 ∷ 8 ∷ 0 ∷ 0 ∷ 0 ∷ 0
    ∷ 0 ∷ 0 ∷ 0 ∷ 2 ∷ 0 ∷ 0 ∷ 0 ∷ 50 ∷ 80 ∷ 66 ∷ 66 ∷ 0 ∷ 0 ∷ 0 ∷ 0 ∷ 1 ∷ 0 ∷ 0 ∷ 0 ∷ 16 ∷ 1 ∷ 0 ∷ 0
    ∷ 0 ∷ 0 ∷ 0 ∷ 0 ∷ 40 ∷ 0 ∷ 0 ∷ 0 ∷ 0 ∷ 0 ∷ 0 ∷ 0 ∷ 17 ∷ 30 ∷ 28 ∷ 235 ∷ 193 ∷ 61 ∷ 14 ∷ 214 ∷ 8
    ∷ 0 ∷ 0 ∷ 0 ∷ 0 ∷ 0 ∷ 0 ∷ 0 ∷ 3 ∷ 0 ∷ 0 ∷ 0 ∷ 50 ∷ 80 ∷ 66 ∷ 66 ∷ 0 ∷ 0 ∷ 0 ∷ 0 ∷ 1 ∷ 0 ∷ 0 ∷ 0
    ∷ 56 ∷ 1 ∷ 0 ∷ 0 ∷ 0 ∷ 0 ∷ 0 ∷ 0 ∷ 16 ∷ 0 ∷ 0 ∷ 0 ∷ 0 ∷ 0 ∷ 0 ∷ 0 ∷ 99 ∷ 65 ∷ 150 ∷ 93 ∷ 88 ∷ 40
    ∷ 226 ∷ 197 ∷ 8 ∷ 0 ∷ 0 ∷ 0 ∷ 0 ∷ 0 ∷ 0 ∷ 0 ∷ 4 ∷ 0 ∷ 0 ∷ 0 ∷ 50 ∷ 80 ∷ 66 ∷ 66 ∷ 0 ∷ 0 ∷ 0 ∷ 0
    ∷ 1 ∷ 0 ∷ 0 ∷ 0 ∷ 72 ∷ 1 ∷ 0 ∷ 0 ∷ 0 ∷ 0 ∷ 0 ∷ 0 ∷ 12 ∷ 0 ∷ 0 ∷ 0 ∷ 0 ∷ 0 ∷ 0 ∷ 0 ∷ 187 ∷ 106
    ∷ 36 ∷ 206 ∷ 10 ∷ 128 ∷ 123 ∷ 17 ∷ 8 ∷ 0 ∷ 0 ∷ 0 ∷ 0 ∷ 0 ∷ 0 ∷ 0 ∷ 1 ∷ 0 ∷ 0 ∷ 0 ∷ 4 ∷ 0 ∷ 0 ∷ 0
    ∷ 0 ∷ 0 ∷ 0 ∷ 0 ∷ 0 ∷ 0 ∷ 0 ∷ 0 ∷ 1 ∷ 0 ∷ 0 ∷ 0 ∷ 32 ∷ 0 ∷ 0 ∷ 0 ∷ 0 ∷ 0 ∷ 16 ∷ 0 ∷ 0 ∷ 0 ∷ 0
    ∷ 0 ∷ 0 ∷ 0 ∷ 32 ∷ 0 ∷ 0 ∷ 0 ∷ 0 ∷ 0 ∷ 1 ∷ 0 ∷ 0 ∷ 0 ∷ 0 ∷ 0 ∷ 0 ∷ 0 ∷ 0 ∷ 0 ∷ 0 ∷ 0 ∷ 0 ∷ 0 ∷ 0
    ∷ 0 ∷ 0 ∷ 0 ∷ 32 ∷ 0 ∷ 0 ∷ 0 ∷ 0 ∷ 0 ∷ 0 ∷ 0 ∷ 0 ∷ 128 ∷ 255 ∷ 255 ∷ 255 ∷ 255 ∷ 0 ∷ 0 ∷ 0 ∷ 0
    ∷ 4 ∷ 0 ∷ 0 ∷ 0 ∷ 208 ∷ 13 ∷ 254 ∷ 237 ∷ []

abbrev pub envelope_header : List ℕ
envelope_header =
    66 ∷ 66 ∷ 80 ∷ 50 ∷ 65 ∷ 85 ∷ 84 ∷ 72 ∷ 1 ∷ 0 ∷ 1 ∷ 0 ∷ 0 ∷ 0 ∷ 0 ∷ 0 ∷ 7 ∷ 0 ∷ 0 ∷ 0 ∷ 0 ∷ 0
    ∷ 0 ∷ 0 ∷ 120 ∷ 0 ∷ 0 ∷ 0 ∷ 0 ∷ 0 ∷ 0 ∷ 0 ∷ 1 ∷ 2 ∷ 3 ∷ 4 ∷ 5 ∷ 6 ∷ 7 ∷ 8 ∷ 9 ∷ 10 ∷ 11 ∷ 12
    ∷ 13 ∷ 14 ∷ 15 ∷ 16 ∷ 9 ∷ 9 ∷ 9 ∷ 9 ∷ 9 ∷ 9 ∷ 9 ∷ 9 ∷ 9 ∷ 9 ∷ 9 ∷ 9 ∷ 9 ∷ 9 ∷ 9 ∷ 9 ∷ 9 ∷ 9 ∷ 9
    ∷ 9 ∷ 9 ∷ 9 ∷ 9 ∷ 9 ∷ 9 ∷ 9 ∷ 9 ∷ 9 ∷ 9 ∷ 9 ∷ 9 ∷ 9 ∷ []

-- The envelope at 16384, its capsule at 16464, and zeros elsewhere.
abbrev pub shipped : Memory
shipped x = some (nth (envelope_header ++ capsule_bytes) (x - 16384) % 256)

pub shipped-IsMapped : (a n : ℕ) → IsMapped shipped a n
shipped-IsMapped a n x p q = (_, refl)

pub shipped-IsByteMemory : IsByteMemory shipped
shipped-IsByteMemory a b e = subst (λ t. t < 256) (eq_of_some e) (omega arith)

-- The capsule with the profile at 16464.
abbrev pub profiled : Memory
profiled x = some (nth profile_bytes (x - 16464) % 256)

pub profiled-IsMapped : (a n : ℕ) → IsMapped profiled a n
profiled-IsMapped a n x p q = (_, refl)

pub profiled-IsByteMemory : IsByteMemory profiled
profiled-IsByteMemory a b e = subst (λ t. t < 256) (eq_of_some e) (omega arith)

abbrev pub profiled_view : View
profiled_view = record {
  base = 16464;
  total_size = 340;
  directory_offset = 64;
  flags = 0;
  entry_count = 4;
}

abbrev pub before : View
before = record { base = 0; total_size = 0; directory_offset = 0; flags = 0; entry_count = 0 }

abbrev pub shipped_view : View
shipped_view = record {
  base = 16464;
  total_size = 120;
  directory_offset = 64;
  flags = 0;
  entry_count = 1;
}

abbrev pub entry_before : EntryView
entry_before = record {
  kind = 0;
  flags = 0;
  version = 0;
  alignment = 0;
  offset = 0;
  size = 0;
  checksum = 0;
  base = 0;
}

abbrev pub result_before : P0View
result_before = record {
  architecture = 0;
  cpu_count = 0;
  memory_entry_count = 0;
  kernel_physical_base = 0;
  kernel_virtual_base = 0;
  dtb = 0;
  dtb_size = 0;
}

abbrev pub auth_before : AuthView
auth_before = record {
  envelope = 0;
  envelope_size = 0;
  rollback_index = 0;
  key_identity = [];
  capsule = before;
}

-- A verifier that wants the tag to begin with 9, and a policy that wants an index of at least 5;
-- both count their calls.
abbrev pub verify_nine : MacVerify ℕ
verify_nine calls key header bytes [] = (false, calls + 1)
verify_nine calls key header bytes (x ∷ tag) = (x == 9, calls + 1)

abbrev pub at_least_five : AuthPolicy ℕ
at_least_five calls rollback_index key capsule = (leb 5 rollback_index, calls + 1)
