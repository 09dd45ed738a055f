-- ===== src/Examples/Chain.antt =====
-- The chain of the concrete hand-off, as the consumer walks it and as the producer laid it out.
use bear_boot.Prelude.{◌≡◌, refl, inl, true, false, some, List, [], ◌∷◌, arith, length}
use bear_boot.Bytes.{le}
use bear_boot.Memory.{load, load_bytes}
use bear_boot.Crc.{crc64_init, crc64_update, crc64_bits, crc64_bit, crc64_final}
use bear_boot.Wire.Info
use bear_boot.Wire.Tag
use bear_boot.Kernel.Seal.{crc_skip}
use bear_boot.Kernel.Region.{phys_to_virt, tag_len_ok, tag_ptr_ok, tag_region_ok, address_region_ok}
use bear_boot.Kernel.Walk.{tag_at, tag_crc_ok, is_corrupt}
use bear_boot.Kernel.Walk.Chain.{Entry, Segment, done, link, Halts, ended}
use bear_boot.Builder.Layout.{Ordered, Linked, IsBuilder}
use bear_boot.Builder.Handover.{IsInfoSpace, IsSpan}
use bear_boot.Examples.Sample.{
  sample, consumer, producer, placements, sample-IsByteMemory, sample-IsMapped,
}

abbrev pub entries : List Entry
entries =
    record { tag = 73728; id = 7; intact = true }
    ∷ record { tag = 73768; id = 9; intact = true }
    ∷ []

pub starts : Info.first_tag sample 4096 ≡ some 8192
unfolding load load_bytes le
starts = refl

pub identified_first : Tag.tag_id sample 73728 ≡ some 7
unfolding load load_bytes le
identified_first = refl

pub identified_second : Tag.tag_id sample 73768 ≡ some 9
unfolding load load_bytes le
identified_second = refl

pub sized_first : Tag.tag_size sample 73728 ≡ some 40
unfolding load load_bytes le
sized_first = refl

pub sized_second : Tag.tag_size sample 73768 ≡ some 32
unfolding load load_bytes le
sized_second = refl

pub next_first : Tag.next_tag sample 73728 ≡ some 8232
unfolding load load_bytes le
next_first = refl

pub next_second : Tag.next_tag sample 73768 ≡ some 0
unfolding load load_bytes le
next_second = refl

pub sound_first : tag_crc_ok sample 73728 ≡ some true
unfolding tag_crc_ok load load_bytes le crc_skip crc64_init crc64_update crc64_bits crc64_bit
    crc64_final
sound_first = refl

sound_second : tag_crc_ok sample 73768 ≡ some true
unfolding tag_crc_ok load load_bytes le crc_skip crc64_init crc64_update crc64_bits crc64_bit
    crc64_final
sound_second = refl

at_first : tag_at sample consumer 8192 ≡ some (some 73728)
unfolding tag_at phys_to_virt tag_len_ok tag_ptr_ok tag_region_ok address_region_ok load load_bytes
    le
at_first = refl

at_second : tag_at sample consumer 8232 ≡ some (some 73768)
unfolding tag_at phys_to_virt tag_len_ok tag_ptr_ok tag_region_ok address_region_ok load load_bytes
    le
at_second = refl

intact_first : is_corrupt sample consumer 73728 ≡ some false
unfolding is_corrupt
intact_first = rw sound_first refl

intact_second : is_corrupt sample consumer 73768 ≡ some false
unfolding is_corrupt
intact_second = rw sound_second refl

pub chain : Segment sample consumer 0 8192 entries
chain =
    link refl at_first identified_first intact_first next_first
      (link refl at_second identified_second intact_second next_second done)

pub halts : Halts sample consumer 0 1024 (length entries)
halts = ended refl (omega arith)

pub ordered : Ordered 0 placements 72
ordered = omega arith

pub linked : Linked sample producer 8192 placements
linked = (
  refl,
  identified_first,
  sized_first,
  (8232, next_first, (refl, identified_second, sized_second, (0, next_second, refl))),
)

pub producer-IsBuilder : IsBuilder sample producer placements
producer-IsBuilder = record {
  sized = record { capacity_lt = omega arith; used_le = omega arith };
  phys_pos = omega arith;
  phys_aligned = refl;
  below_max = omega arith;
  virt_lt = omega arith;
  arena_pos = omega arith;
  bytes = sample-IsByteMemory;
  mapped = sample-IsMapped 73728 96;
  ordered = ordered;
  linked = linked;
  last = refl;
  count = refl;
  few = omega arith;
}

pub info_space : IsInfoSpace sample producer 4096
info_space = record {
  there = λ e. omega (arith, e);
  mapped = sample-IsMapped 4096 144;
  apart = inl (omega arith);
}

pub span : IsSpan producer 65536 96
span = record {
  same_map = refl;
  hint_lt = omega arith;
  nonempty = omega arith;
  covers = omega arith;
  within = omega arith;
  low = omega arith;
}
