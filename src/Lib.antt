-- ===== src/Lib.antt =====
-- Bear Boot Protocol (BBP): a boot loader hands a kernel a chain of tags in memory, and the
-- kernel reads it without trusting it. This library models the two ends of that hand-off, parts
-- of the boot loader around them, and the capsule of version 2 with its profile and its
-- authenticated envelope.
--
-- The parts and the files that model them:
--
-- - Crc.antt is include/bbp/bbp_crc64.h: crc64_init, crc64_update, crc64_final and crc64 stand
--   for bbp_crc64_init, bbp_crc64_update, bbp_crc64_final and bbp_crc64. Crc/Round.antt has the
--   algebra of a round, Crc/Detect.antt what the checksum detects.
-- - Wire.antt, with Wire/Header.antt, Wire/Info.antt and Wire/Tag.antt, is the part of
--   include/bbp/bbp.h that both ends read or write: packed structures whose fields are read at
--   their offsets.
-- - Memory.antt is the address space: a byte at each mapped address. A load or a store at an
--   address that is not mapped is `none`, so that a theorem that a function returns says that
--   it faults on no access. Loads, Parts, Stores and Within below it are the laws of loads and
--   stores.
-- - Kernel.antt is kernel/bbp_kernel.c and kernel/bbp_kernel.h, the consumer.
--   Kernel/Region.antt has the context and the guards on an address, Kernel/Seal.antt
--   bbp_memcmp and bbp_crc_skip, Kernel/Walk.antt bbp_tag_at, bbp_find_tag, bbp_for_each_tag
--   and bbp_evidence, Kernel/Handoff.antt bbp_verify_header, bbp_verify_blob and the
--   initialisers, Kernel/Payload.antt bbp_tag_payload and bbp_tag_array. A C pointer is an
--   address, 0 for NULL; a context or a builder that is passed by pointer is an Option, none
--   for NULL; bbp_find_tag, bbp_for_each_tag and bbp_evidence are modelled behind their checks
--   that the pointers to the context and to the callback are not NULL.
-- - Builder.antt is bootloader/bbp_build.c and bootloader/bbp_build.h, the producer:
--   bbp_builder_init, arena_bump, bbp_alloc_tag, bbp_seal_tag, bbp_builder_finalize and
--   bbp_header_crc; Builder/Arena.antt has bbp_arena_strdup_n, bbp_arena_strdup and
--   bbp_arena_blob. A function that writes memory or the builder returns both.
--   Builder/Layout.antt states the invariant of the builder, and Bump, Stamp, Alloc, Sealing,
--   Info and Handover are the proofs, each for the operation in its name.
-- - Uefi/Exit.antt is bootloader/uefi/uefi_exit.c, the loop that asks the firmware for a memory
--   map and exits boot services with its key. The firmware is a parameter, a state with four
--   functions; Uefi/Exit/Ledger.antt gives any firmware a ledger of its calls and states there
--   what the loop leaves.
-- - Rollback.antt is experimental/rollback/bbp_boot_state.c, with evaluate for
--   bbp_boot_policy_evaluate; Rollback/Policy.antt has its laws.
-- - Uefi/Elf.antt is bootloader/uefi/elf64_loader.c: plan_image for bbp_elf64_plan, scan for
--   its loop over the program headers, admit and place for the body of that loop.
--   Uefi/Elf/Segments.antt states what a segment of a plan satisfies, Admit and Image are the
--   proofs.
-- - Capsule.antt is v2/bbp_v2.c and include/bbp/bbp_v2.h, the capsule of version 2; its
--   children have one entry point each. Capsule/Parse.antt is bbp_v2_parse and
--   validate_padding, Capsule/Entry.antt bbp_v2_get_entry, Capsule/Build.antt bbp_v2_build,
--   Capsule/Digest.antt bbp_v2_digest. Below Parse, Header, Entries, Padding and Payloads are
--   the proofs for the checks in that order, and Body and Sound put them together. Below Build,
--   Plan is the layout of the payloads, Entry what is written for one entry, Emit the loop,
--   Header the header, Seal the checksum and all writes together, and Built the outcome.
--   Capsule/Digest/Stream.antt has the abstract stream of the digest.
-- - Profile.antt is v2/bbp_v2_profile.c: p0_validate for bbp_v2_p0_validate, p0_loop for its
--   loop. Profile/Content.antt and Profile/Regions.antt state the content of each type of
--   entry, Profile/Slot.antt that there is exactly one of a type.
-- - Auth.antt is v2/bbp_v2_auth.c: auth_parse for bbp_v2_auth_parse. The MAC and the policy are
--   parameters, functions of what they are given and of a state that stands for their contexts.
-- - Bridge.antt is tag_external_references of bridge/bbp_bridge.c, which says whether a tag
--   holds physical addresses; Bridge/Shape.antt has the layouts of the tags and what they ask
--   for, Bridge/Bounds.antt, Bridge/Arrays.antt and Bridge/Verdict.antt its answers.
-- - Prelude.antt, Word.antt and Bytes.antt are shared: Boolean tests, lists and total
--   correctness; the bits of a number; byte strings and little-endian numbers. Examples.antt
--   runs the functions on concrete input and applies each theorem there.
--
-- How the parts interact: the producer bumps tags out of an arena, links and seals them and
-- fills in INFO; the consumer checks INFO, bounds its walk by the arena that it was told of,
-- and follows the links. Both use the checksum, and Builder/Handover.antt joins them. The
-- profile, the digest and the envelope of version 2 use the parser and the accessor of the
-- capsule, and their theorems rest on that of the parser.
--
-- Bounds and fuel. A walk of the consumer takes at most 1024 rounds, which is BBP_MAX_TAGS in
-- the code; the count is the recursion. The sealing loop of bbp_builder_finalize has no bound
-- in the code; the model gives it 1025 rounds, and running out of them would be `none`. A
-- builder holds at most 1024 tags, so the rounds are enough. Words are natural numbers with the
-- wrap of 64 or 32 bits written out; SIZE_MAX and UINTPTR_MAX are 2 ^ 64 - 1.
--
-- The loops of version 2 run over a count that the code checks or is given, and that count is
-- the recursion. The address space has no protection and no devices: a mapped byte can be read
-- and written. The copy of a string or a blob reads its whole source and then writes, so a
-- source that overlaps its copy in the arena is read before the copy begins; so is a payload of
-- bbp_v2_build, whose array of entries is read from memory at each use, in the layout of a
-- 64-bit target.
--
-- Not modelled: the strings of bbp_strstatus, bbp_v2_strstatus and bbp_v2_auth_strstatus; the
-- two conversions of the bridge between the versions; the importers, the rest of the firmware
-- code and the ports of the operating systems, which use the parts modelled here.
mod Prelude
mod Word
mod Bytes
pub mod Crc
pub mod Memory
pub mod Wire
pub mod Kernel
pub mod Builder
pub mod Rollback
pub mod Uefi
pub mod Capsule
pub mod Auth
pub mod Profile
pub mod Bridge
mod Examples
