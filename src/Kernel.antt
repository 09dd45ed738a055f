-- ===== src/Kernel.antt =====
-- kernel/bbp_kernel.c and kernel/bbp_kernel.h: the consumer of the hand-off.
pub mod Region
pub mod Seal
pub mod Walk
pub mod Handoff
pub mod Payload
