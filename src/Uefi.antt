-- ===== src/Uefi.antt =====
-- The firmware-independent parts of the UEFI boot path, bootloader/uefi.
pub mod Exit
pub mod Elf
