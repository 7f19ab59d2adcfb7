-- ===== src/Boot.antt =====
-- src/boot/stage2: the second stage of the bootloader, which runs in 32 bits.
pub mod Io
pub mod Logger
pub mod Disk
pub mod Fat
pub mod Main
pub mod MemDetect
mod Tests
