-- ===== src/Libc/Arch.antt =====
-- The two builds of src/libc: the kernel's, and the bootloader's of 32 bits.
pub data Arch : Type 0 where
  x86_64 i686 : Arch
