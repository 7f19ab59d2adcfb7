-- ===== src/Kernel.antt =====
-- src/kernel: the kernel, which runs in 64 bits.
pub mod Segments
pub mod Gates
pub mod Machine
pub mod Interrupts
pub mod Keyboard
pub mod Timer
pub mod Paging
pub mod Main
mod Tests
