-- ===== src/Libc.antt =====
-- src/libc, a module for each group of functions.
pub mod Arch
pub mod Ctype
pub mod Minmax
pub mod Strings
pub mod Division
pub mod Console
pub mod Printf
pub mod Vprintf
mod Tests
