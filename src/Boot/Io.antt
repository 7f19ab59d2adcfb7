-- ===== src/Boot/Io.antt =====
-- The state that every part of the bootloader works on.
pub use netclover.Prelude.Steps.{Step, pure, fault, ◌>>=◌, ◌>>◌}
use netclover.Libc.Console.{Console}

-- `world` stands for what the BIOS keeps: its type is a parameter.
pub record Io (W : Type 0) : Type 0 where
  pub world : W
  pub console : Console
