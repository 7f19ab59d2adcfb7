-- ===== src/Boot/Logger.antt =====
-- src/boot/stage2/libs/logger.c
pub mod Returns
use netclover.Prelude.{
  ℕ, Option, none, some, List, [], ◌∷◌, ◌++◌, length, take, leb, codes, if◌then◌else◌,
}
pub use netclover.Prelude.{literal}
use netclover.Libc.Arch.{i686}
use netclover.Libc.Console.{Console, putc, puts, putc_all}
use netclover.Libc.Printf.{Args}
use netclover.Libc.Vprintf.{vprintf}
use netclover.Boot.Io.{Io, Step, pure, fault, ◌>>=◌, ◌>>◌}

pub data LogLevel : Type 0 where
  normal warning error critical : LogLevel

abbrev pub level_text : LogLevel → List ℕ
level_text warning = literal (codes "WARNING: ")
level_text error = literal (codes "ERROR: ")
level_text critical = literal (codes "CRITICAL: ")
level_text normal = literal []

module _ {W : Type 0} where
  -- A function of the console as a step.
  pub on_console : (Console → Option Console) → Step (Io W) (Unit {0})
  on_console f io = elim (f io.console) [
    | none ↦ none
    | some c ↦ some (tt, record io { console = c })
  ]

  -- All 8 bytes of the service are printed, terminators included.
  pub log : LogLevel → List ℕ → List ℕ → Args → Step (Io W) (Unit {0})
  unfolding on_console
  log level service format args = do
    on_console (λ c. some (putc i686 b'[' c))
    on_console
        (λ c. if leb 8 (length service) then some (putc_all i686 (take 8 service) c) else none)
    on_console (puts i686 (literal (codes "] ")))
    on_console (puts i686 (level_text level))
    on_console (vprintf i686 format args)
    on_console (λ c. some (putc i686 b'\n' c))
