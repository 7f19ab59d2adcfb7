-- ===== src/Kernel/Timer.antt =====
-- src/kernel/drivers/pit/pit.c: the interval timer. `main` does not start it.
pub mod Ticks
use netclover.Prelude.{
  ℕ, ◌+◌, ◌-◌, ◌*◌, ◌/◌, ◌%◌, ◌^◌, Option, none, some, List, [], ◌∷◌, ◌++◌, codes, literal, bit_and,
  u8, u32, u64,
}
use netclover.Prelude.Steps.{Step, pure, ◌>>=◌, ◌>>◌}
use netclover.Libc.Console.{x86_64}
use netclover.Libc.Printf.{num, printf}
use netclover.Kernel.Machine.{Machine, on_irq0, write_port, on_screen}
use netclover.Kernel.Interrupts.{irq_install_handler}

abbrev pub freq : ℕ
freq = 10

abbrev pub pit_ch0 : ℕ
pit_ch0 = 0x40

abbrev pub pit_comms : ℕ
pit_comms = 0x43

module _ {W : Type 0} where
  abbrev pub set_ticks : ℕ → Step (Machine W) (Unit {0})
  set_ticks n m = some (tt, record m { ticks = n })

  abbrev pub ticks_now : Step (Machine W) ℕ
  ticks_now m = some (m.ticks, m)

  -- Channel 0 takes the low byte of the divisor first.
  pub write_divisor : ℕ → Step (Machine W) (Unit {0})
  write_divisor divisor = do
    write_port pit_comms 0x36
    write_port pit_ch0 (u8 (bit_and divisor 0xFF))
    write_port pit_ch0 (u8 (bit_and (divisor / 2 ^ 8) 0xFF))

  pub init_pit : Step (Machine W) (Unit {0})
  init_pit = do set_ticks 0; irq_install_handler 0 on_irq0; write_divisor (u32 (1191380 / freq))

  pub handle_irq0 : Step (Machine W) (Unit {0})
  handle_irq0 = do
    before ← ticks_now
    let ticks = u64 (before + 1)
    set_ticks ticks
    on_screen (printf x86_64 (literal (codes "Tick! (%d)\n")) (num ticks ∷ []))
