-- ===== src/Kernel/Main/Running.antt =====
-- The kernel as it waits for interrupts, and the interrupts that come.
use netclover.Prelude.{
  ℕ, zero, suc, ◌+◌, ◌%◌, ◌^◌, ◌<◌, ◌≡◌, ◌∙◌, refl, arith, some, [], ◌∷◌, codes, literal, get_elem?,
  u64,
}
use netclover.Prelude.Steps.{Step, pure, ◌>>=◌, ◌>>◌}
use netclover.Libc.Console.{Console, putc_all, x86_64}
use netclover.Libc.Printf.{printf}
use netclover.Kernel.Gates.{InterruptRegisters}
use netclover.Kernel.Machine.{Machine, Devices, on_irq0, with_console, on_screen-some}
use netclover.Kernel.Interrupts.{irq_handler}
use netclover.Kernel.Interrupts.Dispatch.{irq_handler-found}
use netclover.Kernel.Timer.Ticks.{tick_text, handle_irq0-tick}
use netclover.Kernel.Main.{mark_regions, call_routine}
use netclover.Kernel.Main.Prints.{printf-mark}

module _ {W : Type 0} (devices : Devices W) where
  -- So many interrupts of one kind, one after the other.
  pub interrupted : ℕ → InterruptRegisters → Step (Machine W) (Unit {0})
  interrupted zero regs = pure tt
  interrupted (suc n) regs = do irq_handler (call_routine devices) regs; interrupted n regs

  -- What one interrupt of the timer leaves.
  one_tick :
      (regs : InterruptRegisters) (m : Machine W)
      → regs.int_no ≡ 32
      → get_elem? m.irq_routines 0 ≡ some (some on_irq0)
      → (c : Console) × (irq_handler (call_routine devices) regs m
          ≡ some (tt, record m { ticks = u64 (m.ticks + 1); console = c }))
  unfolding call_routine
  one_tick regs m vector found =
      let (digits, e, signed) = handle_irq0-tick m in
      let dispatched =
        irq_handler-found (call_routine devices) m 0 regs (some on_irq0) (omega arith) vector
          found in
      let after = putc_all x86_64 (tick_text digits) m.console in
      (record after { ports = (0x20, 0x20) ∷ after.ports }, dispatched ∙ rw (◌>>=◌, e) refl)

  -- While the table has the timer's routine for IRQ 0, any number of its interrupts are all handled, and
  -- the ticks count them, modulo 2 ^ 64.
  pub interrupted-ticks :
      (n : ℕ) (regs : InterruptRegisters) (m : Machine W)
      → regs.int_no ≡ 32
      → get_elem? m.irq_routines 0 ≡ some (some on_irq0)
      → m.ticks < 2 ^ 64
      → (m' : Machine W) × (interrupted n regs m ≡ some (tt, m'))
        × (m'.ticks ≡ (m.ticks + n) % 2 ^ 64)
  unfolding interrupted
  interrupted-ticks zero regs m vector found small = (m, refl, omega arith)
  interrupted-ticks (suc n) regs m vector found small =
      let (c, e) = one_tick regs m vector found in
      let next = record m { ticks = u64 (m.ticks + 1); console = c } in
      let (m', rest, count) = interrupted-ticks n regs next vector found (omega arith) in
      (m', rw (interrupted, ◌>>=◌, e) rest, omega (arith, count))

  pub mark_regions-marked :
      (rounds : ℕ) (m : Machine W)
      → (c : Console) × (mark_regions rounds m ≡ some (tt, with_console c m))
  unfolding mark_regions
  mark_regions-marked zero m = (m.console, refl)
  mark_regions-marked (suc rounds) m =
      let first =
        on_screen-some (printf x86_64 (literal (codes "!")) [])
          (putc_all x86_64 (codes "!") m.console) m (printf-mark m.console) in
      let (c, rest) =
        mark_regions-marked rounds (with_console (putc_all x86_64 (codes "!") m.console) m) in
      (c, rw (mark_regions, ◌>>=◌, first) rest)
