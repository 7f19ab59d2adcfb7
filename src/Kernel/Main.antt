-- ===== src/Kernel/Main.antt =====
-- src/kernel/main.c: the start of the kernel, up to the loop in which it waits for interrupts
pub mod Prints
pub mod Running
pub mod Start
use netclover.Prelude.{
  ℕ, zero, suc, ◌+◌, ◌-◌, ◌*◌, ◌/◌, ◌%◌, ◌^◌, Option, none, some, List, [], ◌∷◌, ◌++◌, codes,
  literal, ltb, u8, u32, if◌then◌else◌,
}
use netclover.Prelude.Steps.{Step, pure, ◌>>=◌, ◌>>◌}
use netclover.Libc.Console.{clrscr, x86_64}
use netclover.Libc.Printf.{num, printf}
use netclover.Kernel.Segments.{Segments, init_gdt}
use netclover.Kernel.Gates.{InterruptRegisters}
use netclover.Kernel.Machine.{Machine, Devices, Routine, keyboard_handler, on_irq0, on_screen}
use netclover.Kernel.Interrupts.{init_idt, irq_handler}
use netclover.Kernel.Keyboard.{init_keyboard, handle_keyboard}
use netclover.Kernel.Timer.{handle_irq0}
use netclover.Kernel.Paging.{init_paging}

-- What `main` reads of the boot parameters: an int by its bit pattern, and a byte.
pub record BootParams : Type 0 where
  pub region_count : ℕ
  pub boot_device : ℕ

module _ {W : Type 0} where
  pub start_segments : Step (Machine W) (Unit {0})
  start_segments m = elim (init_gdt m.segments) [
    | none ↦ none
    | some s ↦ some (tt, record m { segments = s })
  ]

  -- The loop over the regions, with so many rounds to go.
  pub mark_regions : ℕ → Step (Machine W) (Unit {0})
  mark_regions zero = pure tt
  mark_regions (suc rounds) = do
    on_screen (printf x86_64 (literal (codes "!")) [])
    mark_regions rounds

  pub main : Devices W → (ℕ → ℕ) → BootParams → Step (Machine W) (Unit {0})
  main devices stub params = do
    on_screen (λ c. some (clrscr x86_64 c))
    start_segments
    init_idt devices stub
    init_paging
    on_screen
        (printf x86_64 (literal (codes "Boot device: 0x%x\n")) (num (u8 params.boot_device) ∷ []))
    on_screen (printf x86_64 (literal (codes "%i regions\n")) (num params.region_count ∷ []))
    mark_regions (if ltb params.region_count (2 ^ 31) then params.region_count else 0)
    on_screen (printf x86_64 (literal (codes "Hello world from the kernel!\n")) [])
    init_keyboard

  -- What a routine of the table does, by its function.
  pub call_routine : Devices W → Routine → InterruptRegisters → Step (Machine W) (Unit {0})
  call_routine devices keyboard_handler regs = handle_keyboard devices
  call_routine devices on_irq0 regs = handle_irq0
