-- ===== src/Kernel/Machine.antt =====
-- The state that the parts of the kernel share: their variables, the screen and the ports, and
-- the processor's tables.
use netclover.Prelude.{ℕ, ◌≡◌, refl, Bool, Option, none, some, List, u8}
use netclover.Prelude.Steps.{Step}
use netclover.Libc.Console.{Console, outb}
use netclover.Kernel.Segments.{Segments}
use netclover.Kernel.Gates.{Idt, IdtPtr}

-- The functions whose addresses the kernel gives to `irq_install_handler`.
pub data Routine : Type 0 where
  keyboard_handler on_irq0 : Routine

-- The four tables of pager.c by index, their addresses in memory, and what cr3 holds.
pub record Paging : Type 0 where
  pub pml4 : ℕ → ℕ
  pub page_dir_tab : ℕ → ℕ
  pub base_page_dir : ℕ → ℕ
  pub kernel_page_dir : ℕ → ℕ
  pub pml4_address : ℕ
  pub page_dir_tab_address : ℕ
  pub base_page_dir_address : ℕ
  pub kernel_page_dir_address : ℕ
  pub cr3 : ℕ

-- `world` stands for what the devices keep: its type is a parameter.
pub record Machine (W : Type 0) : Type 0 where
  pub world : W
  pub console : Console
  pub segments : Segments
  pub idt : Idt
  pub loaded_idt : Option IdtPtr
  pub interrupts_on : Bool
  pub irq_routines : List (Option Routine)
  pub paging : Paging
  pub caps_on : Bool
  pub ticks : ℕ

-- What a device answers at a port may depend on all that was written to the ports.
pub record Devices (W : Type 0) : Type 0 where
  pub read_port : ℕ → List (ℕ × ℕ) → W → ℕ × W

module _ {W : Type 0} where
  unfoldable pub inb : Devices W → ℕ → Step (Machine W) ℕ
  inb devices port m =
      let (value, w) = devices.read_port port m.console.ports m.world in
      some (u8 value, record m { world = w })

  abbrev pub with_console : Console → Machine W → Machine W
  with_console c m = record m { console = c }

  unfoldable pub write_port : ℕ → ℕ → Step (Machine W) (Unit {0})
  write_port port value m = some (tt, with_console (outb port value m.console) m)

  -- A function of libc on the screen as a step.
  unfoldable pub on_screen : (Console → Option Console) → Step (Machine W) (Unit {0})
  on_screen f m = elim (f m.console) [ none ↦ none | some c ↦ some (tt, with_console c m) ]

  pub on_screen-some :
      (f : Console → Option Console) (c : Console) (m : Machine W)
      → f m.console ≡ some c
      → on_screen f m ≡ some (tt, with_console c m)
  unfolding on_screen
  on_screen-some f c m e = rw (on_screen, e) refl
