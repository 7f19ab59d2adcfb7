-- ===== src/Kernel/Tests.antt =====
-- Runs of the kernel's parts on a machine with an empty screen.
use mathlib.Core.Option.{map as map_option}
use netclover.Prelude.{
  ℕ, ◌+◌, ◌*◌, ◌/◌, ◌%◌, ◌^◌, ◌≡◌, ◌≢◌, refl, arith, true, false, none, some, List, [], ◌∷◌, ◌++◌,
  get_elem?, replicate,
}
use netclover.Kernel.Segments.{GdtEntry, Segments, cleared_tss, set_gdt_gate}
use netclover.Kernel.Segments.Descriptors.{descriptor, set_gdt_gate-descriptor}
use netclover.Kernel.Gates.{InterruptRegisters, cleared_entries, gate}
use netclover.Kernel.Machine.{Machine, Devices, Paging, keyboard_handler, on_irq0}
use netclover.Kernel.Interrupts.{init_idt, irq_handler}
use netclover.Kernel.Interrupts.Setup.{gate_of, pic_writes, init_idt-gates}
use netclover.Kernel.Interrupts.Dispatch.{
  installs, uninstalls, apply_all, served, irq_handler-served,
}
use netclover.Kernel.Keyboard.{key}
use netclover.Kernel.Keyboard.Keys.{us_text}
use netclover.Kernel.Keyboard.Typing.{KeyEvent, press_all, typed, press_all-typed}
use netclover.Kernel.Keyboard.Faults.{key-departs}
use netclover.Kernel.Timer.{init_pit}
use netclover.Kernel.Timer.Ticks.{init_pit-reload}
use netclover.Kernel.Paging.{kernel_page, get_address, fill_tables}
use netclover.Kernel.Paging.Walk.{Placed, walk}
use netclover.Kernel.Paging.Translation.{walk-fill_tables}
use netclover.Kernel.Main.{main, call_routine}
use netclover.Kernel.Main.Running.{interrupted, interrupted-ticks}
use netclover.Kernel.Main.Start.{six_entries, main-waits}

abbrev no_segment : GdtEntry
no_segment = record { limit = 0; base_low = 0; base_mid = 0; access = 0; flags = 0; base_high = 0 }

abbrev some_segments : Segments
some_segments = record {
  gdt_entries = replicate 6 no_segment;
  gdt_ptr = record { limit = 0; base = 0 };
  tss_entry = cleared_tss;
  entries_address = 0x5000;
  tss_address = 0x6000;
  loaded = none;
}

-- The tables in four pages of the kernel.
abbrev some_tables : Paging
some_tables = record {
  pml4 = λ i. 0;
  page_dir_tab = λ i. 0;
  base_page_dir = λ i. 0;
  kernel_page_dir = λ i. 0;
  pml4_address = kernel_page + 0x101000;
  page_dir_tab_address = kernel_page + 0x102000;
  base_page_dir_address = kernel_page + 0x103000;
  kernel_page_dir_address = kernel_page + 0x104000;
  cr3 = 0;
}

abbrev some_machine : Machine ℕ
some_machine = record {
  world = 0;
  console = record { screen_buffer = λ _. 0; screen_x = 0; screen_y = 0; ports = [] };
  segments = some_segments;
  idt = record {
    idt_entries = cleared_entries;
    idt_ptr = record { limit = 0; offset = 0 };
    entries_address = 0x7000;
  };
  loaded_idt = none;
  interrupts_on = false;
  irq_routines = some on_irq0 ∷ replicate 15 none;
  paging = some_tables;
  caps_on = false;
  ticks = 7;
}

-- The port 0x21 answers the master's mask, the others their own number.
abbrev some_devices : Devices ℕ
some_devices = record { read_port = λ port ports w. (port, w + 1) }

-- The vectors' routines, 16 bytes apart.
abbrev some_stub : ℕ → ℕ
some_stub n = 0xffffffffc0010000 + n % 256 * 16

abbrev registers_of : ℕ → InterruptRegisters
registers_of n = record {
  rdx = 0;
  rcx = 0;
  rbx = 0;
  rax = 0;
  int_no = n;
  err_no = 0;
  rip = 0;
  cs = 8;
  rflags = 0;
  rsp = 0;
  ss = 16;
}

set_gdt_gate-descriptor_example :
    (s' : Segments) × (set_gdt_gate 2 0x12345678 0xABCDE 0x92 0xCF some_segments ≡ some s')
    × (map_option descriptor (get_elem? s'.gdt_entries 2)
        ≡ some (record { base = 0x12345678; limit = 0xABCDE; access = 0x92; flags = 0xC }))
    × (get_elem? s'.gdt_entries 3 ≡ some no_segment)
set_gdt_gate-descriptor_example =
    set_gdt_gate-descriptor some_segments 2 0x12345678 0xABCDE 0x92 0xCF 3 refl (omega arith)
      (omega arith) (omega arith) (omega arith)

init_idt-gates_example :
    (m' : Machine ℕ) × (init_idt some_devices some_stub some_machine ≡ some (tt, m'))
    × (m'.interrupts_on ≡ true)
    × (m'.loaded_idt ≡ some (record { limit = 4095; offset = 0x7000 }))
    × (map_option gate (get_elem? m'.idt.idt_entries 33) ≡ some (gate_of some_stub 33))
    × (m'.console.ports ≡ pic_writes some_stub some_devices some_machine ++ [])
init_idt-gates_example =
    init_idt-gates some_stub some_devices some_machine 33 (omega arith) (λ k. omega arith)

irq_handler-served_example :
    (m' : Machine ℕ) × (apply_all (installs 9 keyboard_handler ∷ uninstalls 0 ∷ []) some_machine
      ≡ some (tt, m'))
    × (irq_handler (call_routine some_devices) (registers_of 41) m'
        ≡ served (call_routine some_devices) (some keyboard_handler) 9 (registers_of 41) m')
irq_handler-served_example =
    irq_handler-served (call_routine some_devices) (installs 9 keyboard_handler ∷ uninstalls 0 ∷ [])
      some_machine 9 (registers_of 41) (omega arith) refl (omega arith) refl

-- Shift goes down, `a` goes down and up, Shift goes up, `1` goes down.
abbrev some_keys : List KeyEvent
some_keys = (0x2A, true) ∷ (0x1E, true) ∷ (0x1E, false) ∷ (0x2A, false) ∷ (0x02, true) ∷ []

press_all-typed_example :
    press_all some_keys some_machine ≡ some (tt, typed false (b'A' ∷ b'1' ∷ []) some_machine)
press_all-typed_example = press_all-typed some_keys some_machine refl

key-departs_example :
    (text : List ℕ) × (key 0x1A true (record some_machine { caps_on = true })
      ≡ some (tt, typed true text (record some_machine { caps_on = true })))
    × (text ≢ us_text true 0x1A)
key-departs_example = key-departs 0x1A (record some_machine { caps_on = true }) (omega arith) refl

init_pit-reload_example :
    (m' : Machine ℕ) × (low : ℕ) × (high : ℕ) × (init_pit some_machine ≡ some (tt, m'))
    × (m'.console.ports ≡ (0x40, high) ∷ (0x40, low) ∷ (0x43, 0x36) ∷ [])
    × (low + high * 2 ^ 8 ≡ 53602)
    × (low + high * 2 ^ 8 ≢ 1191380 / 10)
    × (m'.irq_routines ≡ some on_irq0 ∷ replicate 15 none)
    × (m'.ticks ≡ 0)
init_pit-reload_example = init_pit-reload some_machine

some_tables-Placed : Placed some_tables
unfolding get_address
some_tables-Placed = record {
  pml4_aligned = (omega arith, omega arith, refl);
  page_dir_tab_aligned = (omega arith, omega arith, refl);
  base_page_dir_aligned = (omega arith, omega arith, refl);
  kernel_page_dir_aligned = (omega arith, omega arith, refl);
  pml4_apart₁ = omega arith;
  pml4_apart₂ = omega arith;
  pml4_apart₃ = omega arith;
  page_dir_tab_apart₂ = omega arith;
  page_dir_tab_apart₃ = omega arith;
  base_page_dir_apart = omega arith;
}

walk-fill_tables_example :
    (walk (fill_tables some_tables) (0xffffffffc0000000 + 0x234567) ≡ some 0x234567)
    × (walk (fill_tables some_tables) (0x234567 % 2 ^ 21) ≡ some (0x234567 % 2 ^ 21))
walk-fill_tables_example = walk-fill_tables some_tables some_tables-Placed 0x234567 (omega arith)

interrupted-ticks_example :
    (m' : Machine ℕ) × (interrupted some_devices 3 (registers_of 32) some_machine ≡ some (tt, m'))
    × (m'.ticks ≡ 10)
interrupted-ticks_example =
    interrupted-ticks some_devices 3 (registers_of 32) some_machine refl refl (omega arith)

main-waits_example :
    (m' : Machine ℕ) × (main some_devices some_stub
        (record { region_count = 2; boot_device = 0 })
        (record some_machine {
          segments =
              six_entries some_devices some_stub
                (record { region_count = 2; boot_device = 0 })
                some_machine
                no_segment
                no_segment
                no_segment
                no_segment
                no_segment
                no_segment;
        })
      ≡ some (tt, m'))
    × (m'.interrupts_on ≡ true)
    × (m'.segments.loaded ≡ some (record { limit = 47; base = 0x5000 }))
    × (m'.loaded_idt ≡ some (record { limit = 4095; offset = 0x7000 }))
    × (m'.paging ≡ fill_tables some_tables)
    × (m'.irq_routines ≡ some on_irq0 ∷ some keyboard_handler ∷ replicate 14 none)
    × (m'.caps_on ≡ false)
main-waits_example =
    main-waits some_devices some_stub (record { region_count = 2; boot_device = 0 }) some_machine
      no_segment no_segment no_segment no_segment no_segment no_segment
