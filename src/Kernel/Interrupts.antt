-- ===== src/Kernel/Interrupts.antt =====
-- src/kernel/x86/idt.c: the setting up of interrupts, and their handlers
pub mod Vectors
pub mod Setup
pub mod Dispatch
use netclover.Prelude.{
  ℕ, zero, suc, ◌+◌, ◌-◌, ◌*◌, ◌/◌, ◌%◌, ◌^◌, Bool, true, false, Option, none, some, List, [], ◌∷◌,
  ◌++◌, set, get_elem?, replicate, codes, literal, ltb, leb, u8, u32, u64, if◌then◌else◌,
}
use netclover.Prelude.Steps.{Step, pure, fault, ◌>>=◌, ◌>>◌}
use netclover.Libc.Console.{Console, x86_64}
use netclover.Libc.Printf.{Slot, num, ptr, printf}
use netclover.Kernel.Gates.{
  InterruptRegisters, IdtEntry, cleared_entries, idt_entry_size, total_entries, attribute_interrupt,
  set_idt_gate,
}
use netclover.Kernel.Machine.{Routine, Machine, Devices, inb, write_port, on_screen}

abbrev pub master_comms : ℕ
master_comms = 0x20

abbrev pub slave_comms : ℕ
slave_comms = 0xA0

abbrev pub master_data : ℕ
master_data = 0x21

abbrev pub slave_data : ℕ
slave_data = 0xA1

-- The gates that `initIDT` sets, in its order: the exceptions, the IRQs and the system calls.
abbrev pub exceptions : List ℕ
exceptions =
    0 ∷ 1 ∷ 2 ∷ 3 ∷ 4 ∷ 5 ∷ 6 ∷ 7 ∷ 8 ∷ 9 ∷ 10 ∷ 11 ∷ 12 ∷ 13 ∷ 14 ∷ 15 ∷ 16 ∷ 17 ∷ 18 ∷ 19 ∷ 20
    ∷ 21 ∷ 22 ∷ 23 ∷ 24 ∷ 25 ∷ 26 ∷ 27 ∷ 28 ∷ 29 ∷ 30 ∷ 31 ∷ []

abbrev pub irqs : List ℕ
irqs = 32 ∷ 33 ∷ 34 ∷ 35 ∷ 36 ∷ 37 ∷ 38 ∷ 39 ∷ 40 ∷ 41 ∷ 42 ∷ 43 ∷ 44 ∷ 45 ∷ 46 ∷ 47 ∷ []

abbrev pub system_calls : List ℕ
system_calls = 127 ∷ 128 ∷ []

-- The texts of `exception_messages`.
abbrev pub exception_messages : List (List ℕ)
exception_messages =
    codes "Division By Zero"
    ∷ codes "Debug"
    ∷ codes "Non Maskable Interrupt"
    ∷ codes "Breakpoint"
    ∷ codes "Into Detected Overflow"
    ∷ codes "Out of Bounds"
    ∷ codes "Invalid Opcode"
    ∷ codes "No x87 Coprocessor"
    ∷ codes "Double fault"
    ∷ codes "Coprocessor Segment Overrun"
    ∷ codes "Bad TSS"
    ∷ codes "Segment not present"
    ∷ codes "Stack fault"
    ∷ codes "General protection fault"
    ∷ codes "Page fault"
    ∷ codes "Reserved"
    ∷ codes "x87 Floating-Point Exception"
    ∷ codes "Alignment Fault"
    ∷ codes "Machine Check"
    ∷ codes "SIMD Floating-Point Exception"
    ∷ codes "Virtualization"
    ∷ codes "Control Protection Exception"
    ∷ codes "Reserved"
    ∷ codes "Reserved"
    ∷ codes "Reserved"
    ∷ codes "Reserved"
    ∷ codes "Reserved"
    ∷ codes "Reserved"
    ∷ codes "Hypervisor Injection Exception"
    ∷ codes "VMM Communication Exception"
    ∷ codes "Security Exception"
    ∷ codes "Reserved"
    ∷ []

module _ {W : Type 0} where
  -- `setIDTGate(n, isr<n>, 0x08, IDT_ATTRIBUTE_INTERRUPT)` for each number of the list.
  pub set_gates : (ℕ → ℕ) → List ℕ → Step (Machine W) (Unit {0})
  set_gates stub [] m = some (tt, m)
  set_gates stub (n ∷ ns) m =
      set_gates stub ns (record m { idt = set_idt_gate n (stub n) 0x08 attribute_interrupt m.idt })

  -- The start of `initIDT`: the pointer and the empty table.
  pub clear_idt : Step (Machine W) (Unit {0})
  clear_idt m = some (
    tt,
    record m {
      idt = record m.idt {
        idt_ptr = record {
          limit = idt_entry_size * total_entries - 1;
          offset = u64 m.idt.entries_address;
        };
        idt_entries = cleared_entries;
      };
    },
  )

  -- `lidt` and `sti`.
  pub load_idt : Step (Machine W) (Unit {0})
  load_idt m = some (tt, record m { loaded_idt = some m.idt.idt_ptr; interrupts_on = true })

  -- The vectors of the controllers, between the reads of the masks and the gates.
  pub init_pic : ℕ → ℕ → Step (Machine W) (Unit {0})
  init_pic mask_m mask_s = do
    write_port master_comms 0x11
    write_port slave_comms 0x11
    write_port master_data 0x20
    write_port slave_data 0x28
    write_port master_data 0x04
    write_port slave_data 0x02
    write_port master_data 0x01
    write_port slave_data 0x01
    write_port master_data mask_m
    write_port slave_data mask_s

  -- `stub n` is the address of the routine of idt.asm for vector `n`.
  pub init_idt : Devices W → (ℕ → ℕ) → Step (Machine W) (Unit {0})
  init_idt devices stub = do
    clear_idt
    mask_m ← inb devices master_data
    mask_s ← inb devices master_data
    init_pic mask_m mask_s
    set_gates stub exceptions
    set_gates stub irqs
    set_gates stub system_calls
    load_idt

  pub print_register : List ℕ → ℕ → Step (Machine W) (Unit {0})
  print_register format value = on_screen (printf x86_64 format (num value ∷ []))

  pub print_exception : Option (List ℕ) → InterruptRegisters → Step (Machine W) (Unit {0})
  print_exception none regs = fault
  print_exception (some message) regs = do
    on_screen (
        printf x86_64 (literal (codes "\nInterrupt! \"%s\" err: 0x%x\n"))
          (ptr (literal message) ∷ num regs.err_no ∷ []))
    print_register (literal (codes "RAX: 0x%x\n")) regs.rax
    print_register (literal (codes "RBX: 0x%x\n")) regs.rbx
    print_register (literal (codes "RCX: 0x%x\n")) regs.rcx
    print_register (literal (codes "RDX: 0x%x\n")) regs.rdx
    print_register (literal (codes "RIP: 0x%x\n")) regs.rip

  -- The registers are given back as they are.
  pub isr_handler : InterruptRegisters → Step (Machine W) (Unit {0})
  isr_handler regs =
      if ltb regs.int_no 32
      then print_exception (get_elem? exception_messages regs.int_no) regs
      else pure tt

  -- An int that is negative is no index either; undefined outside the table.
  unfoldable pub irq_install_handler : ℕ → Routine → Step (Machine W) (Unit {0})
  irq_install_handler irq handler m =
      if ltb irq 16
      then some (tt, record m { irq_routines = set m.irq_routines irq (some handler) })
      else none

  pub irq_uninstall_handler : ℕ → Step (Machine W) (Unit {0})
  irq_uninstall_handler irq m =
      if ltb irq 16
      then some (tt, record m { irq_routines = set m.irq_routines irq none })
      else none

  -- The end of `irq_handler`.
  pub end_of_interrupt : ℕ → Step (Machine W) (Unit {0})
  end_of_interrupt n = do
    (if leb 40 n then write_port slave_comms 0x20 else pure tt)
    write_port master_comms 0x20

  pub now_routine : ℕ → Step (Machine W) (Option Routine)
  now_routine index m = elim (get_elem? m.irq_routines index) [
    | none ↦ none
    | some handler ↦ some (handler, m)
  ]

  module _ (call : Routine → InterruptRegisters → Step (Machine W) (Unit {0})) where
    -- `call` runs a routine that is installed.
    abbrev pub run_routine : Option Routine → InterruptRegisters → Step (Machine W) (Unit {0})
    run_routine none regs = pure tt
    run_routine (some routine) regs = call routine regs

    -- Undefined for a vector outside the IRQs: the index is one of 64 bits.
    pub irq_handler : InterruptRegisters → Step (Machine W) (Unit {0})
    irq_handler regs = do
      handler ← now_routine (u64 (regs.int_no + 2 ^ 64 - 32))
      run_routine handler regs
      end_of_interrupt regs.int_no
