-- ===== src/Kernel/Gates.antt =====
-- src/kernel/x86/idt.h, and from idt.c the table of interrupt gates
use netclover.Prelude.{
  ℕ, ◌+◌, ◌*◌, ◌/◌, ◌^◌, ◌<◌, ◌≡◌, arith, List, set, replicate, bit_and, u8, u16, u32, u64,
}
use netclover.Prelude.Bits.{bit_and-low}

-- `struct idt_entry_struct`
pub record IdtEntry : Type 0 where
  pub offset_low : ℕ
  pub selector : ℕ
  pub ist : ℕ
  pub attributes : ℕ
  pub offset_mid : ℕ
  pub offset_high : ℕ
  pub reserved : ℕ

-- `struct idt_ptr_struct`
pub record IdtPtr : Type 0 where
  pub limit : ℕ
  pub offset : ℕ

-- `struct InterruptRegisters`
pub record InterruptRegisters : Type 0 where
  pub rdx : ℕ
  pub rcx : ℕ
  pub rbx : ℕ
  pub rax : ℕ
  pub int_no : ℕ
  pub err_no : ℕ
  pub rip : ℕ
  pub cs : ℕ
  pub rflags : ℕ
  pub rsp : ℕ
  pub ss : ℕ

abbrev pub total_entries : ℕ
total_entries = 256

-- 16 bytes, packed.
abbrev pub idt_entry_size : ℕ
idt_entry_size = 16

abbrev pub attribute_interrupt : ℕ
attribute_interrupt = 0x8E

-- The variables of the file, and the address of one of them.
pub record Idt : Type 0 where
  pub idt_entries : List IdtEntry
  pub idt_ptr : IdtPtr
  pub entries_address : ℕ

abbrev pub cleared_entry : IdtEntry
cleared_entry = record {
  offset_low = 0;
  selector = 0;
  ist = 0;
  attributes = 0;
  offset_mid = 0;
  offset_high = 0;
  reserved = 0;
}

abbrev pub cleared_entries : List IdtEntry
cleared_entries = replicate total_entries cleared_entry

-- The gate that stands in the table behind the call.
abbrev pub idt_entry : ℕ → ℕ → ℕ → IdtEntry
idt_entry offset selector attributes = record {
  offset_low = u16 (bit_and offset 0xFFFF);
  offset_mid = u16 (offset / 2 ^ 16);
  offset_high = u32 (offset / 2 ^ 32);
  ist = 0;
  selector = selector;
  reserved = 0;
  attributes = attributes;
}

-- The number is a `uint8_t`, so that it is always inside the table.
unfoldable pub set_idt_gate : ℕ → ℕ → ℕ → ℕ → Idt → Idt
set_idt_gate n void_offset selector attributes s = record s {
  idt_entries = set s.idt_entries (u8 n) (idt_entry (u64 void_offset) selector attributes);
}

-- A gate by the processor's manual.
pub record Gate : Type 0 where
  pub offset : ℕ
  pub selector : ℕ
  pub ist : ℕ
  pub attributes : ℕ

abbrev pub gate : IdtEntry → Gate
gate e = record {
  offset = e.offset_low + e.offset_mid * 2 ^ 16 + e.offset_high * 2 ^ 32;
  selector = e.selector;
  ist = e.ist;
  attributes = e.attributes;
}

-- The handler's whole address of 64 bits is read back from the three parts of the gate.
pub gate-idt_entry :
    (offset selector attributes : ℕ)
    → offset < 2 ^ 64
    → gate (idt_entry offset selector attributes)
      ≡ record { offset = offset; selector = selector; ist = 0; attributes = attributes }
gate-idt_entry offset selector attributes small =
    let low = bit_and-low 16 offset in
    let whole : (gate (idt_entry offset selector attributes)).offset ≡ offset =
      omega (arith, low) in
    λ i. record { offset = whole i; selector = selector; ist = 0; attributes = attributes }
