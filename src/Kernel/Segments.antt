-- ===== src/Kernel/Segments.antt =====
-- src/kernel/x86/gdt.c and gdt.h: the segment descriptors of the kernel
pub mod Descriptors
use netclover.Prelude.{
  ℕ, ◌+◌, ◌-◌, ◌*◌, ◌/◌, ◌%◌, ◌^◌, Option, none, some, List, set, length, bit_and, bit_or, u8, u16,
  u32, leb, if◌then◌else◌, ◌>>=◌,
}

-- `struct gdt_entry_struct`
pub record GdtEntry : Type 0 where
  pub limit : ℕ
  pub base_low : ℕ
  pub base_mid : ℕ
  pub access : ℕ
  pub flags : ℕ
  pub base_high : ℕ

-- `struct gdt_ptr_struct`
pub record GdtPtr : Type 0 where
  pub limit : ℕ
  pub base : ℕ

-- `struct tss_entry_struct`
pub record TssEntry : Type 0 where
  pub link : ℕ
  pub esp0 : ℕ
  pub ss0 : ℕ
  pub esp1 : ℕ
  pub ss1 : ℕ
  pub esp2 : ℕ
  pub ss2 : ℕ
  pub cr3 : ℕ
  pub eip : ℕ
  pub eflags : ℕ
  pub eax : ℕ
  pub ecx : ℕ
  pub edx : ℕ
  pub ebx : ℕ
  pub esp : ℕ
  pub ebp : ℕ
  pub esi : ℕ
  pub edi : ℕ
  pub es : ℕ
  pub cs : ℕ
  pub ss : ℕ
  pub ds : ℕ
  pub fs : ℕ
  pub gs : ℕ
  pub ldtr : ℕ
  pub iopb : ℕ
  pub ssp : ℕ

-- 27 words of 4 bytes, packed.
abbrev pub tss_entry_size : ℕ
tss_entry_size = 108

-- `memset(&tss_entry, 0, sizeof(tss_entry))`
abbrev pub cleared_tss : TssEntry
cleared_tss = record {
  link = 0;
  esp0 = 0;
  ss0 = 0;
  esp1 = 0;
  ss1 = 0;
  esp2 = 0;
  ss2 = 0;
  cr3 = 0;
  eip = 0;
  eflags = 0;
  eax = 0;
  ecx = 0;
  edx = 0;
  ebx = 0;
  esp = 0;
  ebp = 0;
  esi = 0;
  edi = 0;
  es = 0;
  cs = 0;
  ss = 0;
  ds = 0;
  fs = 0;
  gs = 0;
  ldtr = 0;
  iopb = 0;
  ssp = 0;
}

-- The variables of the file, and the addresses of two of them.
pub record Segments : Type 0 where
  pub gdt_entries : List GdtEntry
  pub gdt_ptr : GdtPtr
  pub tss_entry : TssEntry
  pub entries_address : ℕ
  pub tss_address : ℕ
  -- What `gdt_flush` gave the processor.
  pub loaded : Option GdtPtr

-- The access byte of a descriptor.
abbrev pub present : ℕ
present = 0x80

abbrev pub ring0 : ℕ
ring0 = 0x00

abbrev pub ring3 : ℕ
ring3 = 0x60

abbrev pub access_type : ℕ
access_type = 0x10

abbrev pub exec : ℕ
exec = 0x08

abbrev pub access_rw : ℕ
access_rw = 0x02

abbrev pub acc : ℕ
acc = 0x01

abbrev pub total_entries : ℕ
total_entries = 6

abbrev pub gdt_entry : ℕ → ℕ → ℕ → ℕ → GdtEntry
gdt_entry base limit access granularity = record {
  base_low = u16 (bit_and base 0xFFFF);
  base_mid = u8 (bit_and (base / 2 ^ 16) 0xFF);
  base_high = u8 (bit_and (base / 2 ^ 24) 0xFF);
  limit = u16 (bit_and limit 0xFFFF);
  flags = u8 (bit_or (u8 (bit_and (limit / 2 ^ 16) 0x0F)) (bit_and granularity 0xF0));
  access = access;
}

-- Undefined where the number is past the table.
pub set_gdt_gate : ℕ → ℕ → ℕ → ℕ → ℕ → Segments → Option Segments
set_gdt_gate n base limit access granularity s =
    if leb total_entries n
    then none
    else some
        (record s { gdt_entries = set s.gdt_entries n (gdt_entry base limit access granularity) })

pub gdt_flush : Segments → Segments
gdt_flush s = record s { loaded = some s.gdt_ptr }

abbrev all_memory : ℕ
all_memory = 0xFFFFFFFF

pub init_gdt : Segments → Option Segments
unfolding set_gdt_gate gdt_flush
init_gdt s₀ = do
  let s = record s₀ {
    gdt_ptr = record { limit = 8 * total_entries - 1; base = s₀.entries_address };
  }
  s₁ ← set_gdt_gate 0 0 0 0 0 s
  s₂ ←
      set_gdt_gate 1 0 all_memory
        (bit_or (bit_or (bit_or (bit_or present ring0) access_type) exec) access_rw) 0xAF s₁
  s₃ ←
      set_gdt_gate 2 0 all_memory (bit_or (bit_or (bit_or present ring0) access_type) access_rw)
        0xAF s₂
  s₄ ←
      set_gdt_gate 3 0 all_memory
        (bit_or (bit_or (bit_or (bit_or present ring3) access_type) exec) access_rw) 0xAF s₃
  s₅ ←
      set_gdt_gate 4 0 all_memory (bit_or (bit_or (bit_or present ring3) access_type) access_rw)
        0xAF s₄
  some (gdt_flush s₅)

abbrev pub filled_tss : ℕ → ℕ → TssEntry
filled_tss ss0 esp0 = record cleared_tss {
  ss0 = ss0;
  esp0 = esp0;
  cs = bit_or 0x08 0x3;
  ss = bit_or 0x10 0x3;
  ds = bit_or 0x10 0x3;
  es = bit_or 0x10 0x3;
  fs = bit_or 0x10 0x3;
  gs = bit_or 0x10 0x3;
}

pub write_tss : ℕ → ℕ → ℕ → Segments → Option Segments
unfolding set_gdt_gate
write_tss n ss0 esp0 s = do
  let base = u32 s.tss_address
  let limit = u32 (base + tss_entry_size)
  s' ← set_gdt_gate n base limit (bit_or (bit_or (bit_or present ring3) exec) acc) 0x00 s
  some (record s' { tss_entry = filled_tss ss0 esp0 })
