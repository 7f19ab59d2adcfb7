-- ===== src/Kernel/Interrupts/Setup.antt =====
-- What `initIDT` leaves for the processor and for the interrupt controllers.
use netclover.Prelude.{
  ℕ, ◌^◌, ◌<◌, ◌≡◌, ◌∙◌, refl, ap, arith, true, some, List, [], ◌∷◌, ◌++◌, inl, inr, ◌≢◌, get_elem?,
  length, length-replicate, length-set, get_elem?-set_self, get_elem?-set_ne, Bool-cases, ◌==◌,
  if◌then◌else◌, u8, u64, All,
}
use mathlib.Core.Option.{map as map_option}
use netclover.Prelude.Steps.{◌>>=◌}
use netclover.Libc.Console.{outb}
use netclover.Kernel.Gates.{
  Idt, IdtEntry, Gate, gate, gate-idt_entry, idt_entry, cleared_entry, cleared_entries,
  set_idt_gate, attribute_interrupt,
}
use netclover.Kernel.Machine.{Machine, Devices, inb, write_port}
use netclover.Kernel.Interrupts.Vectors.{
  is_one_of, has_gate, vectors, all_below, All-all_below, get_elem?-replicate, is_one_of-vectors,
  picked,
}
use netclover.Kernel.Interrupts.{
  exceptions, irqs, system_calls, set_gates, clear_idt, init_pic, load_idt, init_idt,
}

-- The vectors of the controllers and how they are wired, the last write first.
abbrev pub pic_start : List (ℕ × ℕ)
pic_start =
    (0xA1, 0x01)
    ∷ (0x21, 0x01)
    ∷ (0xA1, 0x02)
    ∷ (0x21, 0x04)
    ∷ (0xA1, 0x28)
    ∷ (0x21, 0x20)
    ∷ (0xA0, 0x11)
    ∷ (0x20, 0x11)
    ∷ []

module _ (stub : ℕ → ℕ) where
  abbrev entry_for : ℕ → IdtEntry
  entry_for n = idt_entry (u64 (stub n)) 0x08 attribute_interrupt

  abbrev gates_over : List ℕ → Idt → Idt
  gates_over [] s = s
  gates_over (n ∷ ns) s = gates_over ns (set_idt_gate n (stub n) 0x08 attribute_interrupt s)

  get_elem?-set_idt_gate :
      (s : Idt) (k n : ℕ)
      → k < 256
      → length s.idt_entries ≡ 256
      → get_elem? (set_idt_gate k (stub k) 0x08 attribute_interrupt s).idt_entries n
        ≡ (if k == n then some (entry_for n) else get_elem? s.idt_entries n)
  unfolding set_idt_gate
  get_elem?-set_idt_gate s k n low full =
      let byte : u8 k ≡ k = omega arith in
      elim (Bool-cases (k == n)) [
        | inl same ↦
            let e : k ≡ n = ground arith in
            rw (same, byte, e) (get_elem?-set_self s.idt_entries n (entry_for n) (omega arith))
        | inr differ ↦
            let ne : k ≢ n = ground arith in
            rw (differ, byte) (get_elem?-set_ne s.idt_entries (entry_for k) ne)
      ]

  -- The gates that a list of vectors sets, and the ones that it leaves.
  get_elem?-gates_over :
      (ns : List ℕ) (s : Idt) (n : ℕ)
      → All (λ k. k < 256) ns
      → length s.idt_entries ≡ 256
      → get_elem? (gates_over ns s).idt_entries n
        ≡ (if is_one_of n ns then some (entry_for n) else get_elem? s.idt_entries n)
  unfolding set_idt_gate
  get_elem?-gates_over [] s n _ full = refl
  get_elem?-gates_over (k ∷ ns) s n (low, lows) full =
      let s' = set_idt_gate k (stub k) 0x08 attribute_interrupt s in
      let full' : length s'.idt_entries ≡ 256 =
        length-set s.idt_entries (u8 k) (entry_for k) ∙ full in
      let first = get_elem?-set_idt_gate s k n low full in
      let others = get_elem?-gates_over ns s' n lows full' in ground (arith, first, others)

  set_gates-gates_over :
      {W : Type 0} (ns : List ℕ) (m : Machine W)
      → set_gates stub ns m ≡ some (tt, record m { idt = gates_over ns m.idt })
  unfolding set_gates
  set_gates-gates_over [] m = refl
  set_gates-gates_over (n ∷ ns) m =
      set_gates-gates_over ns
        (record m { idt = set_idt_gate n (stub n) 0x08 attribute_interrupt m.idt })

  -- What the processor is meant to read for a vector.
  abbrev pub gate_of : ℕ → Gate
  gate_of n =
      if has_gate n
      then record { offset = stub n; selector = 0x08; ist = 0; attributes = 0x8E }
      else record { offset = 0; selector = 0; ist = 0; attributes = 0 }

  gate_there :
      (n : ℕ)
      → stub n < 2 ^ 64
      → map_option gate (some (if has_gate n then entry_for n else cleared_entry))
        ≡ some (gate_of n)
  gate_there n small = elim (Bool-cases (has_gate n)) [
    | inl set_there ↦ rw set_there (ap some whole)
    | inr not_set ↦ rw not_set refl
  ]
    where
      same : u64 (stub n) ≡ stub n
      same = omega arith

      whole :
          gate (entry_for n)
          ≡ record { offset = stub n; selector = 0x08; ist = 0; attributes = 0x8E }
      whole = rw same (gate-idt_entry (stub n) 0x08 attribute_interrupt small)

  abbrev all_gates : Idt → Idt
  all_gates s = gates_over system_calls (gates_over irqs (gates_over exceptions s))

  abbrev emptied : Idt → Idt
  emptied s = record s {
    idt_ptr = record { limit = 4095; offset = u64 s.entries_address };
    idt_entries = cleared_entries;
  }

  module _ {W : Type 0} (devices : Devices W) (m : Machine W) where
    -- The answers to the two reads of the masks.
    abbrev pub first_answer : ℕ × W
    first_answer = devices.read_port 0x21 m.console.ports m.world

    abbrev pub second_answer : ℕ × W
    second_answer = devices.read_port 0x21 m.console.ports first_answer.1

    abbrev pub pic_writes : List (ℕ × ℕ)
    pic_writes = (0xA1, u8 second_answer.0) ∷ (0x21, u8 first_answer.0) ∷ pic_start

    abbrev pub ready : Machine W
    ready = record m {
      world = second_answer.1;
      console = record m.console { ports = pic_writes ++ m.console.ports };
      idt = all_gates (emptied m.idt);
      loaded_idt = some (record { limit = 4095; offset = u64 m.idt.entries_address });
      interrupts_on = true;
    }

    with_pic : Machine W
    with_pic = record m {
      world = second_answer.1;
      console = record m.console { ports = pic_writes ++ m.console.ports };
      idt = emptied m.idt;
    }

    pub init_idt-ready : init_idt devices stub m ≡ some (tt, ready)
    unfolding init_idt clear_idt inb init_pic load_idt with_pic write_port outb set_idt_gate
    init_idt-ready =
        rw
          (
            ◌>>=◌,
            set_gates-gates_over exceptions with_pic,
            set_gates-gates_over irqs
                (record with_pic { idt = gates_over exceptions (emptied m.idt) }),
            set_gates-gates_over system_calls
                (record with_pic { idt = gates_over irqs (gates_over exceptions (emptied m.idt)) }),
          )
          refl

    entries_listed :
        (n : ℕ)
        → n < 256
        → get_elem? ready.idt.idt_entries n
          ≡ some (if has_gate n then entry_for n else cleared_entry)
    unfolding all_below
    entries_listed n small =
        let found =
          get_elem?-gates_over vectors (emptied m.idt) n (All-all_below 256 vectors refl)
            (length-replicate 256 cleared_entry) in
        let empty = get_elem?-replicate 256 n cleared_entry small in
        let in_list = is_one_of-vectors n small in
        found ∙ picked (is_one_of n vectors) (has_gate n) (entry_for n) cleared_entry in_list empty

    -- Behind `initIDT` interrupts are on, and the processor has the address of the table and the offset
    -- of its last byte. For every vector below 256, it reads in the table a present interrupt gate of
    -- the kernel's code segment to the vector's routine, with its whole address, if the vector is an
    -- exception, an IRQ or a system call, and an empty gate otherwise. The controllers were told the
    -- vectors 32 and 40, in the order that they ask for, and last two masks: the two answers of the
    -- port 0x21, the second one for the slave.
    pub init_idt-gates :
        (n : ℕ)
        → n < 256
        → ((k : ℕ) → stub k < 2 ^ 64)
        → (m' : Machine W) × (init_idt devices stub m ≡ some (tt, m'))
          × (m'.interrupts_on ≡ true)
          × (m'.loaded_idt ≡ some (record { limit = 4095; offset = u64 m.idt.entries_address }))
          × (map_option gate (get_elem? m'.idt.idt_entries n) ≡ some (gate_of n))
          × (m'.console.ports ≡ pic_writes ++ m.console.ports)
    init_idt-gates n small addresses = (
      ready,
      init_idt-ready,
      refl,
      refl,
      ap (map_option gate) (entries_listed n small) ∙ gate_there n (addresses n),
      refl,
    )
