-- ===== src/Kernel/Main/Start.antt =====
-- `main` reaches the loop in which the kernel waits for interrupts.
use netclover.Prelude.{
  ℕ, ◌^◌, ◌≡◌, refl, ap, arith, true, false, Option, none, some, [], ◌∷◌, codes, set, u8, u64, ltb,
  if◌then◌else◌,
}
use mathlib.Core.Option.{map as map_option}
use netclover.Prelude.Steps.{◌>>=◌}
use netclover.Libc.Console.{clrscr, putc_all, x86_64}
use netclover.Kernel.Segments.{GdtEntry, Segments, init_gdt}
use netclover.Kernel.Segments.Descriptors.{
  none_there, flat, descriptor, seen_by_processor, init_gdt-descriptors,
}
use netclover.Kernel.Machine.{Machine, Devices, keyboard_handler, with_console, on_screen}
use netclover.Kernel.Interrupts.{irq_install_handler}
use netclover.Kernel.Interrupts.Setup.{ready, init_idt-ready}
use netclover.Kernel.Keyboard.{init_keyboard}
use netclover.Kernel.Paging.{fill_tables, init_paging}
use netclover.Kernel.Main.{BootParams, main, start_segments}
use netclover.Kernel.Main.Prints.{printf-hex, printf-count, printf-hello}
use netclover.Kernel.Main.Running.{mark_regions-marked}

map_option-some :
    {A B : Type 0} (f : A → B) (o : Option A) (b : B)
    → map_option f o ≡ some b
    → (a : A) × (o ≡ some a) × (f a ≡ b)
map_option-some f none b e = absurd (ground arith)
map_option-some f (some a) b e = (a, refl, ground arith)

module _ {W : Type 0} (devices : Devices W) (stub : ℕ → ℕ) (params : BootParams) (m : Machine W)
    (e₀ e₁ e₂ e₃ e₄ e₅ : GdtEntry) where
  abbrev pub six_entries : Segments
  six_entries = record m.segments { gdt_entries = e₀ ∷ e₁ ∷ e₂ ∷ e₃ ∷ e₄ ∷ e₅ ∷ [] }

  -- With a table of six segments, `main` reaches the loop in which it waits, whatever the devices answer,
  -- the vectors' routines and the boot parameters. Interrupts are on then, the processor has the
  -- tables of the segments and of the gates, with the offsets of their last bytes, the page tables
  -- are those of `initPaging`, and the keyboard's routine, with Shift up, is that of IRQ 1.
  pub main-waits :
      (m' : Machine W) × (main devices stub params (record m { segments = six_entries })
        ≡ some (tt, m'))
      × (m'.interrupts_on ≡ true)
      × (m'.segments.loaded ≡ some (record { limit = 47; base = m.segments.entries_address }))
      × (m'.loaded_idt ≡ some (record { limit = 4095; offset = u64 m.idt.entries_address }))
      × (m'.paging ≡ fill_tables m.paging)
      × (m'.irq_routines ≡ set m.irq_routines 1 (some keyboard_handler))
      × (m'.caps_on ≡ false)
  unfolding main start_segments init_paging init_keyboard irq_install_handler on_screen
  main-waits =
      let (s, gdt, seen) =
        map_option-some seen_by_processor (init_gdt six_entries)
          (
            some (record { limit = 47; base = m.segments.entries_address }),
            none_there ∷ flat 0x9A ∷ flat 0x92 ∷ flat 0xFA ∷ flat 0xF2 ∷ descriptor e₅ ∷ [],
          )
          (init_gdt-descriptors m.segments e₀ e₁ e₂ e₃ e₄ e₅) in
      let m₂ = record m { segments = s; console = clrscr x86_64 m.console } in
      let m₃ = ready stub devices m₂ in
      let m₄ = record m₃ { paging = fill_tables m.paging } in
      let (c₅, hex) = printf-hex (u8 params.boot_device) m₄.console in
      let (c₆, count) = printf-count params.region_count c₅ in
      let rounds = if ltb params.region_count (2 ^ 31) then params.region_count else 0 in
      let (c₇, marked) = mark_regions-marked devices rounds (with_console c₆ m₄) in
      let hello = printf-hello c₇ in
      let c₈ = putc_all x86_64 (codes "Hello world from the kernel!\n") c₇ in
      (
        record m₄ {
          console = c₈;
          caps_on = false;
          irq_routines = set m.irq_routines 1 (some keyboard_handler);
        },
        rw (main, ◌>>=◌, gdt, init_idt-ready stub devices m₂, hex, count, marked, hello) refl,
        refl,
        ap (λ v. v.0) seen,
        refl,
        refl,
        refl,
        refl,
      )
