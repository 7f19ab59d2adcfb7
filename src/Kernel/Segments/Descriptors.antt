-- ===== src/Kernel/Segments/Descriptors.antt =====
-- What the processor reads in the descriptors that `setGDTGate` writes.
use netclover.Prelude.{
  ℕ, suc, ◌+◌, ◌-◌, ◌*◌, ◌/◌, ◌%◌, ◌^◌, ◌<◌, ◌≡◌, ◌↔◌, ◌∙◌, refl, sym, ap, arith, Bool, false,
  Option, some, List, [], ◌∷◌, get_elem?, length, set, map, get_elem?-set_self, get_elem?-set_ne,
  bit_and, bit_or, u32, leb, ◌==◌, ◌≢◌,
}
use mathlib.Core.Option.{map as map_option}
use netclover.Prelude.Bits.{bit_and-low}
use netclover.Prelude.Tables.{passes_below, passes_below_sound}
use netclover.Kernel.Segments.{
  GdtEntry, GdtPtr, Segments, gdt_entry, set_gdt_gate, gdt_flush, init_gdt, write_tss, filled_tss,
  total_entries, tss_entry_size,
}

-- A segment descriptor by the processor's manual: the base and the limit are spread over the
-- entry, and the upper half of the flags belongs to no number.
pub record Descriptor : Type 0 where
  pub base : ℕ
  pub limit : ℕ
  pub access : ℕ
  pub flags : ℕ

abbrev pub descriptor : GdtEntry → Descriptor
descriptor e = record {
  base = e.base_low + e.base_mid * 2 ^ 16 + e.base_high * 2 ^ 24;
  limit = e.limit + e.flags % 2 ^ 4 * 2 ^ 16;
  access = e.access;
  flags = e.flags / 2 ^ 4;
}

abbrev upper_half_kept : ℕ → Bool
upper_half_kept n = bit_and n 0xF0 == n / 2 ^ 4 * 2 ^ 4

abbrev halves_join : ℕ → Bool
halves_join n = bit_or (n % 2 ^ 4) (n / 2 ^ 4 * 2 ^ 4) == n

bit_or-halves :
    (low n : ℕ) → low < 2 ^ 4 → n < 2 ^ 8 → bit_or low (bit_and n 0xF0) ≡ low + n / 2 ^ 4 * 2 ^ 4
unfolding passes_below
bit_or-halves low n small byte =
    let both = low + n / 2 ^ 4 * 2 ^ 4 in
    let kept : bit_and n 0xF0 ≡ n / 2 ^ 4 * 2 ^ 4 =
      ground (arith, passes_below_sound upper_half_kept (2 ^ 8) {i = n} refl byte) in
    let joined : bit_or (both % 2 ^ 4) (both / 2 ^ 4 * 2 ^ 4) ≡ both =
      ground (arith, passes_below_sound halves_join (2 ^ 8) {i = both} refl (omega arith)) in
    let first : both % 2 ^ 4 ≡ low = omega arith in
    let second : both / 2 ^ 4 * 2 ^ 4 ≡ n / 2 ^ 4 * 2 ^ 4 = omega arith in
    rw kept (
      ap (λ l. bit_or l (n / 2 ^ 4 * 2 ^ 4)) (sym first)
      ∙ ap (bit_or (both % 2 ^ 4)) (sym second)
      ∙ joined)

mod_small : (n : ℕ) → n % 2 ^ 4 % 2 ^ 8 ≡ n % 2 ^ 4
mod_small n = omega arith

-- Every base of 32 bits and every access byte is read back from the gate, the limit by its
-- lower 20 bits, and the flags from the upper half of the granularity.
pub descriptor-gdt_entry :
    (base limit access granularity : ℕ)
    → base < 2 ^ 32
    → granularity < 2 ^ 8
    → descriptor (gdt_entry base limit access granularity)
      ≡ record { base = base; limit = limit % 2 ^ 20; access = access; flags = granularity / 2 ^ 4 }
descriptor-gdt_entry base limit access granularity small byte =
    let low = bit_and-low 16 base in
    let mid = bit_and-low 8 (base / 2 ^ 16) in
    let high = bit_and-low 8 (base / 2 ^ 24) in
    let low_limit = bit_and-low 16 limit in
    let high_limit = bit_and-low 4 (limit / 2 ^ 16) in
    let upper = bit_or-halves (limit / 2 ^ 16 % 2 ^ 4) granularity (omega arith) byte in
    let flags : (gdt_entry base limit access granularity).flags
        ≡ limit / 2 ^ 16 % 2 ^ 4 + granularity / 2 ^ 4 * 2 ^ 4 =
      rw (high_limit, mod_small (limit / 2 ^ 16), upper) (omega arith) in
    let base_read : (descriptor (gdt_entry base limit access granularity)).base ≡ base =
      omega (arith, low, mid, high) in
    let limit_read : (descriptor (gdt_entry base limit access granularity)).limit ≡ limit % 2 ^ 20 =
      omega (arith, low_limit, flags) in
    let flags_read : (descriptor (gdt_entry base limit access granularity)).flags
        ≡ granularity / 2 ^ 4 =
      omega (arith, flags) in
    λ i. record { base = base_read i; limit = limit_read i; access = access; flags = flags_read i }

-- Of a table of six, `setGDTGate` fills the entry with the given number, from which the processor
-- reads the given base, the lower 20 bits of the limit, the access byte and the upper half of the
-- granularity, and no other one.
pub set_gdt_gate-descriptor :
    (s : Segments) (n base limit access granularity other : ℕ)
    → length s.gdt_entries ≡ total_entries
    → n < total_entries
    → base < 2 ^ 32
    → granularity < 2 ^ 8
    → n ≢ other
    → (s' : Segments) × (set_gdt_gate n base limit access granularity s ≡ some s')
      × (map_option descriptor (get_elem? s'.gdt_entries n)
          ≡ some (record {
            base = base;
            limit = limit % 2 ^ 20;
            access = access;
            flags = granularity / 2 ^ 4;
          }))
      × (get_elem? s'.gdt_entries other ≡ get_elem? s.gdt_entries other)
unfolding set_gdt_gate
set_gdt_gate-descriptor s n base limit access granularity other six inside small byte differ =
    let entry = gdt_entry base limit access granularity in
    let in_table : leb total_entries n ≡ false = ground arith in
    (
      record s { gdt_entries = set s.gdt_entries n entry },
      rw in_table refl,
      ap (map_option descriptor) (get_elem?-set_self s.gdt_entries n entry (omega arith))
          ∙ ap some (descriptor-gdt_entry base limit access granularity small byte),
      get_elem?-set_ne s.gdt_entries entry differ,
    )

-- A segment over all of the first 4 GiB, counted in pages, for 64-bit code.
abbrev pub flat : ℕ → Descriptor
flat access = record { base = 0; limit = 0xFFFFF; access = access; flags = 0xA }

abbrev pub seen_by_processor : Segments → Option GdtPtr × List Descriptor
seen_by_processor s = (s.loaded, map descriptor s.gdt_entries)

abbrev pub none_there : Descriptor
none_there = record { base = 0; limit = 0; access = 0; flags = 0 }

-- Whatever the table of six entries held, after `initGDT` the processor has the table's address and the
-- offset of its last byte, and reads in it: nothing, code and data of the kernel, code and data of the
-- user, all of them flat, and then the sixth entry as it was.
pub init_gdt-descriptors :
    (s : Segments) (e₀ e₁ e₂ e₃ e₄ e₅ : GdtEntry)
    → map_option seen_by_processor
        (init_gdt (record s { gdt_entries = e₀ ∷ e₁ ∷ e₂ ∷ e₃ ∷ e₄ ∷ e₅ ∷ [] }))
      ≡ some (
        some (record { limit = 47; base = s.entries_address }),
        none_there ∷ flat 0x9A ∷ flat 0x92 ∷ flat 0xFA ∷ flat 0xF2 ∷ descriptor e₅ ∷ [],
      )
unfolding init_gdt set_gdt_gate gdt_flush
init_gdt-descriptors s e₀ e₁ e₂ e₃ e₄ e₅ = refl

-- `writeTSS` gives its segment the limit `base + sizeof(tss_entry)`: for a segment whose last byte is
-- the 107th, counted from 0, that is the right one only if the lower 20 bits of the address are all set.
pub write_tss-limit :
    (s : Segments) (n ss0 esp0 : ℕ)
    → length s.gdt_entries ≡ total_entries
    → n < total_entries
    → (s' : Segments) × (d : Descriptor) × (write_tss n ss0 esp0 s ≡ some s')
      × (map_option descriptor (get_elem? s'.gdt_entries n) ≡ some d)
      × (d.base ≡ u32 s.tss_address)
      × ((d.limit ≡ tss_entry_size - 1) ↔ (s.tss_address % 2 ^ 20 ≡ 2 ^ 20 - 1))
unfolding write_tss
write_tss-limit s n ss0 esp0 six inside =
    let base = u32 s.tss_address in
    let limit = u32 (base + tss_entry_size) in
    let (s', e, found, others) =
      set_gdt_gate-descriptor s n base limit 0xE9 0 (suc n) six inside (omega arith) (omega arith)
        (ground arith) in
    let d : Descriptor = record { base = base; limit = limit % 2 ^ 20; access = 0xE9; flags = 0 } in
    (
      record s' { tss_entry = filled_tss ss0 esp0 },
      d,
      rw (write_tss, e) refl,
      found,
      refl,
      ((λ h. omega arith), (λ h. omega arith)),
    )
