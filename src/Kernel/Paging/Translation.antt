-- ===== src/Kernel/Paging/Translation.antt =====
-- Which memory the kernel sees behind `initPaging`.
use netclover.Prelude.{
  ℕ, ◌+◌, ◌*◌, ◌/◌, ◌%◌, ◌^◌, ◌<◌, ◌≡◌, ◌∙◌, refl, ap, arith, true, none, some, if◌then◌else◌,
}
use netclover.Kernel.Machine.{Paging}
use netclover.Kernel.Paging.{get_address, fill_tables}
use netclover.Kernel.Paging.Tables.{
  filled, fill_tables-filled, large_pages-131, pointer, pointer-odd,
}
use netclover.Kernel.Paging.Walk.{
  Placed, IsTable, physical, frame, is_present, is_large, table_entry, entry_of_table, walk,
  walk_pointers, walk_directory, at_pml4, at_page_dir_tab, at_base_page_dir, at_kernel_page_dir,
}

filled-Placed : (p : Paging) → Placed p → Placed (filled p)
filled-Placed p placed = record {
  pml4_aligned = placed.pml4_aligned;
  page_dir_tab_aligned = placed.page_dir_tab_aligned;
  base_page_dir_aligned = placed.base_page_dir_aligned;
  kernel_page_dir_aligned = placed.kernel_page_dir_aligned;
  pml4_apart₁ = placed.pml4_apart₁;
  pml4_apart₂ = placed.pml4_apart₂;
  pml4_apart₃ = placed.pml4_apart₃;
  page_dir_tab_apart₂ = placed.page_dir_tab_apart₂;
  page_dir_tab_apart₃ = placed.page_dir_tab_apart₃;
  base_page_dir_apart = placed.base_page_dir_apart;
}

-- Where the code finds a table.
get_address-physical : (address : ℕ) → IsTable address → get_address address ≡ physical address
unfolding get_address
get_address-physical address (high, fits, aligned) = omega (arith, high, fits)

pointer-physical : (address : ℕ) → IsTable address → pointer address ≡ physical address + 1
pointer-physical address table =
    let at = get_address-physical address table in
    pointer-odd address (ap (λ a. a % 4096) at ∙ table.2) ∙ ap (λ a. a + 1) at

-- The entry that a pointer to a table leads to.
behind_pointer :
    (q : Paging) (address index value : ℕ)
    → IsTable address
    → table_entry q (physical address + 8 * index) ≡ value
    → entry_of_table q (pointer address) index ≡ value
behind_pointer q address index value aligned e =
    let at : frame (pointer address) ≡ physical address =
      ap frame (pointer-physical address aligned) ∙ omega (arith, aligned.2) in
    ap (λ a. table_entry q (a + 8 * index)) at ∙ e

pointer_present : (address : ℕ) → IsTable address → is_present (pointer address) ≡ true
pointer_present address aligned = ap is_present (pointer-physical address aligned) ∙ ground arith

walk_directory-large :
    (q : Paging) (directory va k : ℕ)
    → entry_of_table q directory (va / 2 ^ 21 % 512) ≡ k * 2 ^ 21 + 131
    → walk_directory q directory va ≡ some (k * 2 ^ 21 + va % 2 ^ 21)
walk_directory-large q directory va k e =
    let there : is_present (k * 2 ^ 21 + 131) ≡ true = ground arith in
    let large : is_large (k * 2 ^ 21 + 131) ≡ true = ground arith in
    let page : (k * 2 ^ 21 + 131) / 2 ^ 21 * 2 ^ 21 ≡ k * 2 ^ 21 = omega arith in
    rw (e, there, large, page) refl

walk-through :
    (q : Paging) (va i₄ i₃ a₃ a₂ k : ℕ)
    → va / 2 ^ 39 % 512 ≡ i₄
    → va / 2 ^ 30 % 512 ≡ i₃
    → IsTable a₃
    → IsTable a₂
    → entry_of_table q q.cr3 i₄ ≡ pointer a₃
    → entry_of_table q (pointer a₃) i₃ ≡ pointer a₂
    → entry_of_table q (pointer a₂) (va / 2 ^ 21 % 512) ≡ k * 2 ^ 21 + 131
    → walk q va ≡ some (k * 2 ^ 21 + va % 2 ^ 21)
walk-through q va i₄ i₃ a₃ a₂ k index₄ index₃ aligned₃ aligned₂ e₄ e₃ e₂ =
    let top : entry_of_table q q.cr3 (va / 2 ^ 39 % 512) ≡ pointer a₃ =
      ap (entry_of_table q q.cr3) index₄ ∙ e₄ in
    let next : entry_of_table q (pointer a₃) (va / 2 ^ 30 % 512) ≡ pointer a₂ =
      ap (entry_of_table q (pointer a₃)) index₃ ∙ e₃ in
    let found₃ : walk q va ≡ walk_pointers q (pointer a₃) va =
      ap (λ e. if is_present e then walk_pointers q e va else none) top
      ∙ ap (λ b. if b then walk_pointers q (pointer a₃) va else none)
          (pointer_present a₃ aligned₃) in
    let found₂ : walk_pointers q (pointer a₃) va ≡ walk_directory q (pointer a₂) va =
      ap (λ e. if is_present e then walk_directory q e va else none) next
      ∙ ap (λ b. if b then walk_directory q (pointer a₂) va else none)
          (pointer_present a₂ aligned₂) in
    found₃ ∙ found₂ ∙ walk_directory-large q (pointer a₂) va k e₂

module _ (p : Paging) (placed : Placed p) where
  abbrev q : Paging
  q = filled p

  in_place : Placed q
  in_place = filled-Placed p placed

  top_entry : (i value : ℕ) → i < 512 → q.pml4 i ≡ value → entry_of_table q q.cr3 i ≡ value
  top_entry i value small e =
      let at : frame q.cr3 ≡ physical p.pml4_address =
        ap frame (get_address-physical p.pml4_address placed.pml4_aligned)
        ∙ omega (arith, placed.pml4_aligned.2) in
      ap (λ a. table_entry q (a + 8 * i)) at ∙ at_pml4 q in_place i small ∙ e

  kernel_memory : (x : ℕ) → x < 2 ^ 30 → walk q (0xffffffffc0000000 + x) ≡ some x
  kernel_memory x small =
      let k = x / 2 ^ 21 in
      let index : (0xffffffffc0000000 + x) / 2 ^ 21 % 512 ≡ k = omega arith in
      let through =
        walk-through q (0xffffffffc0000000 + x) 511 511 p.page_dir_tab_address
          p.kernel_page_dir_address k (omega arith) (omega arith) placed.page_dir_tab_aligned
          placed.kernel_page_dir_aligned
          (top_entry 511 (pointer p.page_dir_tab_address) (omega arith) refl)
          (behind_pointer q p.page_dir_tab_address 511 (pointer p.kernel_page_dir_address)
            placed.page_dir_tab_aligned (at_page_dir_tab q in_place 511 (omega arith)))
          (ap (entry_of_table q (pointer p.kernel_page_dir_address)) index
            ∙ behind_pointer q p.kernel_page_dir_address k (k * 2 ^ 21 + 131)
                placed.kernel_page_dir_aligned
                (at_kernel_page_dir q in_place k (omega arith)
                  ∙ large_pages-131 p.kernel_page_dir k (omega arith))) in
      through ∙ ap some (omega arith)

  low_memory : (x : ℕ) → x < 2 ^ 21 → walk q x ≡ some x
  low_memory x small =
      let index : x / 2 ^ 21 % 512 ≡ 0 = omega arith in
      let through =
        walk-through q x 0 0 p.page_dir_tab_address p.base_page_dir_address 0 (omega arith)
          (omega arith) placed.page_dir_tab_aligned placed.base_page_dir_aligned
          (top_entry 0 (pointer p.page_dir_tab_address) (omega arith) refl)
          (behind_pointer q p.page_dir_tab_address 0 (pointer p.base_page_dir_address)
            placed.page_dir_tab_aligned (at_page_dir_tab q in_place 0 (omega arith)))
          (ap (entry_of_table q (pointer p.base_page_dir_address)) index
            ∙ behind_pointer q p.base_page_dir_address 0 131 placed.base_page_dir_aligned
                (at_base_page_dir q in_place 0 (omega arith))) in
      through ∙ ap some (omega arith)

  -- The tables are each at the start of a physical page of their own, 0xffffffffc0000000 below the
  -- address that they are linked for. The first gigabyte of the
  -- physical memory then stands at 0xffffffffc0000000, byte for byte, and its first 2 MiB also at
  -- address 0.
  pub walk-fill_tables :
      (x : ℕ)
      → x < 2 ^ 30
      → (walk (fill_tables p) (0xffffffffc0000000 + x) ≡ some x)
        × (walk (fill_tables p) (x % 2 ^ 21) ≡ some (x % 2 ^ 21))
  walk-fill_tables x small =
      let tables = fill_tables-filled p in
      (
        ap (λ r. walk r (0xffffffffc0000000 + x)) tables ∙ kernel_memory x small,
        ap (λ r. walk r (x % 2 ^ 21)) tables ∙ low_memory (x % 2 ^ 21) (omega arith),
      )
