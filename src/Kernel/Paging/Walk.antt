-- ===== src/Kernel/Paging/Walk.antt =====
-- The addresses that the processor translates by the tables of `initPaging`.
use netclover.Prelude.{
  ℕ, ◌+◌, ◌-◌, ◌*◌, ◌/◌, ◌%◌, ◌^◌, ◌≤◌, ◌<◌, ◌≡◌, ◌≢◌, refl, arith, Bool, true, false, ◌&&◌, Option,
  none, some, leb, ltb, ◌==◌, if◌then◌else◌, inl, inr, Bool-cases,
}
use netclover.Kernel.Machine.{Paging}

-- Where a variable of the kernel stands in the physical memory: the kernel is linked
-- 0xffffffffc0000000 above its place.
abbrev pub physical : ℕ → ℕ
physical address = address - 0xffffffffc0000000

-- A table at the start of a physical page, at an address that the kernel is linked for.
abbrev pub IsTable : ℕ → Type 0
IsTable address =
    (0xffffffffc0000000 ≤ address) × (address < 2 ^ 64) × (physical address % 4096 ≡ 0)

-- A table of 512 entries of 8 bytes at a physical address.
abbrev pub inside : ℕ → ℕ → Bool
inside base a = leb base a && ltb a (base + 4096)

-- The physical memory, as far as the tables stand in it; 0 elsewhere.
abbrev pub table_entry : Paging → ℕ → ℕ
table_entry p a =
    if inside (physical p.pml4_address) a
    then p.pml4 ((a - physical p.pml4_address) / 8)
    else if inside (physical p.page_dir_tab_address) a
    then p.page_dir_tab ((a - physical p.page_dir_tab_address) / 8)
    else if inside (physical p.base_page_dir_address) a
    then p.base_page_dir ((a - physical p.base_page_dir_address) / 8)
    else if inside (physical p.kernel_page_dir_address) a
    then p.kernel_page_dir ((a - physical p.kernel_page_dir_address) / 8)
    else 0

-- The address in an entry, and the bits that say that it is present and a page of 2 MiB.
abbrev pub frame : ℕ → ℕ
frame entry = entry / 2 ^ 12 * 2 ^ 12

abbrev pub is_present : ℕ → Bool
is_present entry = entry % 2 == 1

abbrev pub is_large : ℕ → Bool
is_large entry = entry / 2 ^ 7 % 2 == 1

-- The processor's walk, by its manual, from an address of 48 bits to a large page. Pages of
-- 4 KiB or 1 GiB are not followed.
abbrev pub entry_of_table : Paging → ℕ → ℕ → ℕ
entry_of_table p table index = table_entry p (frame table + 8 * index)

abbrev pub walk_directory : Paging → ℕ → ℕ → Option ℕ
walk_directory p directory va =
    let entry = entry_of_table p directory (va / 2 ^ 21 % 512) in
    if is_present entry && is_large entry
    then some (entry / 2 ^ 21 * 2 ^ 21 + va % 2 ^ 21)
    else none

abbrev pub walk_pointers : Paging → ℕ → ℕ → Option ℕ
walk_pointers p pointers va =
    let entry = entry_of_table p pointers (va / 2 ^ 30 % 512) in
    if is_present entry then walk_directory p entry va else none

abbrev pub walk : Paging → ℕ → Option ℕ
walk p va =
    let entry = entry_of_table p p.cr3 (va / 2 ^ 39 % 512) in
    if is_present entry then walk_pointers p entry va else none

-- Where the tables stand in the physical memory: each at the start of a page of its own.
pub record Placed (p : Paging) : Type 0 where
  pub pml4_aligned : IsTable p.pml4_address
  pub page_dir_tab_aligned : IsTable p.page_dir_tab_address
  pub base_page_dir_aligned : IsTable p.base_page_dir_address
  pub kernel_page_dir_aligned : IsTable p.kernel_page_dir_address
  pub pml4_apart₁ : physical p.pml4_address ≢ physical p.page_dir_tab_address
  pub pml4_apart₂ : physical p.pml4_address ≢ physical p.base_page_dir_address
  pub pml4_apart₃ : physical p.pml4_address ≢ physical p.kernel_page_dir_address
  pub page_dir_tab_apart₂ : physical p.page_dir_tab_address ≢ physical p.base_page_dir_address
  pub page_dir_tab_apart₃ : physical p.page_dir_tab_address ≢ physical p.kernel_page_dir_address
  pub base_page_dir_apart : physical p.base_page_dir_address ≢ physical p.kernel_page_dir_address

inside_own : (base i : ℕ) → i < 512 → inside base (base + 8 * i) ≡ true
inside_own base i small = ground arith

inside_other :
    (base other i : ℕ)
    → base % 4096 ≡ 0
    → other % 4096 ≡ 0
    → base ≢ other
    → i < 512
    → inside base (other + 8 * i) ≡ false
inside_other base other i aligned aligned' apart small =
    elim (Bool-cases (inside base (other + 8 * i))) [
      | inl here ↦ absurd (apart (ground arith))
      | inr not_here ↦ not_here
    ]

index_of : (base i : ℕ) → (base + 8 * i - base) / 8 ≡ i
index_of base i = omega arith

module _ (p : Paging) (placed : Placed p) (i : ℕ) (small : i < 512) where
  pub at_pml4 : table_entry p (physical p.pml4_address + 8 * i) ≡ p.pml4 i
  at_pml4 = let base = physical p.pml4_address in rw (inside_own base i small, index_of base i) refl

  pub at_page_dir_tab : table_entry p (physical p.page_dir_tab_address + 8 * i) ≡ p.page_dir_tab i
  at_page_dir_tab =
      let base = physical p.page_dir_tab_address in
      let other =
        inside_other (physical p.pml4_address) base i placed.pml4_aligned.2
          placed.page_dir_tab_aligned.2 placed.pml4_apart₁ small in
      rw (other, inside_own base i small, index_of base i) refl

  pub at_base_page_dir :
      table_entry p (physical p.base_page_dir_address + 8 * i) ≡ p.base_page_dir i
  at_base_page_dir =
      let base = physical p.base_page_dir_address in
      let other₁ =
        inside_other (physical p.pml4_address) base i placed.pml4_aligned.2
          placed.base_page_dir_aligned.2 placed.pml4_apart₂ small in
      let other₂ =
        inside_other (physical p.page_dir_tab_address) base i placed.page_dir_tab_aligned.2
          placed.base_page_dir_aligned.2 placed.page_dir_tab_apart₂ small in
      rw (other₁, other₂, inside_own base i small, index_of base i) refl

  pub at_kernel_page_dir :
      table_entry p (physical p.kernel_page_dir_address + 8 * i) ≡ p.kernel_page_dir i
  at_kernel_page_dir =
      let base = physical p.kernel_page_dir_address in
      let other₁ =
        inside_other (physical p.pml4_address) base i placed.pml4_aligned.2
          placed.kernel_page_dir_aligned.2 placed.pml4_apart₃ small in
      let other₂ =
        inside_other (physical p.page_dir_tab_address) base i placed.page_dir_tab_aligned.2
          placed.kernel_page_dir_aligned.2 placed.page_dir_tab_apart₃ small in
      let other₃ =
        inside_other (physical p.base_page_dir_address) base i placed.base_page_dir_aligned.2
          placed.kernel_page_dir_aligned.2 placed.base_page_dir_apart small in
      rw (other₁, other₂, other₃, inside_own base i small, index_of base i) refl
