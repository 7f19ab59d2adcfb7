-- ===== src/Kernel/Paging/Tables.antt =====
-- What `initPaging` writes in its tables.
use netclover.Prelude.{
  ℕ, zero, suc, ◌+◌, ◌*◌, ◌/◌, ◌%◌, ◌^◌, ◌<◌, ◌≡◌, ◌∙◌, refl, sym, ap, arith, ◌==◌, bit_or, store,
  count_up, count_up_inv, inl, inr, Bool-cases,
}
use netclover.Prelude.Bits.{bit_or-shifted}
use netclover.Kernel.Machine.{Paging}
use netclover.Kernel.Paging.{get_address, kernel_page_step, fill_tables}

abbrev large_page_step : ℕ → (ℕ → ℕ) → ℕ → ℕ
large_page_step i directory = store directory i (bit_or (i * 2 ^ 21) 0b10000011)

-- The directory of the kernel behind the loop.
abbrev pub large_pages : (ℕ → ℕ) → ℕ → ℕ
large_pages directory = count_up large_page_step 512 0 directory

kernel_page_loop :
    (rounds start : ℕ) (p : Paging)
    → count_up kernel_page_step rounds start p
      ≡ record p { kernel_page_dir = count_up large_page_step rounds start p.kernel_page_dir }
unfolding count_up
kernel_page_loop zero start p = refl
kernel_page_loop (suc rounds) start p =
    kernel_page_loop rounds (start + 1) (kernel_page_step start p)

abbrev PagesBelow : ℕ → (ℕ → ℕ) → Type 0
PagesBelow k directory = (i : ℕ) → i < k → directory i ≡ i * 2 ^ 21 + 131

PagesBelow-step :
    (k : ℕ) (directory : ℕ → ℕ)
    → k < 512
    → PagesBelow k directory
    → PagesBelow (k + 1) (large_page_step k directory)
PagesBelow-step k directory low h i below = elim (Bool-cases (k == i)) [
  | inl same ↦
      let e : k ≡ i = ground arith in
      rw same (bit_or-shifted 21 k 131 (omega arith) ∙ ap (λ j. j * 2 ^ 21 + 131) e)
  | inr differ ↦ rw differ (h i (ground arith))
]

pub large_pages-131 :
    (directory : ℕ → ℕ) (i : ℕ) → i < 512 → large_pages directory i ≡ i * 2 ^ 21 + 131
large_pages-131 directory i small =
    count_up_inv large_page_step PagesBelow 512 PagesBelow-step 512 0 directory refl
      (λ j h. absurd (omega arith)) i small

-- A pointer to a table, with the bit of an entry that is present.
abbrev pub pointer : ℕ → ℕ
pointer address = bit_or (get_address address) 1

pub pointer-odd :
    (address : ℕ) → get_address address % 4096 ≡ 0 → pointer address ≡ get_address address + 1
pointer-odd address aligned =
    let half = get_address address / 2 in
    let whole : get_address address ≡ half * 2 ^ 1 = omega arith in
    ap (λ a. bit_or a 1) whole ∙ bit_or-shifted 1 half 1 (omega arith) ∙ ap (λ a. a + 1) (sym whole)

abbrev pub filled : Paging → Paging
filled p = record p {
  pml4 =
      store (store p.pml4 0 (pointer p.page_dir_tab_address)) 511 (pointer p.page_dir_tab_address);
  page_dir_tab =
      store (store p.page_dir_tab 0 (pointer p.base_page_dir_address)) 511
        (pointer p.kernel_page_dir_address);
  base_page_dir = store p.base_page_dir 0 131;
  kernel_page_dir = large_pages p.kernel_page_dir;
  cr3 = get_address p.pml4_address;
}

abbrev root_set : Paging → Paging
root_set q = record q { cr3 = get_address q.pml4_address }

pub fill_tables-filled : (p : Paging) → fill_tables p ≡ filled p
unfolding fill_tables
fill_tables-filled p =
    let started = record p {
      pml4 =
          store (store p.pml4 0 (pointer p.page_dir_tab_address)) 511
            (pointer p.page_dir_tab_address);
      page_dir_tab =
          store (store p.page_dir_tab 0 (pointer p.base_page_dir_address)) 511
            (pointer p.kernel_page_dir_address);
      base_page_dir = store p.base_page_dir 0 131;
    } in
    let looped = kernel_page_loop 512 0 started in ap root_set looped
