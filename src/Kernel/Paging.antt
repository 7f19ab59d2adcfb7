-- ===== src/Kernel/Paging.antt =====
-- src/kernel/memory/pager.c: the page tables
pub mod Tables
pub mod Walk
pub mod Translation
use netclover.Prelude.{
  ℕ, ◌+◌, ◌-◌, ◌*◌, ◌/◌, ◌%◌, ◌^◌, Option, none, some, bit_or, u64, sub64, store, count_up,
}
use netclover.Prelude.Steps.{Step, ◌>>=◌, ◌>>◌}
use netclover.Kernel.Machine.{Paging, Machine}

-- `kernelPage`
abbrev pub kernel_page : ℕ
kernel_page = 0xffffffffc0000000

unfoldable pub get_address : ℕ → ℕ
get_address addr = sub64 addr kernel_page

-- The body of the loop: `i << 21` is an int, and positive.
abbrev pub kernel_page_step : ℕ → Paging → Paging
kernel_page_step i p = record p {
  kernel_page_dir = store p.kernel_page_dir i (bit_or (i * 2 ^ 21) 0b10000011);
}

unfoldable pub fill_tables : Paging → Paging
unfolding get_address
fill_tables p₀ =
    let p₁ = record p₀ {
      pml4 =
          store (store p₀.pml4 0 (bit_or (get_address p₀.page_dir_tab_address) 1)) 511
            (bit_or (get_address p₀.page_dir_tab_address) 1);
    } in
    let p₂ = record p₁ {
      page_dir_tab =
          store (store p₁.page_dir_tab 0 (bit_or (get_address p₁.base_page_dir_address) 1)) 511
            (bit_or (get_address p₁.kernel_page_dir_address) 1);
    } in
    let p₃ = record p₂ {
      base_page_dir = store p₂.base_page_dir 0 (bit_or (0 * 2 ^ 21) 0b10000011);
    } in
    let p₄ = count_up kernel_page_step 512 0 p₃ in record p₄ { cr3 = get_address p₄.pml4_address }

module _ {W : Type 0} where
  unfoldable pub init_paging : Step (Machine W) (Unit {0})
  init_paging m = some (tt, record m { paging = fill_tables m.paging })
