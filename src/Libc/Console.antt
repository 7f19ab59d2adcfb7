-- ===== src/Libc/Console.antt =====
-- src/libc/stdio: the text screen (vars.c, putchr.c, putcolor.c, getchr.c, getcolor.c,
-- setcursor.c, clrscr.c, putc.c, puts.c). `SCREEN_WIDTH` and `SCREEN_HEIGHT` are unsigned, so the
-- ints that meet them are read as unsigned: an int is its bit pattern throughout.
pub mod Fill
pub mod Scroll
pub mod Terminal
use netclover.Prelude.{
  ℕ, zero, suc, ◌+◌, ◌-◌, ◌*◌, ◌/◌, ◌%◌, ◌^◌, true, false, Option, none, some, List, [], ◌∷◌,
  bit_and, u8, u32, sub32, ltb, leb, ◌==◌, if◌then◌else◌, count_up, store,
}
pub use netclover.Libc.Arch.{Arch, x86_64, i686}

abbrev pub screen_width : ℕ
screen_width = 80

abbrev pub screen_height : Arch → ℕ
screen_height i686 = 24
screen_height x86_64 = 25

abbrev pub default_color : ℕ
default_color = 0x7

-- `screen_buffer` is the memory behind 0xB8000, by the unsigned offset from there. `ports` lists
-- the calls `outb(port, value)`, the latest first.
pub record Console : Type 0 where
  pub screen_buffer : ℕ → ℕ
  pub screen_x : ℕ
  pub screen_y : ℕ
  pub ports : List (ℕ × ℕ)

unfoldable pub outb : ℕ → ℕ → Console → Console
outb port value s = record s { ports = (port, value) ∷ s.ports }

-- `2 * (y * SCREEN_WIDTH + x)`
abbrev pub cell_index : ℕ → ℕ → ℕ
cell_index x y = u32 (2 * u32 (y * screen_width + x))

-- The memory at the buffer is total: a write behind the screen goes to the offset that the product
-- gives in 32 bits, where a processor may fault.
pub putchr : ℕ → ℕ → ℕ → Console → Console
putchr x y chr s = record s { screen_buffer = store s.screen_buffer (cell_index x y) chr }

pub putcolor : ℕ → ℕ → ℕ → Console → Console
putcolor x y color s = record s {
  screen_buffer = store s.screen_buffer (u32 (cell_index x y + 1)) color;
}

pub getchr : ℕ → ℕ → Console → ℕ
getchr x y s = s.screen_buffer (cell_index x y)

pub getcolor : ℕ → ℕ → Console → ℕ
getcolor x y s = s.screen_buffer (u32 (cell_index x y + 1))

pub setcursor : ℕ → ℕ → Console → Console
unfolding outb
setcursor x y s =
    let pos = u32 (y * screen_width + x) in
    let s₁ = outb 0x3D4 0x0F s in
    let s₂ = outb 0x3D5 (u8 (bit_and pos 0xFF)) s₁ in
    let s₃ = outb 0x3D4 0x0E s₂ in outb 0x3D5 (u8 (bit_and (pos / 2 ^ 8) 0xFF)) s₃

-- The body of the inner loop of `clrscr` and of the second one of `scrollback`.
pub blank_cell : ℕ → ℕ → Console → Console
unfolding putchr putcolor
blank_cell y x s = putcolor x y default_color (putchr x y 0 s)

-- The body of the inner loop of the first loop of `scrollback`.
pub copy_cell : ℕ → ℕ → ℕ → Console → Console
unfolding putchr putcolor getchr getcolor
copy_cell lines y x s =
    let s' = putchr x (sub32 y lines) (getchr x y s) s in
    putcolor x (sub32 y lines) (getcolor x y s') s'

pub blank_row : ℕ → Console → Console
blank_row y s = count_up (blank_cell y) screen_width 0 s

pub copy_row : ℕ → ℕ → Console → Console
copy_row lines y s = count_up (copy_cell lines y) screen_width 0 s

-- The default branch of the switch.
pub put_cell : ℕ → Console → Console
unfolding putchr
put_cell chr s =
    let s' = putchr s.screen_x s.screen_y chr s in record s' { screen_x = u32 (s'.screen_x + 1) }

pub backspace : Console → Console
unfolding putchr
backspace s =
    let s' =
      if s.screen_x == 0
      then record s { screen_x = screen_width - 1; screen_y = sub32 s.screen_y 1 }
      else record s { screen_x = sub32 s.screen_x 1 } in
    putchr s'.screen_x s'.screen_y b' ' s'

-- `4 - (screenX % 4)` of ints: `%` takes the sign of `screenX`.
abbrev pub tab_limit : ℕ → ℕ
tab_limit x = if ltb x (2 ^ 31) then 4 - x % 4 else 4 + (2 ^ 32 - x) % 4

-- Enough for the limit, which is at most 7.
abbrev pub tab_fuel : ℕ
tab_fuel = 8

-- The first test behind the switch.
pub wrap_column : Console → Console
wrap_column s =
    if leb screen_width s.screen_x
    then record s { screen_x = 0; screen_y = u32 (s.screen_y + 1) }
    else s

module _ (arch : Arch) where
  pub clrscr : Console → Console
  clrscr s =
      let s' = count_up blank_row (screen_height arch) 0 s in
      setcursor 0 0 (record s' { screen_x = 0; screen_y = 0 })

  -- Both loops end at `SCREEN_HEIGHT`, by an unsigned comparison.
  pub scrollback : ℕ → Console → Console
  scrollback lines s =
      let top = count_up (copy_row lines) (screen_height arch - lines) lines s in
      let start = sub32 (screen_height arch) lines in
      let all = count_up blank_row (screen_height arch - start) start top in
      record all { screen_y = sub32 all.screen_y lines }

  -- The end of `putc`, behind its switch.
  pub settle : Console → Console
  settle s =
      let wrapped = wrap_column s in
      let scrolled =
        if leb (screen_height arch) wrapped.screen_y then scrollback 1 wrapped else wrapped in
      setcursor scrolled.screen_x scrolled.screen_y scrolled

  -- The loop of '\t' at counter `i`: `putc(' ')` takes the default branch. The limit is read
  -- anew in each round, and is at most 7.
  pub tab_loop : ℕ → ℕ → Console → Console
  tab_loop zero i s = s
  tab_loop (suc fuel) i s = elim (ltb i (tab_limit s.screen_x)) [
    | true ↦ tab_loop fuel (i + 1) (settle (put_cell b' ' s))
    | false ↦ s
  ]

  pub putc : ℕ → Console → Console
  putc chr s = settle (
      if chr == b'\n'
      then record s { screen_x = 0; screen_y = u32 (s.screen_y + 1) }
      else if chr == b'\r'
      then record s { screen_x = 0 }
      else if chr == b'\t'
      then tab_loop tab_fuel 0 s
      else if chr == 8
      then backspace s
      else put_cell chr s)

  -- `none` is a read past the end of the object that holds the text.
  pub puts : List ℕ → Console → Option Console
  puts [] s = none
  puts (c ∷ str) s = elim (c == 0) [ true ↦ some s | false ↦ puts str (putc c s) ]

  -- The loops that print the characters of a buffer: the end of `printf_unsigned`, and the
  -- service of `log`.
  unfoldable pub putc_all : List ℕ → Console → Console
  putc_all [] s = s
  putc_all (c ∷ text) s = putc_all text (putc c s)
