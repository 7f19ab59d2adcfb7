-- ===== src/Libc/Console/Terminal.antt =====
-- A text terminal of 80 columns as its user sees it: what the functions of `Console` implement.
-- A place on the screen is one number, 80 * row + column.
pub mod Cursor
pub mod Settle
pub mod Putc
pub mod Text
pub mod Faults
use netclover.Prelude.{
  ℕ, zero, suc, ◌+◌, ◌-◌, ◌*◌, ◌/◌, ◌%◌, ◌≤◌, ◌<◌, ◌≡◌, List, [], ◌∷◌, ltb, leb, ◌==◌,
  if◌then◌else◌, store,
}
use netclover.Libc.Console.{Arch, Console, screen_height}

pub record Terminal : Type 0 where
  pub glyph : ℕ → ℕ
  pub colour : ℕ → ℕ
  pub place : ℕ

-- How many columns a tab moves on, by the column modulo 4.
abbrev pub tab_width : ℕ → ℕ
tab_width r = if r == 2 then 1 else if r == 3 then 3 else 2

module _ (height : ℕ) where
  -- The top row is lost, and a blank one comes in at the bottom.
  abbrev pub scroll : Terminal → Terminal
  scroll t = record {
    glyph = λ p. if leb (80 * height) (p + 80) then 0 else t.glyph (p + 80);
    colour = λ p. if leb (80 * height) (p + 80) then 7 else t.colour (p + 80);
    place = t.place - 80;
  }

  abbrev pub stay_on_screen : Terminal → Terminal
  stay_on_screen t = if leb (80 * height) t.place then scroll t else t

  -- A character that is shown stands at the place, which moves on by one.
  pub show : ℕ → Terminal → Terminal
  show c t = stay_on_screen (record t { glyph = store t.glyph t.place c; place = t.place + 1 })

  pub show_times : ℕ → ℕ → Terminal → Terminal
  show_times zero c t = t
  show_times (suc n) c t = show_times n c (show c t)

  pub write : ℕ → Terminal → Terminal
  write c t =
      if c == b'\n'
      then stay_on_screen (record t { place = (t.place / 80 + 1) * 80 })
      else if c == b'\r'
      then record t { place = t.place / 80 * 80 }
      else if c == b'\t'
      then show_times (tab_width (t.place % 4)) b' ' t
      else if c == 8
      then record t { glyph = store t.glyph (t.place - 1) b' '; place = t.place - 1 }
      else show c t

  pub write_all : List ℕ → Terminal → Terminal
  write_all [] t = t
  write_all (c ∷ text) t = write_all text (write c t)

-- The console `s` shows the terminal `t`.
pub record Shows (arch : Arch) (s : Console) (t : Terminal) : Type 0 where
  pub column : s.screen_x < 80
  pub row : s.screen_y < screen_height arch
  pub place : t.place ≡ 80 * s.screen_y + s.screen_x
  pub glyphs : (p : ℕ) → p < 80 * screen_height arch → s.screen_buffer (2 * p) ≡ t.glyph p
  pub colours : (p : ℕ) → p < 80 * screen_height arch → s.screen_buffer (2 * p + 1) ≡ t.colour p
