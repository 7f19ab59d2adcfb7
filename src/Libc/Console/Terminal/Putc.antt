-- ===== src/Libc/Console/Terminal/Putc.antt =====
-- Each branch of `putc` implements the terminal's reaction to a character.
use netclover.Prelude.{
  ℕ, zero, suc, ◌+◌, ◌-◌, ◌*◌, ◌/◌, ◌%◌, ◌≤◌, ◌<◌, ◌≡◌, ◌≢◌, ◌⊎◌, inl, inr, refl, arith, true,
  false, ltb, ◌==◌, Bool-cases, store, u32,
}
use netclover.Libc.Console.{
  Arch, Console, screen_height, settle, put_cell, backspace, tab_loop, tab_limit, tab_fuel, putc,
}
use netclover.Libc.Console.Scroll.{screen_height_bounds}
use netclover.Libc.Console.Terminal.{
  Terminal, Shows, stay_on_screen, show, show_times, tab_width, write,
}
use netclover.Libc.Console.Terminal.Settle.{IsNear, ShowsAt, settle-ShowsAt, settled-ShowsAt}

-- The default branch of `putc`, then its end.
put_cell-ShowsAt :
    {arch : Arch} {s : Console} {t : Terminal} (c : ℕ)
    → Shows arch s t
    → ShowsAt arch (settle arch (put_cell c s)) (show (screen_height arch) c t)
unfolding show put_cell
put_cell-ShowsAt {arch} {s} {t} c h =
    let bounds = screen_height_bounds arch in
    let t' : Terminal = record t { glyph = store t.glyph t.place c; place = t.place + 1 } in
    let near : IsNear arch (put_cell c s) t' = record {
      column = omega (arith, h.column);
      fits = omega (arith, h.column, h.row, h.place);
      place = omega (arith, h.column, h.row, h.place);
      glyphs = λ p hp. ground (arith, h.glyphs p, h.place, h.column, h.row);
      colours = λ p hp. ground (arith, h.colours p, h.place, h.column, h.row);
    } in
    settle-ShowsAt near

-- A line feed, then the end of `putc`.
newline-ShowsAt :
    {arch : Arch} {s : Console} {t : Terminal}
    → Shows arch s t
    → ShowsAt arch
        (settle arch (record s { screen_x = 0; screen_y = u32 (s.screen_y + 1) }))
        (stay_on_screen (screen_height arch) (record t { place = (t.place / 80 + 1) * 80 }))
newline-ShowsAt {arch} {s} {t} h =
    let bounds = screen_height_bounds arch in
    let t' : Terminal = record t { place = (t.place / 80 + 1) * 80 } in
    let near : IsNear arch (record s { screen_x = 0; screen_y = u32 (s.screen_y + 1) }) t' =
      record {
        column = omega arith;
        fits = omega (arith, h.column, h.row, h.place);
        place = omega (arith, h.column, h.row, h.place);
        glyphs = h.glyphs;
        colours = h.colours;
      } in
    settle-ShowsAt near

return-Shows :
    {arch : Arch} {s : Console} {t : Terminal}
    → Shows arch s t
    → Shows arch (record s { screen_x = 0 }) (record t { place = t.place / 80 * 80 })
return-Shows h = record {
  column = omega arith;
  row = h.row;
  place = omega (arith, h.column, h.place);
  glyphs = h.glyphs;
  colours = h.colours;
}

backspace-Shows :
    {arch : Arch} {s : Console} {t : Terminal}
    → Shows arch s t
    → 0 < t.place
    → Shows arch
        (backspace s)
        (record t { glyph = store t.glyph (t.place - 1) b' '; place = t.place - 1 })
unfolding backspace
backspace-Shows {arch} {s} {t} h pos =
    let bounds = screen_height_bounds arch in
    record {
      column = ground (arith, h.column);
      row = ground (arith, h.column, h.row, h.place);
      place = ground (arith, h.column, h.row, h.place);
      glyphs = λ p hp. ground (arith, h.glyphs p, h.column, h.row, h.place);
      colours = λ p hp. ground (arith, h.colours p, h.column, h.row, h.place);
    }

-- The rounds of the tab loop from counter `i` on, in a column that is `r` modulo 4.
abbrev Tabs : Arch → ℕ → ℕ → ℕ → ℕ → Type 0
Tabs arch fuel i r n =
    (s : Console) (t : Terminal)
    → Shows arch s t
    → t.place % 4 ≡ r
    → Shows arch (tab_loop arch fuel i s) (show_times (screen_height arch) n b' ' t)

module _ (arch : Arch) where
  show-place :
      (c : ℕ) (t : Terminal)
      → 80 ≤ 80 * screen_height arch
      → (show (screen_height arch) c t).place % 4 ≡ (t.place + 1) % 4
  unfolding show
  show-place c t h = ground arith

  Tabs-stop : (fuel i r : ℕ) → r < 4 → 4 ≤ i + r → Tabs arch (suc fuel) i r 0
  unfolding tab_loop show_times
  Tabs-stop fuel i r hr le s t h e =
      let stop : ltb i (tab_limit s.screen_x) ≡ false = ground (arith, h.column, h.place) in
      rw (stop, tab_loop) h

  Tabs-more :
      (fuel i r n : ℕ)
      → i + r < 4
      → Tabs arch fuel (i + 1) ((r + 1) % 4) n
      → Tabs arch (suc fuel) i r (suc n)
  unfolding tab_loop show_times
  Tabs-more fuel i r n lt rest s t h e =
      let go : ltb i (tab_limit s.screen_x) ≡ true = ground (arith, h.column, h.place) in
      let next = put_cell-ShowsAt b' ' h in
      let moved = show-place b' ' t (omega (arith, screen_height_bounds arch)) in
      rw (go, tab_loop) (rest _ _ next.0 (omega (arith, moved)))

  Tabs-all : (r : ℕ) → r < 4 → Tabs arch tab_fuel 0 r (tab_width r)
  Tabs-all zero h =
      Tabs-more 7 0 0 1 (omega arith)
        (Tabs-more 6 1 1 0 (omega arith) (Tabs-stop 5 2 2 (omega arith) (omega arith)))
  Tabs-all (suc zero) h =
      Tabs-more 7 0 1 1 (omega arith)
        (Tabs-more 6 1 2 0 (omega arith) (Tabs-stop 5 2 3 (omega arith) (omega arith)))
  Tabs-all (suc (suc zero)) h =
      Tabs-more 7 0 2 0 (omega arith) (Tabs-stop 6 1 3 (omega arith) (omega arith))
  Tabs-all (suc (suc (suc zero))) h = Tabs-more 7 0 3 2 (omega arith) (
      Tabs-more 6 1 0 1 (omega arith)
        (Tabs-more 5 2 1 0 (omega arith) (Tabs-stop 4 3 2 (omega arith) (omega arith))))
  Tabs-all (suc (suc (suc (suc r)))) h = absurd (omega arith)

  -- A console that shows a terminal shows, after `putc`, the terminal after the character, with
  -- the cursor of the display at its place. The character is any but a backspace at the origin.
  pub putc-ShowsAt :
      (c : ℕ) (s : Console) (t : Terminal)
      → Shows arch s t
      → (c ≢ 8) ⊎ (0 < t.place)
      → ShowsAt arch (putc arch c s) (write (screen_height arch) c t)
  unfolding putc write
  putc-ShowsAt c s t h ok = elim (Bool-cases (c == b'\n')) [
    | inl e ↦ rw e (newline-ShowsAt h)
    | inr no_newline ↦ elim (Bool-cases (c == b'\r')) [
      | inl e ↦ rw (no_newline, e) (settled-ShowsAt (return-Shows h))
      | inr no_return ↦ elim (Bool-cases (c == b'\t')) [
        | inl e ↦
            rw (no_newline, no_return, e)
              (settled-ShowsAt (Tabs-all (t.place % 4) (omega arith) s t h refl))
        | inr no_tab ↦ elim (Bool-cases (c == 8)) [
          | inl e ↦
              rw (no_newline, no_return, no_tab, e)
                (settled-ShowsAt (backspace-Shows h (ground arith)))
          | inr glyph ↦ rw (no_newline, no_return, no_tab, glyph) (put_cell-ShowsAt c h)
        ]
      ]
    ]
  ]
