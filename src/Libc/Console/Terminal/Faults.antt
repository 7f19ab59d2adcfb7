-- ===== src/Libc/Console/Terminal/Faults.antt =====
-- Where `putc` does not do what it means to.
use netclover.Prelude.{ℕ, zero, suc, ◌+◌, ◌-◌, ◌*◌, ◌%◌, ◌^◌, ◌<◌, ◌≡◌, ◌≢◌, inl, arith, leb, true}
use netclover.Libc.Arch.{i686}
use netclover.Libc.Console.{
  Arch, Console, screen_height, setcursor, wrap_column, settle, backspace, putchr, putc,
}
use netclover.Libc.Console.Scroll.{scrollback_lem, screen_height_bounds}
use netclover.Libc.Console.Terminal.{Terminal, Shows, tab_width, show, show_times, write}
use netclover.Libc.Console.Terminal.Putc.{putc-ShowsAt}

-- The arithmetic of a backspace at the origin, whatever its write does.
backspaced :
    (arch : Arch) (s : Console) (o : ℕ)
    → o < 160 * (screen_height arch - 1)
    → let s' = putc arch 8 (record s { screen_x = 0; screen_y = 0 }) in
      (s'.screen_y ≡ 2 ^ 32 - 2)
      × (s'.screen_x ≡ 79)
      × (s'.screen_buffer o ≡ s.screen_buffer (o + 160))
unfolding putc settle wrap_column backspace setcursor
backspaced arch s o ho =
    let bounds = screen_height_bounds arch in
    let s' = putchr 79 (2 ^ 32 - 1) b' ' (record s { screen_x = 79; screen_y = 2 ^ 32 - 1 }) in
    let up = scrollback_lem arch 1 s' o (omega arith) in
    let low : leb (screen_height arch) (2 ^ 32 - 1) ≡ true = ground arith in
    rw low (up.2, up.1, ground (arith, up.0))

-- On the 32-bit build, a backspace at the origin leaves the row at -2 and the column at 79, and has
-- scrolled the screen up by a row: the row -1 is compared with the height as an unsigned number. (The
-- 64-bit build may end in a page fault first, at its write behind the screen.)
pub backspace_at_origin :
    (s : Console) (o : ℕ)
    → o < 160 * (screen_height i686 - 1)
    → let s' = putc i686 8 (record s { screen_x = 0; screen_y = 0 }) in
      (s'.screen_y ≡ 2 ^ 32 - 2)
      × (s'.screen_x ≡ 79)
      × (s'.screen_buffer o ≡ s.screen_buffer (o + 160))
backspace_at_origin s o ho = backspaced i686 s o ho

-- Three spaces at most move a terminal on without a wrap, if the columns are there.
show_times-place :
    (height n : ℕ) (t : Terminal)
    → t.place % 80 + n < 80
    → t.place < 80 * height
    → (show_times height n b' ' t).place ≡ t.place + n
unfolding show_times show
show_times-place height zero t room fits = omega arith
show_times-place height (suc n) t room fits =
    ground (arith, show_times-place height n (show height b' ' t))

-- A tab in any of the columns 0 to 76 stops at a column that is no multiple of four.
pub tab_misses_stops :
    (arch : Arch) (s : Console) (t : Terminal)
    → Shows arch s t
    → s.screen_x < 77
    → (putc arch b'\t' s).screen_x % 4 ≢ 0
unfolding write
tab_misses_stops arch s t h room =
    let (after, _) = putc-ShowsAt arch b'\t' s t h (inl (omega arith)) in
    let moved =
      show_times-place (screen_height arch) (tab_width (t.place % 4)) t
        (ground (arith, h.place, h.column)) (omega (arith, h.place, h.column, h.row)) in
    let same : (write (screen_height arch) b'\t' t).place ≡ t.place + tab_width (t.place % 4) =
      moved in
    λ stop. ground (arith, same, after.place)
