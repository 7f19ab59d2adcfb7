-- ===== src/Libc/Console/Terminal/Settle.antt =====
-- The end of `putc`, which wraps the line and scrolls, shows `stay_on_screen`.
use netclover.Prelude.{
  ℕ, ◌+◌, ◌*◌, ◌≤◌, ◌<◌, ◌≡◌, inl, inr, arith, true, false, leb, leb→le, Bool-cases,
}
use netclover.Libc.Console.{
  Arch, Console, screen_height, setcursor, scrollback, wrap_column, settle,
}
use netclover.Libc.Console.Scroll.{screen_height_bounds, scrollback_lem}
use netclover.Libc.Console.Terminal.{Terminal, Shows, scroll, stay_on_screen}
use netclover.Libc.Console.Terminal.Cursor.{cursor, cursor-setcursor}

-- `Shows` as it is before the column and the row are set right.
pub record IsNear (arch : Arch) (s : Console) (t : Terminal) : Type 0 where
  pub column : s.screen_x ≤ 80
  pub fits : t.place ≤ 80 * screen_height arch
  pub place : t.place ≡ 80 * s.screen_y + s.screen_x
  pub glyphs : (p : ℕ) → p < 80 * screen_height arch → s.screen_buffer (2 * p) ≡ t.glyph p
  pub colours : (p : ℕ) → p < 80 * screen_height arch → s.screen_buffer (2 * p + 1) ≡ t.colour p

wrap_column-IsNear :
    {arch : Arch} {s : Console} {t : Terminal}
    → IsNear arch s t
    → IsNear arch (wrap_column s) t × ((wrap_column s).screen_x < 80)
unfolding wrap_column
wrap_column-IsNear {arch} {s} {t} n =
    let bounds = screen_height_bounds arch in
    elim (Bool-cases (leb 80 s.screen_x)) [
      | inl full ↦ rw full (
        record {
          column = omega arith;
          fits = n.fits;
          place = omega (arith, leb→le _ _ full, n.column, n.place, n.fits);
          glyphs = n.glyphs;
          colours = n.colours;
        },
        omega arith,
      )
      | inr free ↦ rw free (n, ground arith)
    ]

scrolled-Shows :
    {arch : Arch} {s : Console} {t : Terminal}
    → IsNear arch s t
    → s.screen_x < 80
    → screen_height arch ≤ s.screen_y
    → Shows arch (scrollback arch 1 s) (scroll (screen_height arch) t)
scrolled-Shows {arch} {s} {t} n hx hy =
    let bounds = screen_height_bounds arch in
    let one : 1 ≤ screen_height arch = omega arith in
    let all = scrollback_lem arch 1 s 0 one in
    record {
      column = omega (arith, all.1);
      row = omega (arith, all.2, n.fits, n.place);
      place = omega (arith, all.1, all.2, n.fits, n.place);
      glyphs = λ p hp. ground (arith, (scrollback_lem arch 1 s (2 * p) one).0, n.glyphs (p + 80));
      colours =
          λ p hp. ground (arith, (scrollback_lem arch 1 s (2 * p + 1) one).0, n.colours (p + 80));
    }

setcursor-Shows :
    {arch : Arch} {s : Console} {t : Terminal} (x y : ℕ)
    → Shows arch s t
    → Shows arch (setcursor x y s) t
unfolding setcursor
setcursor-Shows x y h = record {
  column = h.column;
  row = h.row;
  place = h.place;
  glyphs = h.glyphs;
  colours = h.colours;
}

-- What `putc` leaves behind: the terminal is shown, with the cursor at its place.
abbrev pub ShowsAt : Arch → Console → Terminal → Type 0
ShowsAt arch s t = Shows arch s t × (cursor s.ports ≡ t.place)

setcursor-ShowsAt :
    {arch : Arch} {s : Console} {t : Terminal}
    → Shows arch s t
    → ShowsAt arch (setcursor s.screen_x s.screen_y s) t
setcursor-ShowsAt {arch} {s} h = (
  setcursor-Shows s.screen_x s.screen_y h,
  omega (
    arith,
    cursor-setcursor s.screen_x s.screen_y s h.column
        (omega (arith, h.row, screen_height_bounds arch)),
    h.place,
  ),
)

pub settle-ShowsAt :
    {arch : Arch} {s : Console} {t : Terminal}
    → IsNear arch s t
    → ShowsAt arch (settle arch s) (stay_on_screen (screen_height arch) t)
unfolding settle
settle-ShowsAt {arch} {s} {t} near =
    let (n, hx) = wrap_column-IsNear near in
    elim (Bool-cases (leb (screen_height arch) (wrap_column s).screen_y)) [
      | inl full ↦
          let big : leb (80 * screen_height arch) t.place ≡ true = ground (arith, n.place) in
          rw (full, big) (setcursor-ShowsAt (scrolled-Shows n hx (leb→le _ _ full)))
      | inr free ↦
          let small : leb (80 * screen_height arch) t.place ≡ false = ground (arith, n.place) in
          let shown : Shows arch (wrap_column s) t = record {
            column = hx;
            row = ground arith;
            place = n.place;
            glyphs = n.glyphs;
            colours = n.colours;
          } in
          rw (free, small) (setcursor-ShowsAt shown)
    ]

-- Where nothing has to be set right, the end of `putc` only moves the cursor.
pub settled-ShowsAt :
    {arch : Arch} {s : Console} {t : Terminal} → Shows arch s t → ShowsAt arch (settle arch s) t
settled-ShowsAt {arch} {s} {t} h =
    let near : IsNear arch s t = record {
      column = omega (arith, h.column);
      fits = omega (arith, h.column, h.row, h.place);
      place = h.place;
      glyphs = h.glyphs;
      colours = h.colours;
    } in
    let stays : leb (80 * screen_height arch) t.place ≡ false =
      ground (arith, h.column, h.row, h.place) in
    rw stays at (settle-ShowsAt near)
