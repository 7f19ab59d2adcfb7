-- ===== src/Libc/Console/Scroll.antt =====
-- `scrollback` and `clrscr` as a whole.
use netclover.Prelude.{
  ℕ, ◌+◌, ◌-◌, ◌*◌, ◌^◌, ◌≤◌, ◌<◌, ◌≡◌, ◌∙◌, refl, arith, sub32, ltb, if◌then◌else◌, count_up,
}
use netclover.Libc.Console.{
  Arch, x86_64, i686, Console, screen_height, setcursor, copy_row, blank_row, scrollback, clrscr,
}
use netclover.Libc.Console.Terminal.Cursor.{cursor, cursor-setcursor}
use netclover.Libc.Console.Fill.{blank, copy_rows-IsFilled, blank_rows-IsFilled}

pub screen_height_bounds : (arch : Arch) → (0 < screen_height arch) × (screen_height arch ≤ 25)
screen_height_bounds x86_64 = omega arith
screen_height_bounds i686 = omega arith

-- Scrolling by at most the height of the screen moves every character with its colour up by
-- `lines` rows, blanks the `lines` rows at the bottom, touches no byte outside the screen, and
-- moves the stored row up with the text, keeping the column and sending nothing to a port.
pub scrollback_lem :
    (arch : Arch) (lines : ℕ) (s : Console) (o : ℕ)
    → lines ≤ screen_height arch
    → ((scrollback arch lines s).screen_buffer o ≡ (
        if ltb o (160 * (screen_height arch - lines))
        then s.screen_buffer (o + 160 * lines)
        else if ltb o (160 * screen_height arch)
        then blank o
        else s.screen_buffer o))
      × ((scrollback arch lines s).screen_x ≡ s.screen_x)
      × ((scrollback arch lines s).screen_y ≡ sub32 s.screen_y lines)
      × ((scrollback arch lines s).ports ≡ s.ports)
unfolding scrollback
scrollback_lem arch lines s o le =
    let height = screen_height arch in
    let bounds = screen_height_bounds arch in
    let start : sub32 height lines ≡ height - lines = omega arith in
    let top = count_up (copy_row lines) (height - lines) lines s in
    let up = copy_rows-IsFilled height lines s (omega arith) le in
    let down = blank_rows-IsFilled height (height - lines) top (omega arith) (omega arith) in
    rw start (
      ground (arith, up.inside o, up.outside o, down.inside o, down.outside o),
      down.same_x ∙ up.same_x,
      ground (arith, up.same_y, down.same_y),
      down.same_ports ∙ up.same_ports,
    )

setcursor-keeps :
    (x y : ℕ) (s : Console)
    → ((setcursor x y s).screen_buffer ≡ s.screen_buffer)
      × ((setcursor x y s).screen_x ≡ s.screen_x)
      × ((setcursor x y s).screen_y ≡ s.screen_y)
unfolding setcursor
setcursor-keeps x y s = (refl, refl, refl)

-- `clrscr` blanks the whole screen and nothing else, and puts the stored position and the cursor
-- of the display at the origin.
pub clrscr_lem :
    (arch : Arch) (s : Console) (o : ℕ)
    → ((clrscr arch s).screen_buffer o
        ≡ (if ltb o (160 * screen_height arch) then blank o else s.screen_buffer o))
      × ((clrscr arch s).screen_x ≡ 0)
      × ((clrscr arch s).screen_y ≡ 0)
      × (cursor (clrscr arch s).ports ≡ 0)
unfolding clrscr
clrscr_lem arch s o =
    let rows = count_up blank_row (screen_height arch) 0 s in
    let home : Console = record rows { screen_x = 0; screen_y = 0 } in
    let fits : screen_height arch < 2 ^ 16 = omega (arith, screen_height_bounds arch) in
    let down = blank_rows-IsFilled (screen_height arch) 0 s fits (omega arith) in
    let kept = setcursor-keeps 0 0 home in
    (
      ground (arith, kept, down.inside o, down.outside o),
      kept.1,
      kept.2,
      cursor-setcursor 0 0 home (omega arith) (omega arith),
    )
