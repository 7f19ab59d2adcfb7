-- ===== src/Libc/Tests.antt =====
-- Runs of the library's functions, and its theorems at concrete inputs.
use netclover.Prelude.{
  ℕ, ◌+◌, ◌-◌, ◌%◌, ◌^◌, ◌≡◌, ◌≢◌, inl, refl, arith, List, [], ◌∷◌, ◌++◌, none, some, codes, ◌>>=◌,
}
use netclover.Libc.Arch.{x86_64, i686}
use netclover.Libc.Division.{udivdi3, umoddi3}
use netclover.Libc.Division.Exact.{udivdi3-umoddi3}
use netclover.Libc.Console.{Console, scrollback, putc, puts, putc_all}
use netclover.Libc.Console.Scroll.{scrollback_lem}
use netclover.Libc.Console.Terminal.{Terminal, Shows, write, write_all}
use netclover.Libc.Console.Terminal.Settle.{ShowsAt}
use netclover.Libc.Console.Terminal.Putc.{putc-ShowsAt}
use netclover.Libc.Console.Terminal.Text.{puts-Shows}
use netclover.Libc.Console.Terminal.Faults.{backspace_at_origin, tab_misses_stops}
use netclover.Libc.Printf.{Args, num, ptr, default, printf, printf_unsigned}
use netclover.Libc.Printf.Digits.{IsNumeral, printf_unsigned_lem}
use netclover.Libc.Vprintf.{vprintf}
use netclover.Libc.Vprintf.Agrees.{vprintf-printf, vprintf_past_end}
use netclover.Libc.Printf.Directives.{Directive, plain, conversion, render_all}
use netclover.Libc.Printf.Directives.Meaning.{printf-render_all}

abbrev dark : Console
dark = record { screen_buffer = λ o. 0; screen_x = 0; screen_y = 0; ports = [] }

abbrev dark_terminal : Terminal
dark_terminal = record { glyph = λ p. 0; colour = λ p. 0; place = 0 }

dark-Shows : Shows x86_64 dark dark_terminal
dark-Shows = record {
  column = omega arith;
  row = omega arith;
  place = refl;
  glyphs = λ p h. refl;
  colours = λ p h. refl;
}

udivdi3-umoddi3_example : (udivdi3 1000 7 ≡ 142) × (umoddi3 1000 7 ≡ 6)
udivdi3-umoddi3_example = udivdi3-umoddi3 1000 7 (omega arith) (omega arith)

wide_division :
    (udivdi3 (2 ^ 64 - 1) (2 ^ 63 + 1) ≡ 1) × (umoddi3 (2 ^ 64 - 1) (2 ^ 63 + 1) ≡ 2 ^ 63 - 2)
unfolding udivdi3 umoddi3
wide_division = (refl, refl)

-- A division by zero does not trap on 32 bits.
division_by_zero : (udivdi3 5 0 ≡ 2 ^ 64 - 1) × (umoddi3 5 0 ≡ 5)
unfolding udivdi3 umoddi3
division_by_zero = (refl, refl)

scrollback_lem_example :
    ((scrollback x86_64 1 dark).screen_buffer 3 ≡ 0)
    × ((scrollback x86_64 1 dark).screen_x ≡ 0)
    × ((scrollback x86_64 1 dark).screen_y ≡ 2 ^ 32 - 1)
    × ((scrollback x86_64 1 dark).ports ≡ [])
scrollback_lem_example = scrollback_lem x86_64 1 dark 3 (omega arith)

putc-ShowsAt_example : ShowsAt x86_64 (putc x86_64 b'A' dark) (write 25 b'A' dark_terminal)
putc-ShowsAt_example = putc-ShowsAt x86_64 b'A' dark dark_terminal dark-Shows (inl (omega arith))

puts-Shows_example :
    (s' : Console) × (puts x86_64 (codes "Hi\n" ++ (0 ∷ [])) dark ≡ some s')
    × Shows x86_64 s' (write_all 25 (codes "Hi\n") dark_terminal)
puts-Shows_example = puts-Shows x86_64 (codes "Hi\n") [] dark dark_terminal (omega arith) dark-Shows

backspace_at_origin_example :
    ((putc i686 8 dark).screen_y ≡ 2 ^ 32 - 2)
    × ((putc i686 8 dark).screen_x ≡ 79)
    × ((putc i686 8 dark).screen_buffer 5 ≡ 0)
backspace_at_origin_example = backspace_at_origin dark 5 (omega arith)

tab_misses_stops_example : (putc x86_64 b'\t' dark).screen_x % 4 ≢ 0
tab_misses_stops_example = tab_misses_stops x86_64 dark dark_terminal dark-Shows (omega arith)

printf_unsigned_lem_example :
    (text : List ℕ) × (printf_unsigned i686 255 16 dark ≡ some (putc_all i686 text dark))
    × IsNumeral 16 255 2 text
printf_unsigned_lem_example =
    printf_unsigned_lem i686 255 16 1 dark (omega arith) (omega arith) (omega arith) (omega arith)
      (omega arith)

abbrev greeting : List Directive
greeting = plain b'x' ∷ conversion default b'd' ∷ conversion default b's' ∷ []

printf-render_all_example :
    printf x86_64 (codes "x%d%s" ++ (0 ∷ [])) (num 7 ∷ ptr (codes "!" ++ (0 ∷ [])) ∷ []) dark ≡ (
      render_all x86_64 greeting ((num 7 ∷ ptr (codes "!" ++ (0 ∷ [])) ∷ []), dark) >>= λ out.
      some out.1)
printf-render_all_example =
    printf-render_all x86_64 greeting [] (num 7 ∷ ptr (codes "!" ++ (0 ∷ [])) ∷ []) dark
      (omega arith)

abbrev greeting_args : Args
greeting_args = num 7 ∷ ptr (codes "!" ++ (0 ∷ [])) ∷ []

vprintf-printf_example :
    vprintf x86_64 (codes "x%d%s" ++ (0 ∷ [])) greeting_args dark
    ≡ printf x86_64 (codes "x%d%s" ++ (0 ∷ [])) greeting_args dark
vprintf-printf_example = vprintf-printf x86_64 greeting [] greeting_args dark (omega arith)

vprintf_past_end_example :
    (vprintf x86_64 (codes "%l" ++ (0 ∷ [])) greeting_args dark ≡ none)
    × (printf x86_64 (codes "%l" ++ (0 ∷ [])) greeting_args dark ≡ some dark)
unfolding render_all
vprintf_past_end_example = vprintf_past_end x86_64 [] greeting_args greeting_args dark dark tt refl
