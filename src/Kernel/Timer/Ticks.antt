-- ===== src/Kernel/Timer/Ticks.antt =====
-- What the timer's divisor comes to, and what a tick prints.
use netclover.Prelude.{
  ℕ, ◌+◌, ◌*◌, ◌/◌, ◌^◌, ◌<◌, ◌≡◌, ◌≢◌, ◌∙◌, refl, sym, ap, arith, some, List, [], ◌∷◌, ◌++◌, codes,
  literal, ◌>>=◌, set, u32, u64, sign_extend,
}
use mathlib.Core.Path.{subst}
use netclover.Libc.Console.{Console, outb, putc_all, x86_64}
use netclover.Libc.Printf.{num, printf, printf_signed, va_int, read_number}
use netclover.Libc.Printf.Directives.{
  Directive, plain, conversion, render, render_all, render_number,
}
use netclover.Libc.Printf.{default}
use netclover.Libc.Printf.Directives.Meaning.{printf-render_all}
use netclover.Libc.Printf.Signed.{IsSignedText, printf_signed-IsSignedText}
use netclover.Libc.Console.Terminal.Text.{putc_all-append}
use netclover.Kernel.Machine.{Machine, on_irq0, write_port, on_screen-some}
use netclover.Kernel.Interrupts.{irq_install_handler}
use netclover.Kernel.Timer.{write_divisor, init_pit, handle_irq0}

abbrev tick_format : List Directive
tick_format =
    plain b'T'
    ∷ plain b'i'
    ∷ plain b'c'
    ∷ plain b'k'
    ∷ plain b'!'
    ∷ plain b' '
    ∷ plain b'('
    ∷ conversion default b'd'
    ∷ plain b')'
    ∷ plain b'\n'
    ∷ []

-- The text of a number that is printed by `%d`.
abbrev pub tick_text : List ℕ → List ℕ
tick_text digits = codes "Tick! (" ++ digits ++ codes ")\n"

tick_meaning :
    (n : ℕ) (digits : List ℕ) (c : Console)
    → printf_signed x86_64 (sign_extend (u32 n)) 10 (putc_all x86_64 (codes "Tick! (") c)
      ≡ some (putc_all x86_64 digits (putc_all x86_64 (codes "Tick! (") c))
    → (render_all x86_64 tick_format (num n ∷ [], c) >>= λ out. some out.1)
      ≡ some (putc_all x86_64 (tick_text digits) c)
unfolding render_all render render_number read_number va_int putc_all
tick_meaning n digits c e =
    let shown = putc_all-append x86_64 digits (codes ")\n") (putc_all x86_64 (codes "Tick! (") c) in
    rw e (ap some (sym shown))

printf-tick :
    (n : ℕ) (c : Console)
    → (digits : List ℕ) × (printf x86_64 (literal (codes "Tick! (%d)\n")) (num n ∷ []) c
        ≡ some (putc_all x86_64 (tick_text digits) c))
      × IsSignedText (sign_extend (u32 n)) digits
unfolding putc_all
printf-tick n c =
    let start = putc_all x86_64 (codes "Tick! (") c in
    let value = sign_extend (u32 n) in
    let small : value < 2 ^ 64 = ground arith in
    let (digits, e, signed) = printf_signed-IsSignedText x86_64 value start small in
    let meaning = printf-render_all x86_64 tick_format [] (num n ∷ []) c (omega arith) in
    (digits, meaning ∙ tick_meaning n digits c e, signed)

module _ {W : Type 0} where
  -- The counter of the timer, as a divisor of two bytes, is 53602 behind `initPIT`, while the divisor for
  -- ten ticks a second that the code computes is 119138. The ticks start from 0, and IRQ 0 has the
  -- timer's routine.
  pub init_pit-reload :
      (m : Machine W)
      → (m' : Machine W) × (low : ℕ) × (high : ℕ) × (init_pit m ≡ some (tt, m'))
        × (m'.console.ports ≡ (0x40, high) ∷ (0x40, low) ∷ (0x43, 0x36) ∷ m.console.ports)
        × (low + high * 2 ^ 8 ≡ 53602)
        × (low + high * 2 ^ 8 ≢ 1191380 / 10)
        × (m'.irq_routines ≡ set m.irq_routines 0 (some on_irq0))
        × (m'.ticks ≡ 0)
  unfolding init_pit irq_install_handler write_divisor write_port outb
  init_pit-reload m = (
    record m {
      ticks = 0;
      irq_routines = set m.irq_routines 0 (some on_irq0);
      console = record m.console {
        ports = (0x40, 0xD1) ∷ (0x40, 0x62) ∷ (0x43, 0x36) ∷ m.console.ports;
      };
    },
    0x62,
    0xD1,
    refl,
    refl,
    omega arith,
    omega arith,
    refl,
    refl,
  )

  -- A tick always returns: it counts on by one, modulo 2 ^ 64, and prints the lower 32 bits of the new
  -- count as a number with a sign, between "Tick! (" and ")"; it changes nothing else.
  pub handle_irq0-tick :
      (m : Machine W)
      → (digits : List ℕ) × (handle_irq0 m
          ≡ some (
            tt,
            record m {
              ticks = u64 (m.ticks + 1);
              console = putc_all x86_64 (tick_text digits) m.console;
            },
          ))
        × IsSignedText (sign_extend (u32 (m.ticks + 1))) digits
  unfolding handle_irq0
  handle_irq0-tick m =
      let ticks = u64 (m.ticks + 1) in
      let (digits, e, signed) = printf-tick ticks m.console in
      let low : u32 ticks ≡ u32 (m.ticks + 1) = omega arith in
      let printed =
        on_screen-some (printf x86_64 (literal (codes "Tick! (%d)\n")) (num ticks ∷ []))
          (putc_all x86_64 (tick_text digits) m.console) (record m { ticks = ticks }) e in
      (digits, printed, subst (λ k. IsSignedText (sign_extend k) digits) low signed)
