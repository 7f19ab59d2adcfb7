-- ===== src/Libc/Vprintf/Agrees.antt =====
-- `vprintf` prints what `printf` does, on the formats that both read alike.
use mathlib.Core.List.{append_assoc}
use netclover.Prelude.{
  ℕ, ◌≡◌, ◌≢◌, ◌∙◌, refl, sym, ap, arith, Option, none, some, List, [], ◌∷◌, ◌++◌, u8, u32, All,
  ◌>>=◌,
}
use netclover.Libc.Arch.{Arch}
use netclover.Libc.Console.{Console, putc, puts}
use netclover.Libc.Printf.{
  num, ptr, Args, Length, default, short_short, short, long, long_long, va_int, va_text, va_text,
  printf,
}
use netclover.Libc.Printf.Directives.{
  Directive, plain, conversion, modifier, spelling, spell, IsReadable, Output, render, render_all,
}
use netclover.Libc.Printf.Directives.Meaning.{
  printf-render_all, printf-spell_then, printf_unfinished,
}
use netclover.Libc.Vprintf.Handed.{IsNumeric, number_cases-render_number}
use netclover.Libc.Vprintf.{
  inner_format, number_cases, modifier_case, percent_case, round, vprintf_loop, vprintf,
}

-- `vprintf` and `printf` read the directive alike.
abbrev pub IsShared : Directive → Type 0
IsShared (plain c) = IsReadable (plain c)
IsShared (conversion default c) = IsReadable (conversion default c)
IsShared (conversion len c) = IsReadable (conversion len c) × IsNumeric c

module _ (arch : Arch) where
  abbrev at_skip : ℕ → Output → Option (ℕ × Output)
  at_skip k out = some (k, out)

  -- How far the format goes on behind '%', less one.
  abbrev length_of : Length → ℕ
  length_of default = 1
  length_of short = 2
  length_of long = 2
  length_of short_short = 3
  length_of long_long = 3

  printf-char :
      (n : ℕ) (s : Console)
      → printf arch (inner_format default b'c') (num n ∷ []) s ≡ some (putc arch (u8 n) s)
  unfolding render_all render va_int
  printf-char n s =
      let low : u8 (u32 n) ≡ u8 n = omega arith in
      printf-render_all arch (conversion default b'c' ∷ []) [] (num n ∷ []) s (omega arith)
      ∙ ap (λ b. some (putc arch b s)) low

  printf-text :
      (str : List ℕ) (s : Console)
      → printf arch (inner_format default b's') (ptr str ∷ []) s ≡ puts arch str s
  unfolding render_all render va_text
  printf-text str s =
      printf-render_all arch (conversion default b's' ∷ []) [] (ptr str ∷ []) s (omega arith)
      ∙ ground arith

  char_case :
      (o : Option (ℕ × Args)) (s : Console)
      → (o >>= λ a.
          printf arch (inner_format default b'c') (num a.0 ∷ []) s >>= λ s'. at_skip 1 (a.1, s'))
        ≡ (o >>= (λ a. some (a.1, putc arch (u8 a.0) s)) >>= at_skip 1)
  char_case none s = refl
  char_case (some (n, rest)) s = rw (printf-char n s) refl

  text_case :
      (o : Option (List ℕ × Args)) (s : Console)
      → (o >>= λ a.
          printf arch (inner_format default b's') (ptr a.0 ∷ []) s >>= λ s'. at_skip 1 (a.1, s'))
        ≡ (o >>= (λ a. puts arch a.0 s >>= λ s'. some (a.1, s')) >>= at_skip 1)
  text_case none s = refl
  text_case (some (str, rest)) s = rw (printf-text str s) (ground arith)

  round-plain :
      (c : ℕ) (rest : List ℕ) (args : Args) (s : Console)
      → IsReadable (plain c)
      → round arch c rest (args, s) ≡ (render arch (plain c) (args, s) >>= at_skip 0)
  unfolding round render
  round-plain c rest args s h = ground arith

  round-conversion :
      (len : Length) (c : ℕ) (tail : List ℕ) (args : Args) (s : Console)
      → IsShared (conversion len c)
      → round arch b'%' (modifier len ++ (c ∷ tail)) (args, s)
        ≡ (render arch (conversion len c) (args, s) >>= at_skip (length_of len))
  unfolding round percent_case modifier_case render
  round-conversion default c tail args s h = ground (
    arith,
    h,
    char_case (va_int arch args) s,
    text_case (va_text args) s,
    number_cases-render_number arch default c args s,
  )
  round-conversion short c tail args s h =
      ground (arith, number_cases-render_number arch short c args s)
  round-conversion long c tail args s h =
      ground (arith, number_cases-render_number arch long c args s)
  round-conversion short_short c tail args s h =
      ground (arith, number_cases-render_number arch short_short c args s)
  round-conversion long_long c tail args s h =
      ground (arith, number_cases-render_number arch long_long c args s)

  skip-modifier :
      (len : Length) (c : ℕ) (tail : List ℕ) (out : Output)
      → vprintf_loop arch (length_of len) (modifier len ++ (c ∷ tail)) out
        ≡ vprintf_loop arch 0 tail out
  unfolding vprintf_loop
  skip-modifier default c tail out = refl
  skip-modifier short c tail out = refl
  skip-modifier long c tail out = refl
  skip-modifier short_short c tail out = refl
  skip-modifier long_long c tail out = refl

  loop_round :
      (c : ℕ) (tail : List ℕ) (out : Output)
      → c ≢ 0
      → vprintf_loop arch 0 (c ∷ tail) out
        ≡ (round arch c tail out >>= λ r. vprintf_loop arch r.0 tail r.1)
  unfolding vprintf_loop
  loop_round c tail out h = ground arith

  bind-skip :
      (o : Option Output) (k : ℕ) (f : ℕ → Output → Option Output)
      → (o >>= at_skip k >>= λ r. f r.0 r.1) ≡ (o >>= f k)
  bind-skip none k f = refl
  bind-skip (some out) k f = refl

  bind_ext :
      (o : Option Output) (f g : Output → Option Output)
      → ((out : Output) → f out ≡ g out)
      → (o >>= f) ≡ (o >>= g)
  bind_ext none f g h = refl
  bind_ext (some out) f g h = h out

  bind_assoc :
      (o : Option Output) (f g : Output → Option Output)
      → (o >>= f >>= g) ≡ (o >>= λ out. f out >>= g)
  bind_assoc none f g = refl
  bind_assoc (some out) f g = refl

  -- One directive is read whole, and does what it means.
  loop-spelling :
      (d : Directive) (tail : List ℕ) (args : Args) (s : Console)
      → IsShared d
      → vprintf_loop arch 0 (spelling d ++ tail) (args, s)
        ≡ (render arch d (args, s) >>= vprintf_loop arch 0 tail)
  loop-spelling (plain c) tail args s h =
      loop_round c tail (args, s) h.0
      ∙ ap (λ o. o >>= λ r. vprintf_loop arch r.0 tail r.1) (round-plain c tail args s h)
      ∙ bind-skip (render arch (plain c) (args, s)) 0 (λ k. vprintf_loop arch k tail)
  loop-spelling (conversion len c) tail args s h =
      let rest = modifier len ++ (c ∷ tail) in
      let meaning = render arch (conversion len c) (args, s) in
      ap (λ format. vprintf_loop arch 0 (b'%' ∷ format) (args, s))
        (append_assoc (modifier len) (c ∷ []) tail)
      ∙ loop_round b'%' rest (args, s) (omega arith)
      ∙ ap (λ o. o >>= λ r. vprintf_loop arch r.0 rest r.1) (round-conversion len c tail args s h)
      ∙ bind-skip meaning (length_of len) (λ k. vprintf_loop arch k rest)
      ∙ bind_ext meaning (vprintf_loop arch (length_of len) rest) (vprintf_loop arch 0 tail)
          (skip-modifier len c tail)

  loop-spell :
      (ds : List Directive) (rest : List ℕ) (args : Args) (s : Console)
      → All IsShared ds
      → vprintf_loop arch 0 (spell ds ++ rest) (args, s)
        ≡ (render_all arch ds (args, s) >>= vprintf_loop arch 0 rest)
  unfolding render_all
  loop-spell [] rest args s _ = refl
  loop-spell (d ∷ ds) rest args s (hd, hs) =
      let tail = spell ds ++ rest in
      ap (λ format. vprintf_loop arch 0 format (args, s))
        (append_assoc (spelling d) (spell ds) rest)
      ∙ loop-spelling d tail args s hd
      ∙ bind_ext (render arch d (args, s)) (vprintf_loop arch 0 tail)
          (λ out. render_all arch ds out >>= vprintf_loop arch 0 rest)
          (λ out. loop-spell ds rest out.0 out.1 hs)
      ∙ sym (bind_assoc (render arch d (args, s)) (render_all arch ds) (vprintf_loop arch 0 rest))

shared-IsReadable : (d : Directive) → IsShared d → IsReadable d
shared-IsReadable (plain c) h = h
shared-IsReadable (conversion default c) h = h
shared-IsReadable (conversion short c) h = h.0
shared-IsReadable (conversion long c) h = h.0
shared-IsReadable (conversion short_short c) h = h.0
shared-IsReadable (conversion long_long c) h = h.0

pub All-shared-IsReadable : (ds : List Directive) → All IsShared ds → All IsReadable ds
All-shared-IsReadable [] _ = tt
All-shared-IsReadable (d ∷ ds) (hd, hs) = (shared-IsReadable d hd, All-shared-IsReadable ds hs)

bind-some_output : (o : Option Output) → (o >>= some) ≡ o
bind-some_output none = refl
bind-some_output (some out) = refl

-- `vprintf` does what `printf` does with the same format and arguments, and is undefined where that
-- is, for any sequence of characters and conversions in which `c`, `s` and `%` have no modifier.
pub vprintf-printf :
    (arch : Arch) (ds : List Directive) (rest : List ℕ) (args : Args) (s : Console)
    → All IsShared ds
    → vprintf arch (spell ds ++ (0 ∷ rest)) args s ≡ printf arch (spell ds ++ (0 ∷ rest)) args s
unfolding vprintf vprintf_loop
vprintf-printf arch ds rest args s h =
    ap (λ o. o >>= λ out. some out.1)
      (loop-spell arch ds (0 ∷ rest) args s h ∙ bind-some_output (render_all arch ds (args, s)))
    ∙ sym (printf-render_all arch ds rest args s (All-shared-IsReadable ds h))

-- A format that ends in "%l", behind directives that both read alike and that print with these
-- arguments, is read by `vprintf` past its terminator, which is undefined; `printf` ends there, and
-- returns.
pub vprintf_past_end :
    (arch : Arch) (ds : List Directive) (args args' : Args) (s s' : Console)
    → All IsShared ds
    → render_all arch ds (args, s) ≡ some (args', s')
    → (vprintf arch (spell ds ++ (b'%' ∷ b'l' ∷ 0 ∷ [])) args s ≡ none)
      × (printf arch (spell ds ++ (b'%' ∷ b'l' ∷ 0 ∷ [])) args s ≡ some s')
unfolding vprintf vprintf_loop round percent_case modifier_case number_cases
vprintf_past_end arch ds args args' s s' h e = (
  ap (λ o. o >>= λ out. some out.1)
      (loop-spell arch ds (b'%' ∷ b'l' ∷ 0 ∷ []) args s h
        ∙ ap (λ o. o >>= vprintf_loop arch 0 (b'%' ∷ b'l' ∷ 0 ∷ [])) e),
  printf-spell_then arch ds (b'%' ∷ b'l' ∷ 0 ∷ []) args s (All-shared-IsReadable ds h)
      ∙ ap (λ o. o >>= λ out. printf arch (b'%' ∷ b'l' ∷ 0 ∷ []) out.0 out.1) e
      ∙ printf_unfinished arch args' s',
)
