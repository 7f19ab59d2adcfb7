-- ===== src/Libc/Printf/Directives.antt =====
-- What a format means: a sequence of characters to print and of conversions.
pub mod Meaning
use netclover.Prelude.{
  ℕ, ◌≡◌, ◌≢◌, Bool, true, false, ◌||◌, Option, none, some, List, [], ◌∷◌, ◌++◌, u8, ◌==◌, All,
  if◌then◌else◌, ◌>>=◌,
}
use netclover.Libc.Arch.{Arch}
use netclover.Libc.Console.{Console, putc, puts}
use netclover.Libc.Printf.{
  Length, default, short_short, short, long, long_long, Args, va_int, va_text, read_number,
  printf_signed, printf_unsigned,
}

pub data Directive : Type 0 where
  plain : ℕ → Directive
  conversion : Length → ℕ → Directive

abbrev pub modifier : Length → List ℕ
modifier default = []
modifier short_short = b'h' ∷ b'h' ∷ []
modifier short = b'h' ∷ []
modifier long = b'l' ∷ []
modifier long_long = b'l' ∷ b'l' ∷ []

abbrev pub spelling : Directive → List ℕ
spelling (plain c) = c ∷ []
spelling (conversion len c) = b'%' ∷ (modifier len ++ (c ∷ []))

abbrev pub spell : List Directive → List ℕ
spell [] = []
spell (d ∷ ds) = spelling d ++ spell ds

-- The spelling of a directive is read back as that directive.
abbrev pub IsReadable : Directive → Type 0
IsReadable (plain c) = (c ≢ 0) × (c ≢ b'%')
IsReadable (conversion default c) = (c ≢ 0) × (c ≢ b'h') × (c ≢ b'l')
IsReadable (conversion short c) = (c ≢ 0) × (c ≢ b'h')
IsReadable (conversion long c) = (c ≢ 0) × (c ≢ b'l')
IsReadable (conversion _ c) = c ≢ 0

-- The arguments left and the screen.
abbrev pub Output : Type 0
Output = Args × Console

-- The radix of a conversion of numbers, and whether it is signed.
abbrev pub number_format : ℕ → Option (ℕ × Bool)
number_format c =
    if c == b'd' || c == b'i'
    then some (10, true)
    else if c == b'u'
    then some (10, false)
    else if c == b'X' || c == b'x' || c == b'p'
    then some (16, false)
    else if c == b'o'
    then some (8, false)
    else none

unfoldable pub render_number : Arch → Length → Option (ℕ × Bool) → Output → Option Output
render_number arch len none out = some out
render_number arch len (some (radix, sign)) (args, s) = do
  (n, rest) ← read_number arch len sign args
  s' ← (if sign then printf_signed arch n radix s else printf_unsigned arch n radix s)
  some (rest, s')

unfoldable pub render : Arch → Directive → Output → Option Output
render arch (plain c) (args, s) = some (args, putc arch c s)
render arch (conversion len c) (args, s) =
    if c == b'c'
    then (do (n, rest) ← va_int arch args; some (rest, putc arch (u8 n) s))
    else if c == b's'
    then (do (str, rest) ← va_text args; s' ← puts arch str s; some (rest, s'))
    else if c == b'%'
    then some (args, putc arch b'%' s)
    else render_number arch len (number_format c) (args, s)

unfoldable pub render_all : Arch → List Directive → Output → Option Output
render_all arch [] out = some out
render_all arch (d ∷ ds) out = render arch d out >>= render_all arch ds
