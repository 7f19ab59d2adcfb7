-- ===== src/Libc/Vprintf.antt =====
-- src/libc/stdio/vprintf.c: each conversion is handed on to a call of `printf` of its own.
pub mod Handed
pub mod Agrees
use netclover.Prelude.{
  ℕ, zero, suc, ◌+◌, ◌/◌, ◌%◌, ◌^◌, ◌||◌, ◌&&◌, true, false, Option, none, some, List, [], ◌∷◌,
  ◌++◌, u32, ◌==◌, codes, get_elem?, drop, if◌then◌else◌, ◌>>=◌,
}
use netclover.Libc.Arch.{Arch, x86_64, i686}
use netclover.Libc.Console.{Console, putc}
use netclover.Libc.Printf.{
  Slot, num, ptr, Args, Length, default, short_short, short, long, long_long, va_int, va_long,
  va_long_long, va_text, printf,
}

-- `va_arg` at the type of a modifier. The value is only handed on, so its sign does not matter.
pub take_arg : Arch → Length → Args → Option (ℕ × Args)
take_arg arch long args = va_long arch false args
take_arg arch long_long args = va_long_long arch args
take_arg arch len args = va_int arch args

-- The argument of the inner call.
pub pass_long_long : Arch → ℕ → Args
pass_long_long x86_64 n = num n ∷ []
pass_long_long i686 n = num (u32 n) ∷ num (n / 2 ^ 32) ∷ []

pub pass_arg : Arch → Length → ℕ → Args
unfolding pass_long_long
pass_arg arch long_long n = pass_long_long arch n
pass_arg arch len n = num n ∷ []

-- The format of the inner call, `"%lld"` for `ll` and `d`.
abbrev pub inner_format : Length → ℕ → List ℕ
inner_format default c = b'%' ∷ c ∷ 0 ∷ []
inner_format short c = b'%' ∷ b'h' ∷ c ∷ 0 ∷ []
inner_format short_short c = b'%' ∷ b'h' ∷ b'h' ∷ c ∷ 0 ∷ []
inner_format long c = b'%' ∷ b'l' ∷ c ∷ 0 ∷ []
inner_format long_long c = b'%' ∷ b'l' ∷ b'l' ∷ c ∷ 0 ∷ []

abbrev pub Output : Type 0
Output = Args × Console

pub hand_on : Arch → Length → ℕ → Output → Option Output
hand_on arch len c (args, s) = do
  (n, rest) ← take_arg arch len args
  s' ← printf arch (inner_format len c) (pass_arg arch len n) s
  some (rest, s')

-- The cases of numbers, which the five switches share.
pub number_cases : Arch → Length → ℕ → Output → Option Output
number_cases arch len c out =
    if c == b'd' || c == b'i'
    then hand_on arch len b'd' out
    else if c == b'u'
    then hand_on arch len b'u' out
    else if c == b'X' || c == b'x' || c == b'p'
    then hand_on arch len b'p' out
    else if c == b'o'
    then hand_on arch len b'o' out
    else some out

-- What `*(format+k)` reads; `none` behind the end of the object.
abbrev pub peek : List ℕ → ℕ → Option ℕ
peek format k = get_elem? format k

-- The cases of `l` and `h`, at what stands behind the letter: how far the format goes on from the
-- character '%', less one.
pub modifier_case : Arch → ℕ → Length → Length → List ℕ → Output → Option (ℕ × Output)
modifier_case arch letter once twice rest out = do
  c ← peek rest 0
  if c == letter
      then (do d ← peek rest 1; out' ← number_cases arch twice d out; some (3, out'))
      else (do out' ← number_cases arch once c out; some (2, out'))

-- The switch at the character `c` behind '%'.
pub percent_case : Arch → ℕ → List ℕ → Output → Option (ℕ × Output)
percent_case arch c rest (args, s) =
    if c == b'c'
    then (do
      (n, args') ← va_int arch args
      s' ← printf arch (inner_format default b'c') (num n ∷ []) s
      some (1, (args', s')))
    else if c == b's'
    then (do
      (str, args') ← va_text args
      s' ← printf arch (inner_format default b's') (ptr str ∷ []) s
      some (1, (args', s')))
    else if c == b'%'
    then some (1, (args, putc arch b'%' s))
    else if c == b'l'
    then modifier_case arch b'l' long long_long rest (args, s)
    else if c == b'h'
    then modifier_case arch b'h' short short_short rest (args, s)
    else (do out ← number_cases arch default c (args, s); some (1, out))

-- One round of the loop at the character `c` with `rest` behind it.
pub round : Arch → ℕ → List ℕ → Output → Option (ℕ × Output)
round arch c rest (args, s) =
    if c == b'%'
    then (do
      d ← peek rest 0
      if d == 0
          then some (0, (args, putc arch c s))
          else percent_case arch d (drop 1 rest) (args, s))
    else some (0, (args, putc arch c s))

-- The loop, with `skip` characters to pass over before the next round.
pub vprintf_loop : Arch → ℕ → List ℕ → Output → Option Output
vprintf_loop arch skip [] out = none
vprintf_loop arch (suc skip) (c ∷ format) out = vprintf_loop arch skip format out
vprintf_loop arch zero (c ∷ format) out = elim (c == 0) [
  | true ↦ some out
  | false ↦ round arch c format out >>= λ r. vprintf_loop arch r.0 format r.1
]

pub vprintf : Arch → List ℕ → Args → Console → Option Console
vprintf arch format args s = do out ← vprintf_loop arch 0 format (args, s); some out.1
