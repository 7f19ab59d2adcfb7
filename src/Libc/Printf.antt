-- ===== src/Libc/Printf.antt =====
-- src/libc/stdio/printf.c. Text and buffers are lists of bytes; `none` is undefined behaviour: a
-- read past the end of a text, a missing or wrong argument, a write past `buffer[32]`.
pub mod Digits
pub mod Signed
pub mod Directives
use netclover.Prelude.{
  ℕ, zero, suc, ◌+◌, ◌-◌, ◌*◌, ◌/◌, ◌%◌, ◌^◌, Bool, true, false, ◌||◌, Option, none, some, List, [],
  ◌∷◌, u8, u32, u64, sub64, sign_extend, ltb, leb, ◌==◌, get_elem?, codes, if◌then◌else◌, ◌>>=◌,
}
use netclover.Libc.Arch.{Arch, x86_64, i686}
use netclover.Libc.Division.{udivdi3, umoddi3}
use netclover.Libc.Console.{Console, putc, puts, putc_all}

-- What a variable argument takes of the stack or of the registers: a word, or a text by its
-- pointer.
pub data Slot : Type 0 where
  num : ℕ → Slot
  ptr : List ℕ → Slot

abbrev pub Args : Type 0
Args = List Slot

-- `va_arg` at the types that `printf` asks for, by the calling convention of each build: an
-- argument has a slot of 32 bits, two of them for `long long`, or one of 64 bits.
unfoldable pub va_int : Arch → Args → Option (ℕ × Args)
va_int arch (num n ∷ args) = some (u32 n, args)
va_int arch (ptr str ∷ args) = none
va_int arch [] = none

unfoldable pub va_long_long : Arch → Args → Option (ℕ × Args)
va_long_long x86_64 (num n ∷ args) = some (u64 n, args)
va_long_long i686 (num low ∷ num high ∷ args) = some (u32 low + u32 high * 2 ^ 32, args)
va_long_long arch args = none

-- As a number of 64 bits.
unfoldable pub va_long : Arch → Bool → Args → Option (ℕ × Args)
unfolding va_long_long va_int
va_long x86_64 sign args = va_long_long x86_64 args
va_long i686 sign args = do
  (n, rest) ← va_int i686 args
  some (if sign then sign_extend n else n, rest)

unfoldable pub va_text : Args → Option (List ℕ × Args)
va_text (ptr str ∷ args) = some (str, args)
va_text (num n ∷ args) = none
va_text [] = none

-- `/` and `%` of `unsigned long long`: the compiler calls the two functions on 32 bits.
pub udiv : Arch → ℕ → ℕ → ℕ
udiv x86_64 a b = a / b
udiv i686 a b = udivdi3 a b

pub umod : Arch → ℕ → ℕ → ℕ
umod x86_64 a b = a % b
umod i686 a b = umoddi3 a b

-- The first loop of `printf_unsigned` with `room` bytes of the buffer left, the last digit first.
pub collect : Arch → ℕ → ℕ → ℕ → List ℕ → Option (List ℕ)
unfolding udiv umod
collect arch zero number radix buffer = none
collect arch (suc room) number radix buffer = do
  digit ← get_elem? (codes "0123456789abcdef") (umod arch number radix)
  let rest = collect arch room (udiv arch number radix) radix (digit ∷ buffer)
  if ltb 0 (udiv arch number radix) then rest else some (digit ∷ buffer)

pub printf_unsigned : Arch → ℕ → ℕ → Console → Option Console
printf_unsigned arch number radix s = do
  buffer ← collect arch 32 number radix []
  some (putc_all arch buffer s)

-- The number is the bit pattern of a `long long`.
-- The least number is its own negative here; in C its negation is undefined.
pub printf_signed : Arch → ℕ → ℕ → Console → Option Console
printf_signed arch number radix s =
    if leb (2 ^ 63) number
    then printf_unsigned arch (sub64 0 number) radix (putc arch b'-' s)
    else printf_unsigned arch number radix s

-- `PRINTF_STATE_...` and `PRINTF_LENGTH_...`
pub data State : Type 0 where
  normal length length_short length_long spec : State

pub data Length : Type 0 where
  default short_short short long long_long : Length

-- The local variables of `printf`, its argument list, and the screen.
pub record Frame : Type 0 where
  pub state : State
  pub len : Length
  pub radix : ℕ
  pub sign : Bool
  pub number : Bool
  pub args : Args
  pub console : Console

abbrev pub enter : Args → Console → Frame
enter args s = record {
  state = normal;
  len = default;
  radix = 10;
  sign = false;
  number = false;
  args = args;
  console = s;
}

-- The argument of a conversion of numbers, as a number of 64 bits.
unfoldable pub read_number : Arch → Length → Bool → Args → Option (ℕ × Args)
read_number arch long sign args = va_long arch sign args
read_number arch long_long sign args = va_long_long arch args
read_number arch len sign args = do
  (n, rest) ← va_int arch args
  some (if sign then sign_extend n else n, rest)

abbrev pub as_number : Frame → ℕ → Bool → Option Frame
as_number f radix sign = some (record f { radix = radix; sign = sign; number = true })

-- The switch on the conversion.
pub convert : Arch → ℕ → Frame → Option Frame
convert arch c f =
    if c == b'c'
    then (do
      (n, rest) ← va_int arch f.args
      some (record f { args = rest; console = putc arch (u8 n) f.console }))
    else if c == b's'
    then (do
      (str, rest) ← va_text f.args
      s ← puts arch str f.console
      some (record f { args = rest; console = s }))
    else if c == b'%'
    then some (record f { console = putc arch b'%' f.console })
    else if c == b'd' || c == b'i'
    then as_number f 10 true
    else if c == b'u'
    then as_number f 10 false
    else if c == b'X' || c == b'x' || c == b'p'
    then as_number f 16 false
    else if c == b'o'
    then as_number f 8 false
    else some f

-- `if (number) ...`
pub print_number : Arch → Frame → Option Frame
print_number arch f =
    if f.number
    then (do
      (n, rest) ← read_number arch f.len f.sign f.args
      s ←
          (if f.sign
            then printf_signed arch n f.radix f.console
            else printf_unsigned arch n f.radix f.console)
      some (record f { args = rest; console = s }))
    else some f

-- The branch `PRINTF_STATE_SPEC_`, with its reset of the local variables.
pub spec_branch : Arch → ℕ → Frame → Option Frame
spec_branch arch c f = do
  f' ← convert arch c f
  f'' ← print_number arch f'
  some (enter f''.args f''.console)

-- One round of the loop of `printf` at the character `c`, by the state.
pub step : Arch → State → ℕ → Frame → Option Frame
step arch normal c f =
    if c == b'%'
    then some (record f { state = length })
    else some (record f { console = putc arch c f.console })
step arch length c f =
    if c == b'h'
    then some (record f { len = short; state = length_short })
    else if c == b'l'
    then some (record f { len = long; state = length_long })
    else spec_branch arch c f
step arch length_short c f =
    if c == b'h' then some (record f { len = short_short; state = spec }) else spec_branch arch c f
step arch length_long c f =
    if c == b'l' then some (record f { len = long_long; state = spec }) else spec_branch arch c f
step arch spec c f = spec_branch arch c f

pub printf_loop : Arch → List ℕ → Frame → Option Frame
printf_loop arch [] f = none
printf_loop arch (c ∷ format) f = elim (c == 0) [
  | true ↦ some f
  | false ↦ step arch f.state c f >>= printf_loop arch format
]

pub printf : Arch → List ℕ → Args → Console → Option Console
printf arch format args s = do f ← printf_loop arch format (enter args s); some f.console
