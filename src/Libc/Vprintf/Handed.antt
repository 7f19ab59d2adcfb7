-- ===== src/Libc/Vprintf/Handed.antt =====
-- A conversion that is handed on to `printf` does what it means.
use netclover.Prelude.{
  ℕ, ◌^◌, ◌<◌, ◌≡◌, ◌≢◌, ◌∙◌, refl, sym, ap, arith, Bool, true, false, Option, none, some, [], ◌∷◌,
  u32, sign_extend, if◌then◌else◌, ◌>>=◌,
}
use netclover.Libc.Arch.{Arch, x86_64, i686}
use netclover.Libc.Console.{Console}
use netclover.Libc.Printf.{
  num, ptr, Args, Length, default, short_short, short, long, long_long, va_int, va_long,
  va_long_long, read_number, printf_signed, printf_unsigned, printf,
}
use netclover.Libc.Printf.Directives.{
  conversion, IsReadable, Output, number_format, render_number, render, render_all,
}
use netclover.Libc.Printf.Directives.Meaning.{printf-render_all}
use netclover.Libc.Vprintf.{take_arg, pass_arg, inner_format, hand_on, number_cases}

-- Not one of the conversions that no modifier changes.
abbrev pub IsNumeric : ℕ → Type 0
IsNumeric c = (c ≢ b'c') × (c ≢ b's') × (c ≢ b'%')

-- An argument that was read is a number of `w` bits.
abbrev Fits : ℕ → Option (ℕ × Args) → Type 0
Fits w none = Unit
Fits w (some (n, args)) = n < 2 ^ w

va_int-Fits : (arch : Arch) (args : Args) → Fits 32 (va_int arch args)
unfolding va_int
va_int-Fits arch [] = tt
va_int-Fits arch (num n ∷ args) = omega arith
va_int-Fits arch (ptr str ∷ args) = tt

va_long_long-Fits : (arch : Arch) (args : Args) → Fits 64 (va_long_long arch args)
unfolding va_long_long
va_long_long-Fits i686 (num low ∷ num high ∷ args) = omega arith
va_long_long-Fits x86_64 (num n ∷ args) = omega arith
va_long_long-Fits _ _ = tt

-- What the inner call reads of a handed-on argument, with the outer call's arguments left.
abbrev again : Arch → Length → Bool → ℕ × Args → Option (ℕ × Args)
again arch len sign a = read_number arch len sign (pass_arg arch len a.0) >>= λ b. some (b.0, a.1)

module _ (arch : Arch) (sign : Bool) where
  extend : ℕ → ℕ
  extend n = if sign then sign_extend n else n

  int-again :
      (len : Length) (o : Option (ℕ × Args))
      → Fits 32 o
      → ((a : ℕ × Args) → again arch len sign a ≡ some (extend (u32 a.0), a.1))
      → (o >>= λ a. some (extend a.0, a.1)) ≡ (o >>= again arch len sign)
  int-again len none fits h = refl
  int-again len (some (n, rest)) fits h =
      let whole : u32 n ≡ n = omega arith in
      sym (h (n, rest) ∙ ap (λ m. some (extend m, rest)) whole)

  long-again :
      (len : Length) (o : Option (ℕ × Args))
      → Fits 64 o
      → ((a : ℕ × Args) → a.0 < 2 ^ 64 → again arch len sign a ≡ some a)
      → o ≡ (o >>= again arch len sign)
  long-again len none fits h = refl
  long-again len (some (n, rest)) fits h = sym (h (n, rest) fits)

bind-some : (o : Option (ℕ × Args)) → (o >>= λ a. some (a.0, a.1)) ≡ o
bind-some none = refl
bind-some (some a) = refl

-- What the inner call reads of the argument that is handed on is what a direct call would read.
read_number-pass_arg :
    (arch : Arch) (len : Length) (sign : Bool) (args : Args)
    → read_number arch len sign args ≡ (take_arg arch len args >>= again arch len sign)
unfolding read_number take_arg pass_arg va_long va_long_long va_int extend
read_number-pass_arg arch default sign args =
    int-again arch sign default (va_int arch args) (va_int-Fits arch args) (λ a. refl)
read_number-pass_arg arch short sign args =
    int-again arch sign short (va_int arch args) (va_int-Fits arch args) (λ a. refl)
read_number-pass_arg arch short_short sign args =
    int-again arch sign short_short (va_int arch args) (va_int-Fits arch args) (λ a. refl)
read_number-pass_arg x86_64 long sign args =
    long-again x86_64 sign long (va_long_long x86_64 args) (va_long_long-Fits x86_64 args)
      (λ a h. ap (λ n. some (n, a.1)) (omega arith))
read_number-pass_arg i686 long sign args =
    int-again i686 sign long (va_int i686 args) (va_int-Fits i686 args) (λ a. refl)
    ∙ ap (λ o. o >>= again i686 long sign) (sym (bind-some (va_int i686 args)))
read_number-pass_arg x86_64 long_long sign args =
    long-again x86_64 sign long_long (va_long_long x86_64 args) (va_long_long-Fits x86_64 args)
      (λ a h. ap (λ n. some (n, a.1)) (omega arith))
read_number-pass_arg i686 long_long sign args =
    long-again i686 sign long_long (va_long_long i686 args) (va_long_long-Fits i686 args)
      (λ a h. ap (λ n. some (n, a.1)) (omega arith))

pub printf-spelled :
    (arch : Arch) (len : Length) (k : ℕ) (args : Args) (s : Console)
    → IsReadable (conversion len k)
    → IsNumeric k
    → printf arch (inner_format len k) args s
      ≡ (render_number arch len (number_format k) (args, s) >>= λ out. some out.1)
unfolding render_all render
printf-spelled arch default k args s r h =
    printf-render_all arch (conversion default k ∷ []) [] args s (r, tt) ∙ ground (arith, h)
printf-spelled arch short k args s r h =
    printf-render_all arch (conversion short k ∷ []) [] args s (r, tt) ∙ ground (arith, h)
printf-spelled arch short_short k args s r h =
    printf-render_all arch (conversion short_short k ∷ []) [] args s (r, tt) ∙ ground (arith, h)
printf-spelled arch long k args s r h =
    printf-render_all arch (conversion long k ∷ []) [] args s (r, tt) ∙ ground (arith, h)
printf-spelled arch long_long k args s r h =
    printf-render_all arch (conversion long_long k ∷ []) [] args s (r, tt) ∙ ground (arith, h)

module _ (arch : Arch) (len : Length) (s : Console) where
  -- What is printed once the number is read.
  abbrev print_read : ℕ → Bool → ℕ × Args → Option Output
  print_read radix sign a =
      (if sign then printf_signed arch a.0 radix s else printf_unsigned arch a.0 radix s) >>= λ s'.
      some (a.1, s')

  inner_call :
      (k radix : ℕ) (sign : Bool) (o : Option (ℕ × Args))
      → IsReadable (conversion len k)
      → IsNumeric k
      → number_format k ≡ some (radix, sign)
      → (o >>= λ a.
          printf arch (inner_format len k) (pass_arg arch len a.0) s >>= λ s'. some (a.1, s'))
        ≡ (o >>= again arch len sign >>= print_read radix sign)
  unfolding render_number
  inner_call k radix sign none r h e = refl
  inner_call k radix sign (some (n, rest)) r h e =
      let inner = printf-spelled arch len k (pass_arg arch len n) s r h in
      rw (inner, e) (ground arith)

  -- The inner call does what the conversion means.
  hand_on-render_number :
      (k radix : ℕ) (sign : Bool) (args : Args)
      → IsReadable (conversion len k)
      → IsNumeric k
      → number_format k ≡ some (radix, sign)
      → hand_on arch len k (args, s) ≡ render_number arch len (some (radix, sign)) (args, s)
  unfolding hand_on render_number
  hand_on-render_number k radix sign args r h e =
      inner_call k radix sign (take_arg arch len args) r h e
      ∙ ap (λ o. o >>= print_read radix sign) (sym (read_number-pass_arg arch len sign args))

is_readable : (len : Length) (k : ℕ) → k ≢ 0 → k ≢ b'h' → k ≢ b'l' → IsReadable (conversion len k)
is_readable default k z h l = (z, h, l)
is_readable short k z h l = (z, h)
is_readable long k z h l = (z, l)
is_readable short_short k z h l = z
is_readable long_long k z h l = z

pub number_cases-render_number :
    (arch : Arch) (len : Length) (c : ℕ) (args : Args) (s : Console)
    → number_cases arch len c (args, s) ≡ render_number arch len (number_format c) (args, s)
unfolding number_cases
number_cases-render_number arch len c args s =
    let d =
      hand_on-render_number arch len s b'd' 10 true args
        (is_readable len b'd' (omega arith) (omega arith) (omega arith)) (omega arith) refl in
    let u =
      hand_on-render_number arch len s b'u' 10 false args
        (is_readable len b'u' (omega arith) (omega arith) (omega arith)) (omega arith) refl in
    let p =
      hand_on-render_number arch len s b'p' 16 false args
        (is_readable len b'p' (omega arith) (omega arith) (omega arith)) (omega arith) refl in
    let o =
      hand_on-render_number arch len s b'o' 8 false args
        (is_readable len b'o' (omega arith) (omega arith) (omega arith)) (omega arith) refl in
    let nothing : render_number arch len none (args, s) ≡ some (args, s) =
      unfold render_number in refl in
    ground (arith, d, u, p, o, nothing)
