-- ===== src/Kernel/Main/Prints.antt =====
-- The texts that `main` prints are all printed.
use netclover.Prelude.{
  ℕ, ◌^◌, ◌<◌, ◌≡◌, ◌∙◌, refl, sym, ap, arith, some, List, [], ◌∷◌, ◌++◌, codes, literal, map, u32,
  sign_extend, ◌>>=◌,
}
use netclover.Libc.Console.{Console, putc, putc_all, x86_64}
use netclover.Libc.Console.Terminal.Text.{putc_all-append}
use netclover.Libc.Printf.{
  num, printf, printf_signed, printf_unsigned, va_int, read_number, default,
}
use netclover.Libc.Printf.Digits.{printf_unsigned_lem}
use netclover.Libc.Printf.Signed.{printf_signed-IsSignedText}
use netclover.Libc.Printf.Directives.{
  Directive, plain, conversion, render, render_all, render_number,
}
use netclover.Libc.Printf.Directives.Meaning.{printf-render_all}

abbrev hex_format : List Directive
hex_format = map plain (codes "Boot device: 0x") ++ (conversion default b'x' ∷ plain b'\n' ∷ [])

abbrev count_format : List Directive
count_format = conversion default b'i' ∷ map plain (codes " regions\n")

hex_meaning :
    (n : ℕ) (digits : List ℕ) (c : Console)
    → printf_unsigned x86_64 (u32 n) 16 (putc_all x86_64 (codes "Boot device: 0x") c)
      ≡ some (putc_all x86_64 digits (putc_all x86_64 (codes "Boot device: 0x") c))
    → (render_all x86_64 hex_format (num n ∷ [], c) >>= λ out. some out.1)
      ≡ some (putc_all x86_64 (digits ++ codes "\n") (putc_all x86_64 (codes "Boot device: 0x") c))
unfolding render_all render render_number read_number va_int putc_all
hex_meaning n digits c e = rw e (
    ap some (
      sym
        (putc_all-append x86_64 digits (codes "\n") (putc_all x86_64 (codes "Boot device: 0x") c))))

pub printf-hex :
    (n : ℕ) (c : Console)
    → (c' : Console) × (printf x86_64 (literal (codes "Boot device: 0x%x\n")) (num n ∷ []) c
        ≡ some c')
unfolding putc_all
printf-hex n c =
    let start = putc_all x86_64 (codes "Boot device: 0x") c in
    let (digits, e, numeral) =
      printf_unsigned_lem x86_64 (u32 n) 16 7 start (omega arith) (omega arith) (omega arith)
        (omega arith) (omega arith) in
    (
      putc_all x86_64 (digits ++ codes "\n") start,
      printf-render_all x86_64 hex_format [] (num n ∷ []) c (omega arith)
          ∙ hex_meaning n digits c e,
    )

count_meaning :
    (n : ℕ) (digits : List ℕ) (c : Console)
    → printf_signed x86_64 (sign_extend (u32 n)) 10 c ≡ some (putc_all x86_64 digits c)
    → (render_all x86_64 count_format (num n ∷ [], c) >>= λ out. some out.1)
      ≡ some (putc_all x86_64 (codes " regions\n") (putc_all x86_64 digits c))
unfolding render_all render render_number read_number va_int putc_all
count_meaning n digits c e = rw e refl

pub printf-count :
    (n : ℕ) (c : Console)
    → (c' : Console) × (printf x86_64 (literal (codes "%i regions\n")) (num n ∷ []) c ≡ some c')
printf-count n c =
    let small : sign_extend (u32 n) < 2 ^ 64 = ground arith in
    let (digits, e, signed) = printf_signed-IsSignedText x86_64 (sign_extend (u32 n)) c small in
    (
      putc_all x86_64 (codes " regions\n") (putc_all x86_64 digits c),
      printf-render_all x86_64 count_format [] (num n ∷ []) c (omega arith)
          ∙ count_meaning n digits c e,
    )

plain_meaning :
    (text : List ℕ) (c : Console)
    → (render_all x86_64 (map plain text) ([], c) >>= λ out. some out.1)
      ≡ some (putc_all x86_64 text c)
unfolding render_all render putc_all
plain_meaning [] c = refl
plain_meaning (x ∷ text) c = plain_meaning text (putc x86_64 x c)

pub printf-mark :
    (c : Console) → printf x86_64 (literal (codes "!")) [] c ≡ some (putc_all x86_64 (codes "!") c)
printf-mark c =
    printf-render_all x86_64 (map plain (codes "!")) [] [] c (omega arith)
    ∙ plain_meaning (codes "!") c

pub printf-hello :
    (c : Console)
    → printf x86_64 (literal (codes "Hello world from the kernel!\n")) [] c
      ≡ some (putc_all x86_64 (codes "Hello world from the kernel!\n") c)
printf-hello c =
    printf-render_all x86_64 (map plain (codes "Hello world from the kernel!\n")) [] [] c
      (omega arith)
    ∙ plain_meaning (codes "Hello world from the kernel!\n") c
