-- ===== src/Libc/Printf/Signed.antt =====
-- What `printf_signed` prints.
use netclover.Prelude.{
  ℕ, ◌-◌, ◌^◌, ◌≤◌, ◌<◌, ◌≡◌, arith, some, List, ◌∷◌, sub64, leb, inl, inr, Bool-cases,
}
use mathlib.Core.Path.{subst}
use netclover.Libc.Arch.{Arch}
use netclover.Libc.Console.{Console, putc, putc_all}
use netclover.Libc.Printf.{printf_signed}
use netclover.Libc.Printf.Digits.{IsNumeral, printf_unsigned_lem}

-- The decimal text of 64 bits that are read as a number with a sign.
pub data IsSignedText (number : ℕ) : List ℕ → Type 0 where
  positive :
      {digits : List ℕ}
      → number < 2 ^ 63
      → IsNumeral 10 number 20 digits
      → IsSignedText number digits
  negative :
      {digits : List ℕ}
      → 2 ^ 63 ≤ number
      → IsNumeral 10 (2 ^ 64 - number) 20 digits
      → IsSignedText number (b'-' ∷ digits)

-- In decimal, `printf_signed` returns for any 64 bits, and prints their text: a numeral, with a minus
-- in front of it if the top bit is set.
pub printf_signed-IsSignedText :
    (arch : Arch) (number : ℕ) (s : Console)
    → number < 2 ^ 64
    → (text : List ℕ) × (printf_signed arch number 10 s ≡ some (putc_all arch text s))
      × IsSignedText number text
unfolding printf_signed putc_all
printf_signed-IsSignedText arch number s small = elim (Bool-cases (leb (2 ^ 63) number)) [
  | inl high ↦
      let least : 2 ^ 63 ≤ number = ground arith in
      let opposite : sub64 0 number ≡ 2 ^ 64 - number = omega arith in
      let (digits, e, numeral) =
        printf_unsigned_lem arch (sub64 0 number) 10 19 (putc arch b'-' s) (omega arith)
          (omega arith) (omega arith) (omega arith) (omega arith) in
      (
        b'-' ∷ digits,
        rw high e,
        negative least (subst (λ k. IsNumeral 10 k 20 digits) opposite numeral),
      )
  | inr low ↦
      let below : number < 2 ^ 63 = ground arith in
      let (digits, e, numeral) =
        printf_unsigned_lem arch number 10 19 s (omega arith) (omega arith) small (omega arith)
          (omega arith) in
      (digits, rw low e, positive below numeral)
]
