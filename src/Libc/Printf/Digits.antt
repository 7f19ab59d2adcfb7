-- ===== src/Libc/Printf/Digits.antt =====
-- The digits that `printf_unsigned` prints.
use native.Mathlib.Nat.{pow-zero, pow-suc, div-lt_iff_lt-mul, div-add-mod', mod-lt, div-le_self}
use mathlib.Core.List.{append_assoc, append-nil}
use netclover.Prelude.{
  All, All-append, ℕ, zero, suc, ◌+◌, ◌-◌, ◌*◌, ◌/◌, ◌%◌, ◌^◌, ◌≤◌, ◌<◌, ◌≡◌, ◌≢◌, ◌⊎◌, inl, inr,
  refl, ap, arith, Bool, true, false, none, some, List, [], ◌∷◌, ◌++◌, ltb, ltb→lt, ◌==◌, get_elem?,
  length, length-append, codes, if◌then◌else◌, Bool-cases,
}
use netclover.Prelude.Tables.{passes_below, passes_below_sound}
use netclover.Libc.Arch.{Arch, x86_64, i686}
use netclover.Libc.Division.Exact.{udivdi3-umoddi3}
use netclover.Libc.Console.{Console, putc_all}
use netclover.Libc.Printf.{udiv, umod, collect, printf_unsigned}

-- The digits 0-9 and a-f, and the numbers that they stand for.
abbrev pub digit : ℕ → ℕ
digit d = if ltb d 10 then b'0' + d else b'a' + d - 10

abbrev pub digit_value : ℕ → ℕ
digit_value c = if ltb c b'a' then c - b'0' else c + 10 - b'a'

-- The number that digits spell behind `n`.
abbrev pub value : ℕ → ℕ → List ℕ → ℕ
value radix n [] = n
value radix n (c ∷ text) = value radix (n * radix + digit_value c) text

abbrev has_digit : ℕ → Bool
has_digit d = elim (get_elem? (codes "0123456789abcdef") d) [ none ↦ false | some c ↦ c == digit d ]

digit_table : passes_below has_digit 16 ≡ true
unfolding passes_below
digit_table = refl

get_elem?-digit : (d : ℕ) → d < 16 → get_elem? (codes "0123456789abcdef") d ≡ some (digit d)
get_elem?-digit d h = ground (arith, passes_below_sound has_digit 16 digit_table h)

-- On both builds.
udiv-umod :
    (arch : Arch) (a b : ℕ) → a < 2 ^ 64 → 0 < b → (udiv arch a b ≡ a / b) × (umod arch a b ≡ a % b)
unfolding udiv umod
udiv-umod x86_64 a b fits pos = (refl, refl)
udiv-umod i686 a b fits pos = udivdi3-umoddi3 a b fits pos

abbrev LeadsNonzero : List ℕ → Type 0
LeadsNonzero [] = ⊥
LeadsNonzero (c ∷ text) = c ≢ b'0'

-- The characters 0-9 and a-f whose values are below the radix.
abbrev pub IsDigit : ℕ → ℕ → Type 0
IsDigit radix c = (((b'0' ≤ c) × (c ≤ b'9')) ⊎ ((b'a' ≤ c) × (c ≤ b'f'))) × (digit_value c < radix)

-- `text` is the numeral of `n`, of at most `k` digits.
pub record IsNumeral (radix n k : ℕ) (text : List ℕ) : Type 0 where
  pub digits : All (IsDigit radix) text
  pub spells : value radix 0 text ≡ n
  pub short_enough : length text ≤ k
  pub canonical : (text ≡ b'0' ∷ []) ⊎ LeadsNonzero text

value-append :
    (radix n c : ℕ) (text : List ℕ)
    → value radix n (text ++ (c ∷ [])) ≡ value radix n text * radix + digit_value c
value-append radix n c [] = refl
value-append radix n c (d ∷ text) = value-append radix (n * radix + digit_value d) c text

LeadsNonzero-append : (text : List ℕ) (c : ℕ) → LeadsNonzero text → LeadsNonzero (text ++ (c ∷ []))
LeadsNonzero-append [] c h = absurd h
LeadsNonzero-append (d ∷ text) c h = h

digit-IsDigit : (radix d : ℕ) → radix ≤ 16 → d < radix → IsDigit radix (digit d)
digit-IsDigit radix d small below = elim (Bool-cases (ltb d 10)) [
  | inl decimal ↦
      let low : d < 10 = ground arith in rw decimal (inl (omega arith, omega arith), ground arith)
  | inr letter ↦
      let high : 10 ≤ d = ground arith in rw letter (inr (omega arith, omega arith), ground arith)
]

digit_value-digit : (d : ℕ) → d < 16 → digit_value (digit d) ≡ d
digit_value-digit d h = ground arith

module _ (arch : Arch) (radix : ℕ) (two : 2 ≤ radix) (small : radix ≤ 16) where
  collect_round :
      (room n : ℕ) (buffer : List ℕ)
      → n < 2 ^ 64
      → collect arch (suc room) n radix buffer ≡ (
          if ltb 0 (n / radix)
          then collect arch room (n / radix) radix (digit (n % radix) ∷ buffer)
          else some (digit (n % radix) ∷ buffer))
  unfolding collect
  collect_round room n buffer fits =
      let (q, r) = udiv-umod arch n radix fits (omega arith) in
      let below : n % radix < 16 = omega (arith, mod-lt n {m = radix} (omega arith)) in
      rw (q, r, get_elem?-digit (n % radix) below)

  IsNumeral-one : (n k : ℕ) → n / radix ≡ 0 → IsNumeral radix n (suc k) (digit (n % radix) ∷ [])
  IsNumeral-one n k e =
      let whole : n % radix ≡ n =
        omega (arith, div-add-mod' n radix, ap (λ (t : ℕ). t * radix) e) in
      let below : n % radix < 16 = omega (arith, mod-lt n {m = radix} (omega arith)) in
      record {
        digits = (digit-IsDigit radix (n % radix) small (mod-lt n (omega arith)), tt);
        spells = omega (arith, digit_value-digit (n % radix) below, whole);
        short_enough = omega arith;
        canonical = elim (Bool-cases (n == 0)) [
          | inl zero_ ↦ inl (ground (arith, whole))
          | inr positive ↦ inr (ground (arith, whole))
        ];
      }

  IsNumeral-more :
      (n k : ℕ) (text : List ℕ)
      → 0 < n / radix
      → IsNumeral radix (n / radix) k text
      → IsNumeral radix n (suc k) (text ++ (digit (n % radix) ∷ []))
  IsNumeral-more n k text pos h =
      let below : n % radix < 16 = omega (arith, mod-lt n {m = radix} (omega arith)) in
      record {
        digits =
            All-append (IsDigit radix) text (digit (n % radix) ∷ []) h.digits
              (digit-IsDigit radix (n % radix) small (mod-lt n (omega arith)), tt);
        spells = omega (
          arith,
          value-append radix 0 (digit (n % radix)) text,
          digit_value-digit (n % radix) below,
          div-add-mod' n radix,
          ap (λ (t : ℕ). t * radix) h.spells,
        );
        short_enough =
            omega (arith, length-append {0} text (digit (n % radix) ∷ []), h.short_enough);
        canonical = elim h.canonical [
          | inl e ↦ absurd (omega (arith, h.spells, ap (value radix 0) e))
          | inr lead ↦ inr (LeadsNonzero-append text (digit (n % radix)) lead)
        ];
      }

  div-lt_pow : (n k : ℕ) → n < radix ^ suc k → n / radix < radix ^ k
  div-lt_pow n k h = (div-lt_iff_lt-mul (omega arith)).1 (rw pow-suc at h)

  -- With room for `k` digits a number below `radix ^ k` is collected, in front of the buffer.
  collect-IsNumeral :
      (k room n : ℕ) (buffer : List ℕ)
      → k < room
      → n < 2 ^ 64
      → n < radix ^ suc k
      → (text : List ℕ) × (collect arch room n radix buffer ≡ some (text ++ buffer))
        × IsNumeral radix n (suc k) text
  collect-IsNumeral k zero n buffer le fits lt = absurd (omega arith)
  collect-IsNumeral zero (suc room) n buffer le fits lt =
      let stop : n / radix ≡ 0 = omega (arith, pow-zero radix, div-lt_pow n 0 lt) in
      (
        digit (n % radix) ∷ [],
        rw (collect_round room n buffer fits, stop) refl,
        IsNumeral-one n 0 stop,
      )
  collect-IsNumeral (suc k) (suc room) n buffer le fits lt =
      let rest =
        collect-IsNumeral k room (n / radix) (digit (n % radix) ∷ buffer) (omega arith)
          (omega (arith, div-le_self n radix)) (div-lt_pow n (suc k) lt) in
      elim (Bool-cases (ltb 0 (n / radix))) [
        | inl more ↦ (
          rest.0 ++ (digit (n % radix) ∷ []),
          rw (collect_round room n buffer fits, more, rest.1, append_assoc) refl,
          IsNumeral-more n (suc k) rest.0 (ltb→lt _ _ more) rest.2,
        )
        | inr less ↦ (
          digit (n % radix) ∷ [],
          rw (collect_round room n buffer fits, less) refl,
          IsNumeral-one n (suc k) (ground arith),
        )
      ]

-- `printf_unsigned` prints any number of 64 bits in the radices 2 to 16 that has at most 32 digits:
-- it returns, without a write past its buffer, and what it puts on the screen is a text of at most
-- as many digits as the number needs, each 0-9 or a-f and of a value below the radix, with no
-- leading zero, that spells the number.
pub printf_unsigned_lem :
    (arch : Arch) (number radix k : ℕ) (s : Console)
    → 2 ≤ radix
    → radix ≤ 16
    → number < 2 ^ 64
    → k < 32
    → number < radix ^ suc k
    → (text : List ℕ) × (printf_unsigned arch number radix s ≡ some (putc_all arch text s))
      × IsNumeral radix number (suc k) text
unfolding printf_unsigned
printf_unsigned_lem arch number radix k s two small fits room lt =
    let all = collect-IsNumeral arch radix two small k 32 number [] room fits lt in
    (all.0, rw (all.1, append-nil) refl, all.2)
