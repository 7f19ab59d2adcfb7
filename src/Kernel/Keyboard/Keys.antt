-- ===== src/Kernel/Keyboard/Keys.antt =====
-- What each key types, by the US layout.
use netclover.Prelude.{
  ℕ, ◌+◌, ◌-◌, ◌^◌, ◌≡◌, inl, inr, refl, ap, Bool, true, false, ◌&&◌, ◌||◌, some, List, [], ◌∷◌,
  ◌++◌, replicate, get_or, codes, leb, u8, ◌==◌, if◌then◌else◌, Bool-cases,
}
use mathlib.Core.Bool.{not}
use netclover.Prelude.Steps.{pure, ◌>>=◌}
use netclover.Libc.Console.{Console, putc, putc_all, x86_64}
use netclover.Kernel.Machine.{Machine}
use netclover.Kernel.Keyboard.{
  num_shift_map, get_ascii, put_shifted, is_shift, is_number, is_letter, number_key, letter_key,
  show_key, key,
}

-- The characters of the layout by scan code, from 0 on: 0 for a key that types none. The keypad
-- types its signs, as the comments of `scancodeMap` have it, and no digits.
abbrev pub us_plain : List ℕ
us_plain =
    (0 ∷ 0 ∷ codes "1234567890-=")
    ++ (8 ∷ b'\t' ∷ codes "qwertyuiop[]\n")
    ++ (0 ∷ codes "asdfghjkl;'`")
    ++ (0 ∷ codes "\\zxcvbnm,./")
    ++ (0 ∷ b'*' ∷ 0 ∷ codes " ")
    ++ (replicate 16 0 ++ (b'-' ∷ 0 ∷ 0 ∷ 0 ∷ b'+' ∷ 0 ∷ 0 ∷ 0 ∷ 0 ∷ codes "."))

abbrev pub us_shifted : List ℕ
us_shifted =
    (0 ∷ 0 ∷ codes "!@#$%^&*()_+")
    ++ (8 ∷ b'\t' ∷ codes "QWERTYUIOP{}\n")
    ++ (0 ∷ codes "ASDFGHJKL:\"~")
    ++ (0 ∷ codes "|ZXCVBNM<>?")
    ++ (0 ∷ b'*' ∷ 0 ∷ codes " ")
    ++ (replicate 16 0 ++ (b'-' ∷ 0 ∷ 0 ∷ 0 ∷ b'+' ∷ 0 ∷ 0 ∷ 0 ∷ 0 ∷ codes "."))

abbrev pub us_key : Bool → ℕ → ℕ
us_key caps_on code = get_or (if caps_on then us_shifted else us_plain) code 0

abbrev text_of : ℕ → List ℕ
text_of char = if char == 0 then [] else char ∷ []

-- What a key types, as a text.
abbrev pub us_text : Bool → ℕ → List ℕ
us_text caps_on code = text_of (us_key caps_on code)

abbrev is_cased : ℕ → Bool
is_cased char = leb b'a' char && leb char b'z'

-- Tab, and the keypad's `*`, `-`, `+` and `.`, which the switch has no case for.
abbrev pub has_no_case : ℕ → Bool
has_no_case code =
    (code == 0x0F) || (code == 0x37) || (code == 0x4A) || (code == 0x4E) || (code == 0x53)

-- The keys at which the kernel follows the layout: without Shift all but Ctrl and those without a
-- case, and with Shift the letters, and those that are no punctuation, Enter, Space or Ctrl and
-- have a case.
abbrev pub follows_layout : Bool → ℕ → Bool
follows_layout false code = not (code == 0x1D) && not (has_no_case code)
follows_layout true code =
    (not (is_letter code) || is_cased (us_key false code)) && not (has_no_case code)

abbrev matching : List (ℕ × ℕ) → ℕ → List ℕ
matching [] ascii = []
matching ((plain, shifted) ∷ rest) ascii =
    (if plain == ascii then shifted ∷ [] else []) ++ matching rest ascii

-- What the kernel types for a key.
abbrev pub key_text : Bool → ℕ → List ℕ
key_text caps_on code =
    if is_shift code
    then []
    else if is_number code
    then (if caps_on then matching num_shift_map (get_ascii code) else get_ascii code ∷ [])
    else if is_letter code
    then (if caps_on then u8 (get_ascii code + 2 ^ 8 - 32) else get_ascii code) ∷ []
    else if code == 0x0E
    then 8 ∷ []
    else []

put_shifted-matching :
    (map : List (ℕ × ℕ)) (ascii : ℕ) (c : Console)
    → put_shifted map ascii c ≡ putc_all x86_64 (matching map ascii) c
unfolding put_shifted putc_all
put_shifted-matching [] ascii c = refl
put_shifted-matching ((plain, shifted) ∷ rest) ascii c = elim (Bool-cases (plain == ascii)) [
  | inl same ↦ rw same (put_shifted-matching rest ascii (putc x86_64 shifted c))
  | inr differ ↦ rw differ (put_shifted-matching rest ascii c)
]

number_key-key_text :
    (caps_on : Bool) (code : ℕ) (c : Console)
    → number_key caps_on code c
      ≡ putc_all x86_64
          (if caps_on then matching num_shift_map (get_ascii code) else get_ascii code ∷ [])
          c
unfolding number_key putc_all
number_key-key_text true code c = put_shifted-matching num_shift_map (get_ascii code) c
number_key-key_text false code c = refl

letter_key-key_text :
    (caps_on : Bool) (code : ℕ) (c : Console)
    → letter_key caps_on code c
      ≡ putc_all x86_64
          ((if caps_on then u8 (get_ascii code + 2 ^ 8 - 32) else get_ascii code) ∷ [])
          c
unfolding letter_key putc_all
letter_key-key_text true code c = refl
letter_key-key_text false code c = refl

module _ {W : Type 0} where
  -- The machine behind a key.
  abbrev pub keyed : ℕ → Bool → (Bool → List ℕ) → Machine W → Machine W
  keyed code pressed text m = record m {
    caps_on = if is_shift code then pressed else m.caps_on;
    console = if pressed then putc_all x86_64 (text m.caps_on) m.console else m.console;
  }

  shown :
      (pressed : Bool) (f : Console → Console) (text : List ℕ) (m : Machine W)
      → f m.console ≡ putc_all x86_64 text m.console
      → (if pressed then show_key f else pure tt) m
        ≡ some (
          tt,
          record m { console = if pressed then putc_all x86_64 text m.console else m.console },
        )
  shown true f text m e = ap (λ c. some (tt, record m { console = c })) e
  shown false f text m e = refl

  unpressed :
      (pressed : Bool) (m : Machine W)
      → pure {S = Machine W} (tt {0}) m
        ≡ some (tt, record m { console = if pressed then m.console else m.console })
  unpressed true m = refl
  unpressed false m = refl

  key_on_shift :
      (code : ℕ) (pressed : Bool) (m : Machine W)
      → is_shift code ≡ true
      → key code pressed m ≡ some (tt, keyed code pressed (λ caps_on. key_text caps_on code) m)
  unfolding key putc_all
  key_on_shift code true m shift = rw (key, ◌>>=◌, shift) refl
  key_on_shift code false m shift = rw (key, ◌>>=◌, shift) refl

  pub key-key_text :
      (code : ℕ) (pressed : Bool) (m : Machine W)
      → key code pressed m ≡ some (tt, keyed code pressed (λ caps_on. key_text caps_on code) m)
  unfolding key number_key letter_key putc_all
  key-key_text code pressed m = elim (Bool-cases (is_shift code)) [
    | inl shift ↦ key_on_shift code pressed m shift
    | inr no_shift ↦ elim (Bool-cases (is_number code)) [
      | inl number ↦
          rw (key, ◌>>=◌, no_shift, number)
            (shown pressed (number_key m.caps_on code)
              (if m.caps_on then matching num_shift_map (get_ascii code) else get_ascii code ∷ []) m
              (number_key-key_text m.caps_on code m.console))
      | inr no_number ↦ elim (Bool-cases (is_letter code)) [
        | inl letter ↦
            rw (key, ◌>>=◌, no_shift, no_number, letter)
              (shown pressed (letter_key m.caps_on code)
                ((if m.caps_on then u8 (get_ascii code + 2 ^ 8 - 32) else get_ascii code) ∷ []) m
                (letter_key-key_text m.caps_on code m.console))
        | inr no_letter ↦ elim (Bool-cases (code == 0x0E)) [
          | inl back ↦
              rw (key, ◌>>=◌, no_shift, no_number, no_letter, back)
                (shown pressed (putc x86_64 8) (8 ∷ []) m refl)
          | inr other ↦ rw (key, ◌>>=◌, no_shift, no_number, no_letter, other) (unpressed pressed m)
        ]
      ]
    ]
  ]
