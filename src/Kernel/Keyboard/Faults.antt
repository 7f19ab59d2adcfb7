-- ===== src/Kernel/Keyboard/Faults.antt =====
-- What `keyboardHandler` reads at the port, and the keys at which it leaves the layout.
use netclover.Prelude.{
  ℕ, ◌%◌, ◌<◌, ◌≡◌, ◌≢◌, ◌∙◌, refl, sym, ap, arith, Bool, true, false, ◌||◌, some, List, [], ◌∷◌,
  bit_and, ltb, u8, ◌==◌, if◌then◌else◌,
}
use netclover.Prelude.Bits.{bit_and-low}
use netclover.Prelude.Tables.{passes_below, passes_below_sound}
use netclover.Prelude.Steps.{◌>>=◌}
use netclover.Kernel.Machine.{Machine, Devices, inb}
use netclover.Kernel.Keyboard.{is_shift, get_ascii, key, handle_keyboard}
use netclover.Kernel.Keyboard.Keys.{us_text, follows_layout, key_text, key-key_text}
use netclover.Kernel.Keyboard.Typing.{same_text, typed}

abbrev top_bit_read : ℕ → Bool
top_bit_read b =
    if ltb b 128 then bit_and b 0x80 == 0 else (if bit_and b 0x80 == 0 then false else true)

bit_and-top : (b : ℕ) → b < 256 → (bit_and b 0x80 == 0) ≡ ltb b 128
unfolding passes_below
bit_and-top b small =
    let read = passes_below_sound top_bit_read 256 {i = b} refl small in ground (arith, read)

same_text_refl : (xs : List ℕ) → same_text xs xs ≡ true
same_text_refl [] = refl
same_text_refl (x ∷ xs) = ground (arith, same_text_refl xs)

same_text→≢ : (xs ys : List ℕ) → same_text xs ys ≡ false → xs ≢ ys
same_text→≢ xs ys e h =
    let same : same_text xs ys ≡ true = ap (λ t. same_text xs t) (sym h) ∙ same_text_refl xs in
    absurd (ground (arith, e, same))

abbrev departs : Bool → ℕ → Bool
departs caps_on code =
    if follows_layout caps_on code
    then true
    else (if same_text (key_text caps_on code) (us_text caps_on code) || is_shift code
        then false
        else true)

module _ {W : Type 0} (devices : Devices W) where
  -- A device that gives one byte at the keyboard's port, however often it is read, is taken at its word:
  -- `keyboardHandler` handles the key of the lower seven bits, which goes down if the top bit is clear.
  pub handle_keyboard-key :
      (b : ℕ) (m : Machine W)
      → b < 256
      → ((ports : List (ℕ × ℕ)) (w : W) → devices.read_port 0x60 ports w ≡ (b, w))
      → handle_keyboard devices m ≡ key (b % 128) (ltb b 128) m
  unfolding handle_keyboard inb
  handle_keyboard-key b m small answers =
      let byte : u8 b ≡ b = omega arith in
      let code : bit_and b 0x7F ≡ b % 128 = bit_and-low 7 b in
      rw
        (
          handle_keyboard,
          ◌>>=◌,
          inb,
          answers m.console.ports m.world,
          byte,
          code,
          answers m.console.ports m.world,
          byte,
          bit_and-top b small,
        )
        refl

split_test :
    (a b c : Bool)
    → (if a then true else (if b || c then false else true)) ≡ true
    → a ≡ false
    → (b ≡ false) × (c ≡ false)
split_test true b c e h = absurd (ground (arith, h))
split_test false true c e h = absurd (ground (arith, e))
split_test false false true e h = absurd (ground (arith, e))
split_test false false false e h = (refl, refl)

departs_at :
    (caps_on : Bool) (code : ℕ)
    → code < 128
    → follows_layout caps_on code ≡ false
    → (same_text (key_text caps_on code) (us_text caps_on code) ≡ false) × (is_shift code ≡ false)
unfolding passes_below get_ascii
departs_at true code small off =
    split_test (follows_layout true code) (same_text (key_text true code) (us_text true code))
      (is_shift code) (passes_below_sound (departs true) 128 {i = code} refl small) off
departs_at false code small off =
    split_test (follows_layout false code) (same_text (key_text false code) (us_text false code))
      (is_shift code) (passes_below_sound (departs false) 128 {i = code} refl small) off

module _ {W : Type 0} where
  -- At every key of seven bits at which the kernel does not follow the US layout, and it goes down, the
  -- text that it types is another one than the layout's: those are Ctrl, which types a character, Tab
  -- and the keypad's `*`, `-`, `+` and `.`, which type none, and with Shift the punctuation behind the
  -- letters, Enter and Space.
  pub key-departs :
      (code : ℕ) (m : Machine W)
      → code < 128
      → follows_layout m.caps_on code ≡ false
      → (text : List ℕ) × (key code true m ≡ some (tt, typed m.caps_on text m))
        × (text ≢ us_text m.caps_on code)
  key-departs code m small off =
      let (differ, no_shift) = departs_at m.caps_on code small off in
      let unchanged : (if is_shift code then true else m.caps_on) ≡ m.caps_on = rw no_shift refl in
      (
        key_text m.caps_on code,
        key-key_text code true m
            ∙ ap (λ caps_on. some (tt, typed caps_on (key_text m.caps_on code) m)) unchanged,
        same_text→≢ (key_text m.caps_on code) (us_text m.caps_on code) differ,
      )
