-- ===== src/Kernel/Keyboard/Typing.antt =====
-- What a sequence of keys types.
use netclover.Prelude.{
  ℕ, ◌<◌, ◌≡◌, ◌∙◌, refl, sym, ap, arith, Bool, true, false, ◌&&◌, some, List, [], ◌∷◌, ◌++◌, ltb,
  ◌==◌, if◌then◌else◌,
}
use netclover.Prelude.Tables.{passes_below, passes_below_sound}
use netclover.Prelude.Steps.{Step, pure, ◌>>=◌, ◌>>◌}
use netclover.Libc.Console.{putc_all, x86_64}
use netclover.Libc.Console.Terminal.Text.{putc_all-append}
use netclover.Kernel.Machine.{Machine}
use netclover.Kernel.Keyboard.{is_shift, get_ascii, key}
use netclover.Kernel.Keyboard.Keys.{us_text, follows_layout, key_text, keyed, key-key_text}

abbrev pub same_text : List ℕ → List ℕ → Bool
same_text [] [] = true
same_text (x ∷ xs) (y ∷ ys) = (x == y) && same_text xs ys
same_text xs ys = false

same_text→≡ : (xs ys : List ℕ) → same_text xs ys ≡ true → xs ≡ ys
same_text→≡ [] [] e = refl
same_text→≡ [] (y ∷ ys) e = absurd (ground arith)
same_text→≡ (x ∷ xs) [] e = absurd (ground arith)
same_text→≡ (x ∷ xs) (y ∷ ys) e =
    let head : x ≡ y = ground arith in
    let rest : same_text xs ys ≡ true = ground arith in
    rw head (ap (λ t. y ∷ t) (same_text→≡ xs ys rest))

abbrev agrees : Bool → ℕ → Bool
agrees caps_on code =
    if follows_layout caps_on code
    then same_text (key_text caps_on code) (us_text caps_on code)
    else true

test_holds : (a b : Bool) → (if a then b else true) ≡ true → a ≡ true → b ≡ true
test_holds true b e h = e
test_holds false b e h = absurd (ground (arith, h))

key_text-us_text :
    (caps_on : Bool) (code : ℕ)
    → code < 128
    → follows_layout caps_on code ≡ true
    → key_text caps_on code ≡ us_text caps_on code
unfolding passes_below get_ascii
key_text-us_text true code small follows =
    let agreed = passes_below_sound (agrees true) 128 {i = code} refl small in
    same_text→≡ (key_text true code) (us_text true code) (
      test_holds (follows_layout true code) (same_text (key_text true code) (us_text true code))
        agreed follows)
key_text-us_text false code small follows =
    let agreed = passes_below_sound (agrees false) 128 {i = code} refl small in
    same_text→≡ (key_text false code) (us_text false code) (
      test_holds (follows_layout false code) (same_text (key_text false code) (us_text false code))
        agreed follows)

-- A key by its scan code, and whether it goes down.
abbrev pub KeyEvent : Type 0
KeyEvent = ℕ × Bool

abbrev pub shift_after : Bool → List KeyEvent → Bool
shift_after caps_on [] = caps_on
shift_after caps_on ((code, pressed) ∷ events) =
    shift_after (if is_shift code then pressed else caps_on) events

abbrev pub typed_text : Bool → List KeyEvent → List ℕ
typed_text caps_on [] = []
typed_text caps_on ((code, pressed) ∷ events) =
    (if pressed then us_text caps_on code else [])
    ++ typed_text (if is_shift code then pressed else caps_on) events

-- The scan codes have seven bits, and a key that goes down is one at which the kernel follows the
-- layout.
abbrev pub all_follow : Bool → List KeyEvent → Bool
all_follow caps_on [] = true
all_follow caps_on ((code, pressed) ∷ events) =
    ltb code 128
    && ((if pressed then follows_layout caps_on code else true)
        && all_follow (if is_shift code then pressed else caps_on) events)

both : (a b : Bool) → (a && b) ≡ true → (a ≡ true) × (b ≡ true)
both true b e = (refl, e)
both false b e = absurd (ground arith)

module _ {W : Type 0} where
  pub press_all : List KeyEvent → Step (Machine W) (Unit {0})
  press_all [] = pure tt
  press_all ((code, pressed) ∷ events) = do key code pressed; press_all events

  -- The machine behind keys.
  abbrev pub typed : Bool → List ℕ → Machine W → Machine W
  typed caps_on text m = record m { caps_on = caps_on; console = putc_all x86_64 text m.console }

  typed-us_text :
      (code : ℕ) (pressed : Bool) (m : Machine W)
      → code < 128
      → (if pressed then follows_layout m.caps_on code else true) ≡ true
      → keyed code pressed (λ caps_on. key_text caps_on code) m
        ≡ typed
            (if is_shift code then pressed else m.caps_on)
            (if pressed then us_text m.caps_on code else [])
            m
  unfolding putc_all
  typed-us_text code true m small follows =
      ap (λ text. typed (if is_shift code then true else m.caps_on) text m)
        (key_text-us_text m.caps_on code small follows)
  typed-us_text code false m small follows = refl

  -- Any keys go down or up, one after the other, with scan codes of seven bits, of which the ones that go
  -- down are keys at which the kernel follows the layout, by Shift as it is then. Behind them, the
  -- screen shows the text that they type by the US layout, and whether Shift is held is what the last
  -- of its keys said.
  pub press_all-typed :
      (events : List KeyEvent) (m : Machine W)
      → all_follow m.caps_on events ≡ true
      → press_all events m
        ≡ some (tt, typed (shift_after m.caps_on events) (typed_text m.caps_on events) m)
  unfolding press_all putc_all
  press_all-typed [] m follow = refl
  press_all-typed ((code, pressed) ∷ events) m follow =
      let follows = if pressed then follows_layout m.caps_on code else true in
      let others = all_follow (if is_shift code then pressed else m.caps_on) events in
      let (low, both_follow) = both (ltb code 128) (follows && others) follow in
      let (first, later) = both follows others both_follow in
      let small : code < 128 = ground arith in
      let text = if pressed then us_text m.caps_on code else [] in
      let caps_on = if is_shift code then pressed else m.caps_on in
      let next = typed caps_on text m in
      let here : key code pressed m ≡ some (tt, next) =
        key-key_text code pressed m
        ∙ ap (λ (m' : Machine W). some (tt, m')) (typed-us_text code pressed m small first) in
      let rest = press_all-typed events next later in
      rw (press_all, ◌>>=◌, here)
        (rest
          ∙ ap (λ c. some (tt, record m { caps_on = shift_after caps_on events; console = c }))
              (sym (putc_all-append x86_64 text (typed_text caps_on events) m.console)))
