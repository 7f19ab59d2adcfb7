-- ===== src/Kernel/Keyboard.antt =====
-- src/kernel/drivers/keyboard/keyboard.c and keyboard.h. A `char` is its byte.
pub mod Keys
pub mod Typing
pub mod Faults
use netclover.Prelude.{
  ℕ, ◌+◌, ◌-◌, ◌*◌, ◌/◌, ◌%◌, ◌^◌, Bool, true, false, ◌&&◌, ◌||◌, Option, none, some, List, [], ◌∷◌,
  bit_and, leb, u8, ◌==◌, if◌then◌else◌,
}
use netclover.Prelude.Steps.{Step, pure, ◌>>=◌, ◌>>◌}
use netclover.Libc.Console.{Console, putc, x86_64}
use netclover.Kernel.Machine.{Machine, Devices, Routine, keyboard_handler, inb, on_screen}
use netclover.Kernel.Interrupts.{irq_install_handler}

abbrev pub keyboard_in : ℕ
keyboard_in = 0x60

-- An entry is a pair of `scanCode` and `ascii`.
abbrev pub scancode_map : List (ℕ × ℕ)
scancode_map =
    (0x01, 0)
    ∷ (0x02, b'1')
    ∷ (0x03, b'2')
    ∷ (0x04, b'3')
    ∷ (0x05, b'4')
    ∷ (0x06, b'5')
    ∷ (0x07, b'6')
    ∷ (0x08, b'7')
    ∷ (0x09, b'8')
    ∷ (0x0A, b'9')
    ∷ (0x0B, b'0')
    ∷ (0x0C, b'-')
    ∷ (0x0D, b'=')
    ∷ (0x0E, 8)
    ∷ (0x0F, b'\t')
    ∷ (0x10, b'q')
    ∷ (0x11, b'w')
    ∷ (0x12, b'e')
    ∷ (0x13, b'r')
    ∷ (0x14, b't')
    ∷ (0x15, b'y')
    ∷ (0x16, b'u')
    ∷ (0x17, b'i')
    ∷ (0x18, b'o')
    ∷ (0x19, b'p')
    ∷ (0x1A, b'[')
    ∷ (0x1B, b']')
    ∷ (0x1C, b'\n')
    ∷ (0x1D, 0)
    ∷ (0x1E, b'a')
    ∷ (0x1F, b's')
    ∷ (0x20, b'd')
    ∷ (0x21, b'f')
    ∷ (0x22, b'g')
    ∷ (0x23, b'h')
    ∷ (0x24, b'j')
    ∷ (0x25, b'k')
    ∷ (0x26, b'l')
    ∷ (0x27, b';')
    ∷ (0x28, b'\'')
    ∷ (0x29, b'`')
    ∷ (0x2A, 0)
    ∷ (0x2B, b'\\')
    ∷ (0x2C, b'z')
    ∷ (0x2D, b'x')
    ∷ (0x2E, b'c')
    ∷ (0x2F, b'v')
    ∷ (0x30, b'b')
    ∷ (0x31, b'n')
    ∷ (0x32, b'm')
    ∷ (0x33, b',')
    ∷ (0x34, b'.')
    ∷ (0x35, b'/')
    ∷ (0x36, 0)
    ∷ (0x37, b'*')
    ∷ (0x38, 0)
    ∷ (0x39, b' ')
    ∷ (0x3A, 0)
    ∷ (0x3B, 0)
    ∷ (0x3C, 0)
    ∷ (0x3D, 0)
    ∷ (0x3E, 0)
    ∷ (0x3F, 0)
    ∷ (0x40, 0)
    ∷ (0x41, 0)
    ∷ (0x42, 0)
    ∷ (0x43, 0)
    ∷ (0x44, 0)
    ∷ (0x45, 0)
    ∷ (0x46, 0)
    ∷ (0x47, 0)
    ∷ (0x48, 0)
    ∷ (0x49, 0)
    ∷ (0x4A, b'-')
    ∷ (0x4B, 0)
    ∷ (0x4C, 0)
    ∷ (0x4D, 0)
    ∷ (0x4E, b'+')
    ∷ (0x4F, 0)
    ∷ (0x50, 0)
    ∷ (0x51, 0)
    ∷ (0x52, 0)
    ∷ (0x53, b'.')
    ∷ (0x54, 0)
    ∷ (0x55, 0)
    ∷ (0x56, 0)
    ∷ (0x57, 0)
    ∷ (0x58, 0)
    ∷ []

abbrev pub num_shift_map : List (ℕ × ℕ)
num_shift_map =
    (b'`', b'~')
    ∷ (b'1', b'!')
    ∷ (b'2', b'@')
    ∷ (b'3', b'#')
    ∷ (b'4', b'$')
    ∷ (b'5', b'%')
    ∷ (b'6', b'^')
    ∷ (b'7', b'&')
    ∷ (b'8', b'*')
    ∷ (b'9', b'(')
    ∷ (b'0', b')')
    ∷ (b'-', b'_')
    ∷ (b'=', b'+')
    ∷ []

-- The loop of `getAscii` over the rest of the map.
abbrev pub ascii_in : List (ℕ × ℕ) → ℕ → ℕ
ascii_in [] scan_code = 0
ascii_in ((code, ascii) ∷ rest) scan_code =
    if code == scan_code then ascii else ascii_in rest scan_code

unfoldable pub get_ascii : ℕ → ℕ
get_ascii scan_code = ascii_in scancode_map scan_code

-- The loop over `numShiftMap`, which goes on behind a match.
unfoldable pub put_shifted : List (ℕ × ℕ) → ℕ → Console → Console
put_shifted [] ascii c = c
put_shifted ((plain, shifted) ∷ rest) ascii c =
    put_shifted rest ascii (if plain == ascii then putc x86_64 shifted c else c)

-- The three groups of keys of the switch.
abbrev pub is_shift : ℕ → Bool
is_shift code = (code == 0x2A) || (code == 0x36)

abbrev pub is_number : ℕ → Bool
is_number code = (leb 0x02 code && leb code 0x0D) || (code == 0x29)

abbrev pub is_letter : ℕ → Bool
is_letter code =
    (leb 0x10 code && leb code 0x28) || (leb 0x2B code && leb code 0x35) || (code == 0x39)

-- What a key puts on the screen.
unfoldable pub number_key : Bool → ℕ → Console → Console
number_key caps_on code c =
    if caps_on then put_shifted num_shift_map (get_ascii code) c else putc x86_64 (get_ascii code) c

unfoldable pub letter_key : Bool → ℕ → Console → Console
letter_key caps_on code c =
    if caps_on
    then putc x86_64 (u8 (get_ascii code + 2 ^ 8 - 32)) c
    else putc x86_64 (get_ascii code) c

module _ {W : Type 0} where
  abbrev pub show_key : (Console → Console) → Step (Machine W) (Unit {0})
  show_key f m = some (tt, record m { console = f m.console })

  abbrev pub set_caps : Bool → Step (Machine W) (Unit {0})
  set_caps caps_on m = some (tt, record m { caps_on = caps_on })

  abbrev pub caps_now : Step (Machine W) Bool
  caps_now m = some (m.caps_on, m)

  -- The switch on the scan code.
  unfoldable pub key : ℕ → Bool → Step (Machine W) (Unit {0})
  key code pressed = do
    caps_on ← caps_now
    if is_shift code
        then set_caps pressed
        else if is_number code
        then (if pressed then show_key (number_key caps_on code) else pure tt)
        else if is_letter code
        then (if pressed then show_key (letter_key caps_on code) else pure tt)
        else if code == 0x0E
        then (if pressed then show_key (putc x86_64 8) else pure tt)
        else pure tt

  unfoldable pub init_keyboard : Step (Machine W) (Unit {0})
  init_keyboard = do set_caps false; irq_install_handler 1 keyboard_handler

  -- The port is read twice: for the key, and for its direction.
  unfoldable pub handle_keyboard : Devices W → Step (Machine W) (Unit {0})
  handle_keyboard devices = do
    first ← inb devices keyboard_in
    second ← inb devices keyboard_in
    key (bit_and first 0x7F) (bit_and second 0x80 == 0)
