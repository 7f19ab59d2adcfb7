-- ===== src/Libc/Console/Terminal/Cursor.antt =====
-- The cursor of the display, by the writes to the ports of its controller: 0x3D4 selects a
-- register, 0x3D5 writes it, and registers 0x0E and 0x0F hold the two bytes of the place.
use netclover.Prelude.{
  ℕ, ◌+◌, ◌*◌, ◌/◌, ◌%◌, ◌^◌, ◌<◌, ◌≡◌, List, [], ◌∷◌, arith, ◌==◌, if◌then◌else◌,
}
use netclover.Prelude.Bits.{bit_and-low}
use netclover.Libc.Console.{Console, setcursor}

pub record Crtc : Type 0 where
  pub register : ℕ
  pub high : ℕ
  pub low : ℕ

abbrev pub receive : ℕ → ℕ → Crtc → Crtc
receive port value d =
    if port == 0x3D4
    then record d { register = value }
    else if port == 0x3D5
    then if d.register == 0x0E
      then record d { high = value }
      else if d.register == 0x0F
      then record d { low = value }
      else d
    else d

-- The latest write comes first.
abbrev pub crtc : List (ℕ × ℕ) → Crtc
crtc [] = record { register = 0; high = 0; low = 0 }
crtc ((port, value) ∷ rest) = receive port value (crtc rest)

abbrev pub cursor : List (ℕ × ℕ) → ℕ
cursor ports = let d = crtc ports in d.high * 256 + d.low

-- `setcursor` puts the cursor at the place of column `x` in row `y`.
pub cursor-setcursor :
    (x y : ℕ) (s : Console) → x < 80 → y < 800 → cursor (setcursor x y s).ports ≡ 80 * y + x
unfolding setcursor
cursor-setcursor x y s hx hy =
    omega
      (arith, bit_and-low 8 ((y * 80 + x) % 2 ^ 32), bit_and-low 8 ((y * 80 + x) % 2 ^ 32 / 2 ^ 8))
