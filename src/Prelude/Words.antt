-- ===== src/Prelude/Words.antt =====
-- The unsigned widths of C, and `int` as its bit pattern: a number below `2 ^ 32`.
use netclover.Prelude.Tests.{ltb, if◌then◌else◌}
use Prim.Native.Nat.{ℕ, ◌+◌, ◌-◌, ◌%◌, ◌^◌}
use mathlib.Core.Bool.{Bool}

-- The casts and the wrap-around of unsigned arithmetic.
abbrev pub u8 : ℕ → ℕ
u8 n = n % 2 ^ 8

abbrev pub u16 : ℕ → ℕ
u16 n = n % 2 ^ 16

abbrev pub u32 : ℕ → ℕ
u32 n = n % 2 ^ 32

abbrev pub u64 : ℕ → ℕ
u64 n = n % 2 ^ 64

-- `a - b` of unsigned ints, and of ints whose bit patterns these are.
abbrev pub sub32 : ℕ → ℕ → ℕ
sub32 a b = u32 (a + 2 ^ 32 - b)

abbrev pub sub64 : ℕ → ℕ → ℕ
sub64 a b = u64 (a + 2 ^ 64 - b)

-- `a < b` of ints: adding `2 ^ 31` to the pattern turns the signed order into the unsigned one.
abbrev pub slt32 : ℕ → ℕ → Bool
slt32 a b = ltb (u32 (a + 2 ^ 31)) (u32 (b + 2 ^ 31))

-- An int converted to 64 bits keeps its sign.
abbrev pub sign_extend : ℕ → ℕ
sign_extend n = if ltb n (2 ^ 31) then n else n + (2 ^ 64 - 2 ^ 32)
