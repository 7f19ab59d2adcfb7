-- ===== src/Libc/Minmax.antt =====
-- src/libc/netclover/minmax
use netclover.Prelude.{
  ℕ, ◌+◌, ◌^◌, ◌≤◌, ◌<◌, ◌≡◌, ◌⊎◌, inl, inr, refl, arith, u32, ltb, Bool-cases, slt32,
  if◌then◌else◌,
}

-- The arguments are ints, so that an unsigned one from `2 ^ 31` on counts as negative.
abbrev pub min : ℕ → ℕ → ℕ
min a b = if slt32 a b then a else b

abbrev pub max : ℕ → ℕ → ℕ
max a b = if slt32 b a then a else b

-- `min` of numbers that are not negative as ints.
pub min_small :
    (a b : ℕ) → a < 2 ^ 31 → b < 2 ^ 31 → ((min a b ≡ a) × (a < b)) ⊎ ((min a b ≡ b) × (b ≤ a))
min_small a b ha hb =
    let l : u32 (a + 2 ^ 31) ≡ a + 2 ^ 31 = omega arith in
    let r : u32 (b + 2 ^ 31) ≡ b + 2 ^ 31 = omega arith in
    elim (Bool-cases (ltb (a + 2 ^ 31) (b + 2 ^ 31))) [
      | inl less ↦ inl (rw (l, r, less) refl, ground arith)
      | inr more ↦ inr (rw (l, r, more) refl, ground arith)
    ]
