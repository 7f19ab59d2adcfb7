-- ===== src/Libc/Division/Exact.antt =====
-- The shift-and-subtract loops compute the quotient and the remainder.
use native.Mathlib.Nat.{
  div-div-eq-div-mul, pow-suc, pow-succ', one-le-pow, div-le_self, div-eq_of_lt-le, div-add-mod',
}
use netclover.Prelude.{
  ℕ, zero, suc, ◌+◌, ◌-◌, ◌*◌, ◌/◌, ◌%◌, ◌^◌, ◌<◌, ◌≡◌, ◌∙◌, inl, inr, ap, arith, bit_and, bit_or,
  u64, leb, Bool-cases, leb→le,
}
use netclover.Prelude.Bits.{bit_or-shifted, bit_and-low}
use netclover.Libc.Division.{shift_in, udiv_loop, umod_loop, udivdi3, umoddi3}

-- The bits of `a` from `i` on, from those above.
next_bits : (a i : ℕ) → a / 2 ^ i ≡ a / 2 ^ suc i * 2 + a / 2 ^ i % 2
next_bits a i = omega (arith, div-div-eq-div-mul a (2 ^ i) 2, ap (λ (t : ℕ). a / t) (pow-suc 2 i))

-- Where the remainder is small, nothing is shifted out.
shift_in-eq : (a i r : ℕ) → r < 2 ^ 63 → shift_in a i r ≡ r * 2 + a / 2 ^ i % 2
shift_in-eq a i r h =
    let bit : bit_and (a / 2 ^ i) 1 ≡ a / 2 ^ i % 2 = bit_and-low 1 (a / 2 ^ i) in
    let whole : u64 (r * 2) ≡ r * 2 = omega arith in
    rw (bit, whole) (bit_or-shifted 1 r (a / 2 ^ i % 2) (omega arith))

-- A quotient bit is set below the bits that are there.
set_bit : (k i : ℕ) → bit_or (k * 2 ^ suc i) (2 ^ i) ≡ (k * 2 + 1) * 2 ^ i
set_bit k i =
    let room : 2 ^ i < 2 ^ suc i = omega (arith, pow-suc 2 i, one-le-pow i 2 (omega arith)) in
    bit_or-shifted (suc i) k (2 ^ i) room ∙ omega (arith, ap (λ (t : ℕ). k * t) (pow-suc 2 i))

keep_bits : (k i : ℕ) → k * 2 ^ suc i ≡ k * 2 * 2 ^ i
keep_bits k i = omega (arith, ap (λ (t : ℕ). k * t) (pow-suc 2 i))

half_fits : (a i : ℕ) → a < 2 ^ 64 → a / 2 ^ suc i < 2 ^ 63
half_fits a i h = omega (
  arith,
  ap (λ (t : ℕ). a / t) (pow-succ' 2 i),
  div-div-eq-div-mul a 2 (2 ^ i),
  div-le_self (a / 2) (2 ^ i),
)

-- With `quotient = k << i`: the bits of `a` from `i` on, divided, are `k` and the remainder.
udiv_loop-lem :
    (i a d k r : ℕ)
    → a < 2 ^ 64
    → k * d + r ≡ a / 2 ^ i
    → r < d
    → udiv_loop i a d (k * 2 ^ i) r ≡ a / d
unfolding udiv_loop
udiv_loop-lem zero a d k r fits e lt =
    let quotient : a / d ≡ k = div-eq_of_lt-le d (omega arith) (omega arith) in
    omega (arith, quotient)
udiv_loop-lem (suc i) a d k r fits e lt =
    let next = shift_in-eq a i r (omega (arith, half_fits a i fits)) in
    elim (Bool-cases (leb d (shift_in a i r))) [
      | inl more ↦
          rw (more, set_bit k i)
            (udiv_loop-lem i a d (k * 2 + 1) (shift_in a i r - d) fits
              (omega (arith, next, next_bits a i, leb→le _ _ more))
              (omega (arith, next, leb→le _ _ more)))
      | inr less ↦
          rw (less, keep_bits k i)
            (udiv_loop-lem i a d (k * 2) (shift_in a i r) fits (omega (arith, next, next_bits a i))
              (ground arith))
    ]

umod_loop-lem :
    (i a d k r : ℕ) → a < 2 ^ 64 → k * d + r ≡ a / 2 ^ i → r < d → umod_loop i a d r ≡ a % d
unfolding umod_loop
umod_loop-lem zero a d k r fits e lt =
    let quotient : a / d ≡ k = div-eq_of_lt-le d (omega arith) (omega arith) in
    omega (arith, div-add-mod' a d, ap (λ (t : ℕ). t * d) quotient)
umod_loop-lem (suc i) a d k r fits e lt =
    let next = shift_in-eq a i r (omega (arith, half_fits a i fits)) in
    let bits = next_bits a i in
    elim (Bool-cases (leb d (shift_in a i r))) [
      | inl more ↦ rw more (
          umod_loop-lem i a d (k * 2 + 1) (shift_in a i r - d) fits
            (omega (arith, next, bits, leb→le _ _ more)) (omega (arith, next, leb→le _ _ more)))
      | inr less ↦ rw less (
          umod_loop-lem i a d (k * 2) (shift_in a i r) fits (omega (arith, next, bits))
            (ground arith))
    ]

high_bits : (a b : ℕ) → a < 2 ^ 64 → 0 * b + 0 ≡ a / 2 ^ 64
high_bits a b h = omega arith

-- For every dividend of 64 bits and every divisor but 0, of any size, the two loops return the true
-- quotient and remainder: no bit of the 64-bit remainder is lost by its shifts.
pub udivdi3-umoddi3 : (a b : ℕ) → a < 2 ^ 64 → 0 < b → (udivdi3 a b ≡ a / b) × (umoddi3 a b ≡ a % b)
unfolding udivdi3 umoddi3
udivdi3-umoddi3 a b fits pos = (
  udiv_loop-lem 64 a b 0 0 fits (high_bits a b fits) pos,
  umod_loop-lem 64 a b 0 0 fits (high_bits a b fits) pos,
)
