-- ===== src/Libc/Division.antt =====
-- src/libc/stdio/printf.c: `__udivdi3` and `__umoddi3`, which the 32-bit build calls for `/` and
-- `%` of `unsigned long long`.
pub mod Exact
use netclover.Prelude.{ℕ, zero, suc, ◌-◌, ◌*◌, ◌/◌, ◌^◌, bit_and, bit_or, u64, leb, if◌then◌else◌}

-- One round at bit `i`: the remainder with the next bit of `a` shifted in.
abbrev pub shift_in : ℕ → ℕ → ℕ → ℕ
shift_in a i remainder = bit_or (u64 (remainder * 2)) (bit_and (a / 2 ^ i) 1)

-- The rounds `i - 1, ..., 0` of the loop of `__udivdi3`.
pub udiv_loop : ℕ → ℕ → ℕ → ℕ → ℕ → ℕ
udiv_loop zero a divisor quotient remainder = quotient
udiv_loop (suc i) a divisor quotient remainder =
    let next = shift_in a i remainder in
    let fits = leb divisor next in
    udiv_loop i a divisor (if fits then bit_or quotient (2 ^ i) else quotient)
      (if fits then next - divisor else next)

-- The rounds `i - 1, ..., 0` of the loop of `__umoddi3`.
pub umod_loop : ℕ → ℕ → ℕ → ℕ → ℕ
umod_loop zero a divisor remainder = remainder
umod_loop (suc i) a divisor remainder =
    let next = shift_in a i remainder in
    umod_loop i a divisor (if leb divisor next then next - divisor else next)

unfoldable pub udivdi3 : ℕ → ℕ → ℕ
unfolding udiv_loop
udivdi3 a b = udiv_loop 64 a b 0 0

unfoldable pub umoddi3 : ℕ → ℕ → ℕ
unfolding umod_loop
umoddi3 a b = umod_loop 64 a b 0
