-- ===== src/Prelude/Bits.antt =====
-- Bit operations of C on unsigned words as arithmetic, at every width.
use Prim.Native.Nat.{min, max, digits, bitwise, bit_and, bit_or, bit_and-bitwise, bit_or-bitwise}
use native.Mathlib.Nat.{
  pow-suc, one-le-pow, mod-lt, mod-eq_of_lt, div-add-mod', add-mul-mod_self_right,
}
use netclover.Prelude.{
  ℕ, zero, suc, ◌+◌, ◌-◌, ◌*◌, ◌/◌, ◌%◌, ◌^◌, ◌≤◌, ◌<◌, ◌≡◌, refl, ap, ◌∙◌, arith,
}

-- `bitwise` bounds its recursion by the first number; any bound from there on serves.
module _ (rest : ℕ → ℕ) (op : ℕ → ℕ → ℕ) where
  digits-bound : (k l x y : ℕ) → x ≤ k → x ≤ l → digits rest op k x y ≡ digits rest op l x y
  digits-bound zero zero x y p q = refl
  digits-bound (suc k) zero zero y p q = refl
  digits-bound (suc k) zero (suc x) y p q = elim q [ ]
  digits-bound zero (suc l) zero y p q = refl
  digits-bound zero (suc l) (suc x) y p q = elim p [ ]
  digits-bound (suc k) (suc l) zero y p q = refl
  digits-bound (suc k) (suc l) (suc x) y p q =
      let higher = digits-bound k l (suc x / 2) (y / 2) (omega arith) (omega arith) in
      ap (λ t. t * 2 + op (suc x % 2) (y % 2)) higher

  lowest_digit :
      (x y : ℕ)
      → bitwise rest op (suc x) y ≡ bitwise rest op (suc x / 2) (y / 2) * 2 + op (suc x % 2) (y % 2)
  lowest_digit x y =
      let enough : suc x / 2 ≤ suc x / 2 = omega arith in
      ap (λ t. t * 2 + op (suc x % 2) (y % 2))
        (digits-bound x (suc x / 2) (suc x / 2) (y / 2) (omega arith) enough)

zero-bit_or : (b : ℕ) → bit_or 0 b ≡ b
zero-bit_or b = bit_or-bitwise 0 b

zero-bit_and : (b : ℕ) → bit_and 0 b ≡ 0
zero-bit_and b = bit_and-bitwise 0 b

bit_or-digit : (a b : ℕ) → bit_or a b ≡ bit_or (a / 2) (b / 2) * 2 + max (a % 2) (b % 2)
bit_or-digit zero b = omega (arith, zero-bit_or b, zero-bit_or (b / 2))
bit_or-digit (suc a) b = omega (
  arith,
  bit_or-bitwise (suc a) b,
  bit_or-bitwise (suc a / 2) (b / 2),
  lowest_digit (λ y. y) max a b,
)

bit_and-digit : (a b : ℕ) → bit_and a b ≡ bit_and (a / 2) (b / 2) * 2 + min (a % 2) (b % 2)
bit_and-digit zero b = omega (arith, zero-bit_and b, zero-bit_and (b / 2))
bit_and-digit (suc a) b = omega (
  arith,
  bit_and-bitwise (suc a) b,
  bit_and-bitwise (suc a / 2) (b / 2),
  lowest_digit (λ y. 0) min a b,
)

bit_or-zero_within : (n a : ℕ) → a ≤ n → bit_or a 0 ≡ a
bit_or-zero_within n zero h = refl
bit_or-zero_within zero (suc a) h = elim h [ ]
bit_or-zero_within (suc n) (suc a) h =
    omega (arith, bit_or-digit (suc a) 0, bit_or-zero_within n (suc a / 2) (omega arith))

bit_and-zero_within : (n a : ℕ) → a ≤ n → bit_and a 0 ≡ 0
bit_and-zero_within n zero h = refl
bit_and-zero_within zero (suc a) h = elim h [ ]
bit_and-zero_within (suc n) (suc a) h =
    omega (arith, bit_and-digit (suc a) 0, bit_and-zero_within n (suc a / 2) (omega arith))

shifted_suc : (q k : ℕ) → q * 2 ^ suc k ≡ q * 2 ^ k * 2
shifted_suc q k = rw pow-suc (omega arith)

-- `(q << k) | r` is a sum if `r` fits in `k` bits.
pub bit_or-shifted : (k q r : ℕ) → r < 2 ^ k → bit_or (q * 2 ^ k) r ≡ q * 2 ^ k + r
bit_or-shifted zero q r h =
    let e : r ≡ 0 = omega arith in
    rw e (omega (arith, bit_or-zero_within (q * 1) (q * 1) (omega arith)))
bit_or-shifted (suc k) q r h =
    let half : r / 2 < 2 ^ k = omega (arith, pow-suc 2 k) in
    rw shifted_suc (ground (arith, bit_or-digit (q * 2 ^ k * 2) r, bit_or-shifted k q (r / 2) half))

-- The remainder by `p * 2` from the remainder by `p` of the half.
mod-double : (p a : ℕ) → 0 < p → a % (p * 2) ≡ a / 2 % p * 2 + a % 2
mod-double p a h =
    let low : ℕ = a / 2 % p * 2 + a % 2 in
    let bound : a / 2 % p < p = mod-lt (a / 2) h in
    let split : a ≡ low + a / 2 / p * (p * 2) =
      omega (arith, ap (λ (t : ℕ). t * 2) (div-add-mod' (a / 2) p)) in
    let shifted : a % (p * 2) ≡ (low + a / 2 / p * (p * 2)) % (p * 2) =
      ap (λ t. t % (p * 2)) split in
    shifted ∙ add-mul-mod_self_right low (a / 2 / p) (p * 2) ∙ mod-eq_of_lt (omega arith)

-- `a & (2 ^ k - 1)` is the remainder by `2 ^ k`.
pub bit_and-low : (k a : ℕ) → bit_and a (2 ^ k - 1) ≡ a % 2 ^ k
bit_and-low zero a = omega (arith, bit_and-zero_within a a (omega arith))
bit_and-low (suc k) a =
    let pos : 0 < 2 ^ k = one-le-pow k 2 (omega arith) in
    let half : (2 ^ suc k - 1) / 2 ≡ 2 ^ k - 1 = omega (arith, pow-suc 2 k) in
    let odd : (2 ^ suc k - 1) % 2 ≡ 1 = omega (arith, pow-suc 2 k) in
    let ih : bit_and (a / 2) ((2 ^ suc k - 1) / 2) ≡ a / 2 % 2 ^ k =
      rw half (bit_and-low k (a / 2)) in
    let whole : a % 2 ^ suc k ≡ a / 2 % 2 ^ k * 2 + a % 2 = rw pow-suc (mod-double (2 ^ k) a pos) in
    omega (arith, bit_and-digit a (2 ^ suc k - 1), ih, odd, whole)
