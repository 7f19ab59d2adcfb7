-- ===== src/Libc/Strings/Runs.antt =====
-- Runs of bytes: memcpy, memset, memcmp.
use netclover.Prelude.{
  ℕ, zero, suc, ◌+◌, ◌-◌, ◌≤◌, ◌<◌, ◌≡◌, ◌≢◌, ◌⊎◌, inl, inr, refl, arith, true, false, u8, sub32,
  ◌==◌, if◌then◌else◌, Bool-cases, count_up_inv, store, leb, ltb, ◌&&◌,
}
use netclover.Libc.Strings.{Memory, copy_byte, set_byte, memcpy, memset, memcmp_loop, memcmp}

-- The bytes of a run, by their place in it, and all others as before.
abbrev pub Run : Memory → ℕ → ℕ → (ℕ → ℕ) → Memory → Type 0
Run m dest n bytes m' =
    (p : ℕ) → m' p ≡ (if leb dest p && ltb p (dest + n) then bytes (p - dest) else m p)

-- The bytes of a run, and those around it.
module _ (m : Memory) (dest n : ℕ) (bytes : ℕ → ℕ) (m' : Memory) (h : Run m dest n bytes m') where
  pub Run-inside : (x : ℕ) → dest ≤ x → x < dest + n → m' x ≡ bytes (x - dest)
  Run-inside x low high =
      let inside : (leb dest x && ltb x (dest + n)) ≡ true = ground arith in rw inside at (h x)

  pub Run-outside : (x : ℕ) → (x < dest) ⊎ (dest + n ≤ x) → m' x ≡ m x
  Run-outside x apart =
      let outside : (leb dest x && ltb x (dest + n)) ≡ false = ground arith in rw outside at (h x)

extend :
    (m m' : Memory) (dest k v : ℕ) (bytes : ℕ → ℕ)
    → Run m dest k bytes m'
    → v ≡ bytes k
    → Run m dest (k + 1) bytes (store m' (dest + k) v)
extend m m' dest k v bytes h e p = elim (Bool-cases (dest + k == p)) [
  | inl here ↦
      let at : p ≡ dest + k = ground arith in
      let low : leb dest p ≡ true = ground arith in
      let high : ltb p (dest + (k + 1)) ≡ true = ground arith in
      let index : p - dest ≡ k = omega arith in rw (here, low, high, index) e
  | inr elsewhere ↦
      let same : ltb p (dest + (k + 1)) ≡ ltb p (dest + k) = ground arith in
      rw (elsewhere, same) (h p)
]

nothing : (m : Memory) (dest : ℕ) (bytes : ℕ → ℕ) → Run m dest 0 bytes m
nothing m dest bytes p =
    let outside : (leb dest p && ltb p (dest + 0)) ≡ false = ground arith in rw outside refl

-- `memcpy` of a run that does not begin below the destination, or ends before it, puts the bytes that
-- the run had at the call in the destination, and changes no other byte. A destination below the run
-- may overlap it.
pub memcpy-Run :
    (dest src n : ℕ) (m : Memory)
    → (dest ≤ src) ⊎ (src + n ≤ dest)
    → Run m dest n (λ i. m (src + i)) (memcpy dest src n m)
unfolding memcpy
memcpy-Run dest src n m apart =
    count_up_inv (copy_byte dest src) (λ k m'. Run m dest k (λ i. m (src + i)) m') n
      (λ k m' below h.
        let outside : (leb dest (src + k) && ltb (src + k) (dest + k)) ≡ false = elim apart [
          | inl above ↦ ground (arith, above)
          | inr before ↦ ground (arith, before, below)
        ] in
        let fresh : m' (src + k) ≡ m (src + k) = rw outside at (h (src + k)) in
        extend m m' dest k (m' (src + k)) (λ i. m (src + i)) h fresh)
      n 0 m (omega arith) (nothing m dest (λ i. m (src + i)))

-- `memset` puts the low byte of the value in the run, and changes no other byte.
pub memset-Run :
    (dest value n : ℕ) (m : Memory) → Run m dest n (λ _. u8 value) (memset dest value n m)
unfolding memset
memset-Run dest value n m =
    count_up_inv (set_byte dest value) (λ k m'. Run m dest k (λ _. u8 value) m') n
      (λ k m' below h. extend m m' dest k (u8 value) (λ _. u8 value) h refl) n 0 m (omega arith)
      (nothing m dest (λ _. u8 value))

-- Two runs agree in their first bytes.
abbrev pub Agree : Memory → ℕ → ℕ → ℕ → Type 0
Agree m p1 p2 zero = Unit {0}
Agree m p1 p2 (suc n) = Agree m p1 p2 n × (m (p1 + n) ≡ m (p2 + n))

-- The runs agree and the result is 0, or `k` is the first place where they differ and the result is
-- the difference of the bytes there.
abbrev pub Compared : Memory → ℕ → ℕ → ℕ → ℕ → Type 0
Compared m p1 p2 n result =
    (Agree m p1 p2 n × (result ≡ 0))
    ⊎ ((k : ℕ) × (k < n)
        × Agree m p1 p2 k
        × (m (p1 + k) ≢ m (p2 + k))
        × (result ≡ sub32 (m (p1 + k)) (m (p2 + k))))

memcmp_loop-Compared :
    (m : Memory) (p1 p2 left i n : ℕ)
    → i + left ≡ n
    → Agree m p1 p2 i
    → Compared m p1 p2 n (memcmp_loop m p1 p2 left i)
unfolding memcmp_loop
memcmp_loop-Compared m p1 p2 zero i n e h = let same : n ≡ i = omega arith in inl (rw same h, refl)
memcmp_loop-Compared m p1 p2 (suc left) i n e h = elim (Bool-cases (m (p1 + i) == m (p2 + i))) [
  | inl equal ↦
      let next : suc i ≡ i + 1 = omega arith in
      let agreed : Agree m p1 p2 (i + 1) = rw⁻¹ next (h, ground arith) in
      rw equal (memcmp_loop-Compared m p1 p2 left (i + 1) n (omega arith) agreed)
  | inr differ ↦ inr (i, omega arith, h, ground arith, rw differ refl)
]

-- `memcmp` compares: its result is 0 if the runs agree, and else the difference of the first bytes
-- that differ.
pub memcmp-Compared : (p1 p2 n : ℕ) (m : Memory) → Compared m p1 p2 n (memcmp p1 p2 n m)
unfolding memcmp
memcmp-Compared p1 p2 n m = memcmp_loop-Compared m p1 p2 n 0 n (omega arith) tt
