-- ===== src/Boot/Main/Load.antt =====
-- What stands in the memory behind the loop that loads the kernel.
pub mod Reads
pub mod Chunks
pub mod Faults
use netclover.Prelude.{
  ℕ, zero, suc, ◌+◌, ◌-◌, ◌*◌, ◌≤◌, ◌<◌, ◌≡◌, ◌∙◌, ◌⊎◌, inl, inr, refl, ap, arith, true, false,
  List, [], ◌∷◌, store, leb, ltb, ◌&&◌, ◌==◌, if◌then◌else◌, Bool-cases, length,
}
use netclover.Libc.Strings.{Memory, memcpy}
use netclover.Libc.Strings.Runs.{Run, Run-inside, Run-outside, memcpy-Run}
use netclover.Boot.Fat.Mount.{memory_fat_addr, memory_fat_size}
use netclover.Boot.Fat.Slices.{slice, length-slice}
use netclover.Boot.Main.{memory_load_kernel, memory_load_size, memory_kernel_addr, put_bytes, moved}

put_bytes-Run :
    (byte : ℕ → ℕ) (p first n : ℕ) (m : Memory)
    → Run m p n (λ i. byte (first + i)) (put_bytes p (slice byte first n) m)
put_bytes-Run byte p first zero m q =
    let outside : (leb p q && ltb q (p + 0)) ≡ false = ground arith in rw outside refl
put_bytes-Run byte p first (suc n) m q =
    let rest = put_bytes-Run byte (p + 1) (first + 1) n (store m p (byte first)) q in
    elim (Bool-cases (p == q)) [
      | inl here ↦
          let before : (leb (p + 1) q && ltb q (p + 1 + n)) ≡ false = ground arith in
          let inside : (leb p q && ltb q (p + suc n)) ≡ true = ground arith in
          let index : first + (q - p) ≡ first = ground arith in
          rest ∙ rw (before, inside, here, index) refl
      | inr elsewhere ↦ elim (Bool-cases (leb (p + 1) q && ltb q (p + 1 + n))) [
        | inl inside ↦
            let inside' : (leb p q && ltb q (p + suc n)) ≡ true = ground arith in
            let index : first + 1 + (q - (p + 1)) ≡ first + (q - p) = ground arith in
            rest ∙ rw (inside, inside') (ap byte index)
        | inr outside ↦
            let outside' : (leb p q && ltb q (p + suc n)) ≡ false = ground arith in
            rest ∙ rw (outside, outside', elsewhere) refl
      ]
    ]

-- An address behind the buffer for loading that is not on the screen, nor one of so many bytes
-- of the kernel.
abbrev pub Outside : ℕ → ℕ → Type 0
Outside count x =
    ((0x40000 ≤ x) × (x < 0xB8000))
    ⊎ (((0xB8000 + 2 * 80 * 25 ≤ x) × (x < 0x100000)) ⊎ (0x100000 + count ≤ x))

-- The buffer for loading lies behind the memory of the file system, and before the screen, which
-- lies before the kernel.
abbrev pub AreApart : Type 0
AreApart =
    (memory_fat_addr + memory_fat_size ≤ memory_load_kernel)
    × (memory_load_kernel + memory_load_size ≤ 0xB8000)
    × (0xB8000 + 2 * 80 * 25 ≤ memory_kernel_addr)

-- So many bytes of a file stand at 0x100000, the bytes outside are as before, and what is loaded has
-- passed over no other part of the memory.
abbrev pub Loaded : Memory → (ℕ → ℕ) → ℕ → Memory → Type 0
Loaded m byte count m' =
    ((i : ℕ) → i < count → m' (0x100000 + i) ≡ byte i)
    × ((x : ℕ) → Outside count x → m' x ≡ m x)
    × AreApart

pub Loaded-nothing : (m : Memory) (byte : ℕ → ℕ) → Loaded m byte 0 m
Loaded-nothing m byte =
    (λ i h. absurd (omega arith), λ x h. refl, (omega arith, omega arith, omega arith))

-- A read of the next bytes of the file, moved behind those that are loaded.
pub moved-Loaded :
    (m m₁ : Memory) (byte : ℕ → ℕ) (first n : ℕ)
    → n ≤ memory_load_size
    → Loaded m byte first m₁
    → Loaded m byte (first + n) (moved (memory_kernel_addr + first) (slice byte first n) m₁)
moved-Loaded m m₁ byte first n fits (loaded, kept, apart) =
    let dest : ℕ = memory_kernel_addr + first in
    let filled : Memory = put_bytes memory_load_kernel (slice byte first n) m₁ in
    let size = length-slice byte first n in
    let run : Run filled dest n (λ i. filled (memory_load_kernel + i))
        (moved dest (slice byte first n) m₁) =
      rw size (memcpy-Run dest memory_load_kernel n filled (inr (omega arith))) in
    let read : Run m₁ memory_load_kernel n (λ i. byte (first + i)) filled =
      put_bytes-Run byte memory_load_kernel first n m₁ in
    let after : Memory = moved dest (slice byte first n) m₁ in
    let untouched = Run-outside filled dest n (λ i. filled (memory_load_kernel + i)) after run in
    let touched = Run-inside filled dest n (λ i. filled (memory_load_kernel + i)) after run in
    let unread = Run-outside m₁ memory_load_kernel n (λ i. byte (first + i)) filled read in
    (
      λ i below. elim (Bool-cases (ltb i first)) [
        | inl before ↦
            let low : i < first = ground arith in
            untouched (memory_kernel_addr + i) (inl (omega arith))
            ∙ unread (memory_kernel_addr + i) (inr (omega arith))
            ∙ loaded i low
        | inr behind ↦
            let high : first ≤ i = ground arith in
            let offset : first
                  + (memory_load_kernel + (memory_kernel_addr + i - dest) - memory_load_kernel)
                ≡ i =
              omega arith in
            touched (memory_kernel_addr + i) (omega arith) (omega arith)
            ∙ Run-inside m₁ memory_load_kernel n (λ i. byte (first + i)) filled read
                (memory_load_kernel + (memory_kernel_addr + i - dest)) (omega arith) (omega arith)
            ∙ ap byte offset
      ],
      λ x outside.
          untouched x (elim outside [
            | inl low ↦ inl (omega arith)
            | inr (inl between) ↦ inl (omega arith)
            | inr (inr high) ↦ inr (omega arith)
          ])
          ∙ unread x (elim outside [
            | inl low ↦ inr (omega arith)
            | inr (inl between) ↦ inr (omega arith)
            | inr (inr high) ↦ inr (omega arith)
          ])
          ∙ kept x (elim outside [
            | inl low ↦ inl low
            | inr (inl between) ↦ inr (inl between)
            | inr (inr high) ↦ inr (inr (omega arith))
          ]),
      apart,
    )
