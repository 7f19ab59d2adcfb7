-- ===== src/Boot/Fat/Chain.antt =====
-- The entries of the FAT, and the chain of clusters that they make.
use netclover.Prelude.{
  ℕ, zero, suc, ◌+◌, ◌*◌, ◌/◌, ◌%◌, ◌^◌, ◌<◌, ◌≡◌, refl, ap, arith, some, List, [], ◌∷◌, ◌++◌, All,
  get_elem?, u8, u32, if◌then◌else◌, ◌==◌,
}
use netclover.Prelude.Bits.{bit_and-low}
use netclover.Boot.Fat.{next_cluster}

-- The bytes of a FAT with these entries of 12 bits: two entries to three bytes.
abbrev pub pack : List ℕ → List ℕ
pack [] = []
pack (a ∷ []) = a % 256 ∷ (a / 256 ∷ [])
pack (a ∷ b ∷ rest) = a % 256 ∷ ((a / 256 + b % 16 * 16) ∷ (b / 16 ∷ pack rest))

-- What `next_cluster` makes of two bytes.
abbrev entry_of : ℕ → ℕ → ℕ → ℕ
entry_of i low high = if i % 2 == 0 then (low + high * 256) % 4096 else (low + high * 256) / 16

-- The two bytes that hold entry `i`.
abbrev Holds : List ℕ → ℕ → ℕ → Type 0
Holds bytes i e =
    (low : ℕ) × (high : ℕ) × (get_elem? bytes (i * 3 / 2) ≡ some low)
    × (get_elem? bytes (i * 3 / 2 + 1) ≡ some high)
    × (low < 256)
    × (high < 256)
    × (entry_of i low high ≡ e)

pack-Holds :
    (entries : List ℕ) (i e : ℕ)
    → All (λ n. n < 4096) entries
    → get_elem? entries i ≡ some e
    → Holds (pack entries) i e
pack-Holds [] i e h at = absurd (ground arith)
pack-Holds (a ∷ []) zero e h at =
    (a % 256, a / 256, refl, refl, omega arith, omega (arith, h.0), ground arith)
pack-Holds (a ∷ []) (suc i) e h at = absurd (ground arith)
pack-Holds (a ∷ b ∷ rest) zero e h at =
    (a % 256, a / 256 + b % 16 * 16, refl, refl, omega arith, omega (arith, h.0), ground arith)
pack-Holds (a ∷ b ∷ rest) (suc zero) e h at = (
  a / 256 + b % 16 * 16,
  b / 16,
  refl,
  refl,
  omega (arith, h.0),
  omega (arith, h.1.0),
  ground arith,
)
pack-Holds (a ∷ b ∷ rest) (suc (suc i)) e (ha, (hb, h)) at =
    let (low, high, el, eh, hl, hh, v) = pack-Holds rest i e h at in
    let step : suc (suc i) * 3 / 2 ≡ suc (suc (suc (i * 3 / 2))) = omega arith in
    let next : suc (suc i) * 3 / 2 + 1 ≡ suc (suc (suc (i * 3 / 2 + 1))) = omega arith in
    let even : suc (suc i) % 2 ≡ i % 2 = omega arith in
    (low, high, rw step el, rw next eh, hl, hh, rw even v)

get_elem?-append :
    (xs ys : List ℕ) (i x : ℕ) → get_elem? xs i ≡ some x → get_elem? (xs ++ ys) i ≡ some x
get_elem?-append [] ys i x h = absurd (ground arith)
get_elem?-append (y ∷ xs) ys zero x h = h
get_elem?-append (y ∷ xs) ys (suc i) x h = get_elem?-append xs ys i x h

-- On a FAT that packs entries of 12 bits, two to three bytes, with any bytes behind them,
-- `FAT_NextCluster` returns the entry of every cluster below 2 ^ 30 that has one, even or odd.
pub next_cluster-pack :
    (entries rest : List ℕ) (current entry : ℕ)
    → All (λ n. n < 4096) entries
    → current < 2 ^ 30
    → get_elem? entries current ≡ some entry
    → next_cluster (pack entries ++ rest) current ≡ some entry
unfolding next_cluster
next_cluster-pack entries rest current entry h small at =
    let (low, high, el, eh, hl, hh, v) = pack-Holds entries current entry h at in
    let index : u32 (current * 3) / 2 ≡ current * 3 / 2 = omega arith in
    let l = get_elem?-append (pack entries) rest (current * 3 / 2) low el in
    let r = get_elem?-append (pack entries) rest (current * 3 / 2 + 1) high eh in
    let word : u8 low + u8 high * 2 ^ 8 ≡ low + high * 256 = omega arith in
    rw (next_cluster, index, l, index, r, word) (ap some (rw (bit_and-low 12 (low + high * 256)) v))
