-- ===== src/Boot/Fat/FileReading/Places.antt =====
-- From one sector of a file to the next.
use native.Mathlib.Nat.{
  mod-lt, div-add-mod, div-lt_iff_lt-mul, mul-add-div, add-mul-mod_self_left, div-eq_of_lt,
  div_self, mod-eq_of_lt, mod_self, mul-div_left,
}
use netclover.Prelude.{
  ℕ, zero, suc, ◌+◌, ◌*◌, ◌/◌, ◌%◌, ◌≤◌, ◌<◌, ◌≡◌, ◌∙◌, ◌⊎◌, inl, inr, refl, ap, arith, true, false,
  some, ◌∷◌, u32, leb, ltb, Bool-cases,
}
use netclover.Boot.Disk.{Disk, Bios}
use netclover.Boot.Fat.{FileData, FatData, advanced, copied}
use netclover.Boot.Fat.Slices.{slice, copied-slice}
use netclover.Boot.Fat.FileReading.{per_cluster, IsChain, sector_lba, file_byte, holding}

-- The next sector lies in the same cluster, or is the first of the next one.
pub next_sector-cases :
    (s per : ℕ)
    → 0 < per
    → ((s % per + 1 < per) × ((s + 1) / per ≡ s / per) × ((s + 1) % per ≡ s % per + 1))
      ⊎ ((s % per + 1 ≡ per) × ((s + 1) / per ≡ s / per + 1) × ((s + 1) % per ≡ 0))
next_sector-cases s per some_sectors =
    let whole : s + 1 ≡ per * (s / per) + (s % per + 1) = omega (arith, div-add-mod s per) in
    let whole' : s + 1 ≡ s % per + 1 + per * (s / per) = omega (arith, whole) in
    let low : s % per < per = mod-lt s some_sectors in
    let cluster : (s + 1) / per ≡ s / per + (s % per + 1) / per =
      ap (λ n. n / per) whole ∙ mul-add-div some_sectors (s / per) (s % per + 1) in
    let sector : (s + 1) % per ≡ (s % per + 1) % per =
      ap (λ n. n % per) whole' ∙ add-mul-mod_self_left (s % per + 1) per (s / per) in
    elim (Bool-cases (ltb (s % per + 1) per)) [
      | inl less ↦
          let inside : s % per + 1 < per = ground arith in
          let none_more : s / per + (s % per + 1) / per ≡ s / per =
            rw (div-eq_of_lt inside) (omega arith) in
          inl (inside, cluster ∙ none_more, sector ∙ mod-eq_of_lt inside)
      | inr more ↦
          let all : s % per + 1 ≡ per = ground (arith, low) in
          let one_more : (s % per + 1) / per ≡ 1 = ap (λ n. n / per) all ∙ div_self some_sectors in
          let none_left : (s % per + 1) % per ≡ 0 = ap (λ n. n % per) all ∙ mod_self per in
          inr (all, cluster ∙ ap (λ n. s / per + n) one_more, sector ∙ none_left)
    ]

module _ {W : Type 0} (bios : Bios W) (disk : Disk) (f : FatData) (chain : ℕ → ℕ) (clusters : ℕ)
    (h : IsChain disk f chain clusters) where
  pub cluster-inside : (s : ℕ) → s < clusters * per_cluster f → s / per_cluster f < clusters
  cluster-inside s inside = (div-lt_iff_lt-mul h.some_sectors).1 inside

  pub cluster-end : clusters * per_cluster f / per_cluster f ≡ clusters
  cluster-end = mul-div_left clusters h.some_sectors

  -- From sector `s` of the file to the next one of its chain.
  pub advanced_lem :
      (fd : FileData) (s : ℕ)
      → s < clusters * per_cluster f
      → fd.current_cluster ≡ chain (s / per_cluster f)
      → fd.current_sector ≡ s % per_cluster f
      → advanced bios disk f fd
        ≡ some (record fd {
          current_cluster = chain ((s + 1) / per_cluster f);
          current_sector = (s + 1) % per_cluster f;
        })
  unfolding advanced
  advanced_lem fd s inside at_cluster at_sector =
      let low : s % per_cluster f < per_cluster f = mod-lt s h.some_sectors in
      let next : u32 (s % per_cluster f + 1) ≡ s % per_cluster f + 1 = omega (arith, low) in
      elim (next_sector-cases s (per_cluster f) h.some_sectors) [
        | inl (less, same_cluster, next_sector) ↦
            let stays : leb (per_cluster f) (s % per_cluster f + 1) ≡ false = ground arith in
            rw (at_sector, next, stays, same_cluster, next_sector)
              (ap
                (λ c.
                  some (record fd { current_cluster = c; current_sector = s % per_cluster f + 1 }))
                at_cluster)
        | inr (full, next_cluster, first_sector) ↦
            let leaves : leb (per_cluster f) (s % per_cluster f + 1) ≡ true = ground arith in
            let link = h.linked (s / per_cluster f) (cluster-inside s inside) in
            rw (at_sector, next, leaves, at_cluster, link, next_cluster, first_sector) refl
      ]

module _ (bytes : ℕ → ℕ) (f : FatData) (chain : ℕ → ℕ) where
  -- Bytes of one sector.
  slice-file_byte :
      (s r count : ℕ)
      → r + count ≤ 512
      → slice bytes (512 * sector_lba f chain s + r) count
        ≡ slice (file_byte f chain bytes) (512 * s + r) count
  slice-file_byte s r zero inside = refl
  slice-file_byte s r (suc count) inside =
      let sector : (512 * s + r) / 512 ≡ s = omega arith in
      let place : (512 * s + r) % 512 ≡ r = omega arith in
      let next : 512 * sector_lba f chain s + r + 1 ≡ 512 * sector_lba f chain s + (r + 1) =
        omega arith in
      let next' : 512 * s + r + 1 ≡ 512 * s + (r + 1) = omega arith in
      rw (sector, place, next, next')
        (ap (λ t. bytes (512 * sector_lba f chain s + r) ∷ t)
          (slice-file_byte s (r + 1) count (omega arith)))

  -- The bytes of the file that the buffer holds from a position on.
  pub copied-file_byte :
      (fd : FileData) (p count : ℕ)
      → p % 512 + count ≤ 512
      → copied (holding f chain bytes fd (p / 512) p).buffer (p % 512) count
        ≡ some (slice (file_byte f chain bytes) p count)
  copied-file_byte fd p count inside =
      let place : 512 * (p / 512) + p % 512 ≡ p = omega arith in
      copied-slice bytes (512 * sector_lba f chain (p / 512)) 512 (p % 512) count inside
      ∙ ap some (slice-file_byte (p / 512) (p % 512) count inside)
      ∙ ap (λ q. some (slice (file_byte f chain bytes) q count)) place
