-- ===== src/Boot/Fat/FileReading/Rounds.antt =====
-- The rounds of `FAT_Read` on a file.
use netclover.Prelude.{
  ℕ, ◌+◌, ◌-◌, ◌*◌, ◌/◌, ◌%◌, ◌^◌, ◌≤◌, ◌<◌, ◌≡◌, ◌∙◌, inl, inr, refl, sym, ap, arith, true, false,
  some, List, ◌++◌, u32, ◌==◌,
}
use netclover.Libc.Minmax.{min, min_small}
use netclover.Boot.Io.{Io}
use netclover.Boot.Disk.{Disk, Bios}
use netclover.Boot.Disk.Geometry.{IsGeometry}
use netclover.Boot.Disk.Reading.{IsFaithful, IsReliable}
use netclover.Boot.Fat.{
  FileData, FatData, goes_on, stops, root_directory_handle, next_file_sector, round,
}
use netclover.Boot.Fat.RootReading.{sectors_of}
use netclover.Boot.Fat.Slices.{slice}
use netclover.Boot.Fat.FileReading.{
  per_cluster, IsChain, sector_lba, file_byte, holding, file_reading,
}
use netclover.Boot.Fat.FileReading.Places.{copied-file_byte}
use netclover.Boot.Fat.FileReading.Sectors.{bar_total, next_file_sector_lem, next_file_sector-end}

module _ {W : Type 0} (bios : Bios W) (disk : Disk) (f : FatData) (chain : ℕ → ℕ) (clusters : ℕ)
    (h : IsChain disk f chain clusters) (bytes : ℕ → ℕ) (g : IsGeometry disk)
    (drive : disk.id < 256) (faithful : IsFaithful bios disk (sectors_of bytes))
    (reliable : IsReliable bios disk) where
  -- A round that ends inside the buffer.
  pub file_round_inside :
      (fd : FileData) (p n m : ℕ) (out : List ℕ) (io : Io W)
      → p + n < 2 ^ 32
      → n < 512 - p % 512
      → round bios disk f (file_reading (holding f chain bytes fd (p / 512) p) out n m) io
        ≡ some (
          goes_on (
              file_reading
                (holding f chain bytes fd ((p + n) / 512) (p + n))
                (out ++ slice (file_byte f chain bytes) p n)
                0
                m),
          io,
        )
  unfolding round
  file_round_inside fd p n m out io bound inside =
      let count : min n (512 - p % 512) ≡ n =
        elim (min_small n (512 - p % 512) (omega arith) (omega arith)) [
          | inl h ↦ h.0
          | inr h ↦ absurd (omega (arith, h.1))
        ] in
      let same : (p + n) / 512 ≡ p / 512 = omega arith in
      let place : u32 (p + n) ≡ p + n = omega arith in
      let left : n - n ≡ 0 = omega arith in
      let more : (512 - p % 512 == n) ≡ false = ground arith in
      rw
        (
          round,
          count,
          copied-file_byte bytes f chain fd p n (omega arith),
          count,
          more,
          place,
          left,
          same,
        )
        refl

  pub round-next_file_sector :
      (fd : FileData) (p n m left : ℕ) (out : List ℕ) (io : Io W)
      → (fd.handle == root_directory_handle) ≡ false
      → p + n < 2 ^ 31
      → 512 - p % 512 ≡ left
      → left ≤ n
      → round bios disk f (file_reading (holding f chain bytes fd (p / 512) p) out n m) io
        ≡ next_file_sector bios disk f
            (file_reading
              (record (holding f chain bytes fd (p / 512) p) { position = p + left })
              (out ++ slice (file_byte f chain bytes) p left)
              (n - left)
              m)
            io
  unfolding round
  round-next_file_sector fd p n m left out io a_file bound e across =
      let count : min n left ≡ left = elim (min_small n left (omega arith) (omega arith)) [
        | inl h ↦ absurd (omega (arith, h.1))
        | inr h ↦ h.0
      ] in
      let place : u32 (p + left) ≡ p + left = omega arith in
      let all : (left == left) ≡ true = ground arith in
      rw
        (
          round,
          e,
          count,
          copied-file_byte bytes f chain fd p left (omega arith),
          e,
          count,
          all,
          place,
          a_file,
        )
        refl

  -- A round that ends with the buffer reads the next sector of the chain.
  pub file_round_across :
      (fd : FileData) (p n m left : ℕ) (out : List ℕ) (io : Io W)
      → (fd.handle == root_directory_handle) ≡ false
      → p + n < 2 ^ 31
      → 512 - p % 512 ≡ left
      → left ≤ n
      → p / 512 + 1 < clusters * per_cluster f
      → 0 < bar_total m (n - left)
      → (io' : Io W) × (round bios disk f
            (file_reading (holding f chain bytes fd (p / 512) p) out n m)
            io
          ≡ some (
            goes_on (
                file_reading
                  (holding f chain bytes fd ((p + left) / 512) (p + left))
                  (out ++ slice (file_byte f chain bytes) p left)
                  (n - left)
                  (bar_total m (n - left))),
            io',
          ))
  file_round_across fd p n m left out io a_file bound e across within some_sector =
      let next : (p + left) / 512 ≡ p / 512 + 1 = omega arith in
      let (io', e') =
        next_file_sector_lem bios disk f chain clusters h bytes g drive faithful reliable
          (holding f chain bytes fd (p / 512) p) (p / 512) (p + left)
          (512 * sector_lba f chain (p / 512)) (n - left) m
          (out ++ slice (file_byte f chain bytes) p left) io within refl refl refl next
          some_sector in
      (
        io',
        round-next_file_sector fd p n m left out io a_file bound e across
            ∙ e'
            ∙ ap
                (λ s. some (
                  goes_on (
                      file_reading (holding f chain bytes fd s (p + left))
                        (out ++ slice (file_byte f chain bytes) p left) (n - left)
                        (bar_total m (n - left))),
                  io',
                ))
                (sym next),
      )

  -- A round that ends with the last sector of the chain.
  pub file_round_end :
      (fd : FileData) (p n m left : ℕ) (out : List ℕ) (io : Io W)
      → (fd.handle == root_directory_handle) ≡ false
      → p + n < 2 ^ 31
      → 512 - p % 512 ≡ left
      → left ≤ n
      → p / 512 + 1 ≡ clusters * per_cluster f
      → round bios disk f (file_reading (holding f chain bytes fd (p / 512) p) out n m) io
        ≡ some (
          stops (
              file_reading
                (record (holding f chain bytes fd (p / 512) (p + left)) { size = p + left })
                (out ++ slice (file_byte f chain bytes) p left)
                (n - left)
                m),
          io,
        )
  file_round_end fd p n m left out io a_file bound e across last =
      let next : (p + left) / 512 ≡ p / 512 + 1 = omega arith in
      round-next_file_sector fd p n m left out io a_file bound e across
      ∙ next_file_sector-end bios disk f chain clusters h bytes g drive faithful reliable
          (record (holding f chain bytes fd (p / 512) p) { position = p + left }) (p / 512)
          (n - left) m (out ++ slice (file_byte f chain bytes) p left) io last refl refl
      ∙ rw next refl
