-- ===== src/Boot/Fat/FileReading/Faults.antt =====
-- The loading bar of `FAT_Read` without a sector left, on a file along its chain.
use mathlib.Core.Path.{subst}
use netclover.Prelude.{
  ℕ, zero, suc, ltb, ◌+◌, ◌-◌, ◌*◌, ◌/◌, ◌%◌, ◌^◌, ◌≤◌, ◌<◌, ◌≡◌, ◌∙◌, refl, sym, arith, true,
  false, none, List, [], ◌++◌, leb, ◌==◌,
}
use netclover.Boot.Io.{Io}
use netclover.Boot.Disk.{Disk, Bios}
use netclover.Boot.Disk.Geometry.{IsGeometry, capacity}
use netclover.Boot.Disk.Reading.{IsFaithful, IsReliable}
use netclover.Boot.Fat.{FileData, FatData, root_directory_handle, next_file_sector, read_loop}
use netclover.Boot.Fat.LoadingBar.{read_next_sector-faults}
use netclover.Boot.Fat.RootReading.{sectors_of}
use netclover.Boot.Fat.RootReading.Loop.{loop_faults}
use netclover.Boot.Fat.Slices.{slice}
use netclover.Boot.Fat.FileReading.{per_cluster, IsChain, file_byte, holding, file_at, file_reading}
use netclover.Boot.Fat.FileReading.Places.{advanced_lem, cluster-inside}
use netclover.Boot.Fat.FileReading.Rounds.{round-next_file_sector}
use netclover.Boot.Fat.FileReading.Sectors.{sector-inside, sector-placed}

module _ {W : Type 0} (bios : Bios W) (disk : Disk) (f : FatData) (chain : ℕ → ℕ) (clusters : ℕ)
    (h : IsChain disk f chain clusters) (bytes : ℕ → ℕ) (g : IsGeometry disk)
    (drive : disk.id < 256) (faithful : IsFaithful bios disk (sectors_of bytes))
    (reliable : IsReliable bios disk) where
  next_chain_sector-faults :
      (fd : FileData) (s n : ℕ) (out : List ℕ) (io : Io W)
      → n < 512
      → s + 1 < clusters * per_cluster f
      → fd.current_cluster ≡ chain (s / per_cluster f)
      → fd.current_sector ≡ s % per_cluster f
      → next_file_sector bios disk f (file_reading fd out n 0) io ≡ none
  unfolding next_file_sector
  next_chain_sector-faults fd s n out io few within at_cluster at_sector =
      let advance =
        advanced_lem bios disk f chain clusters h fd s (omega arith) at_cluster at_sector in
      let in_chain : leb 0xFF8 (chain ((s + 1) / per_cluster f)) ≡ false = ground (
        arith,
        h.inner ((s + 1) / per_cluster f)
            (cluster-inside bios disk f chain clusters h (s + 1) within),
      ) in
      let inside =
        sector-inside bios disk f chain clusters h bytes g drive faithful reliable (s + 1) within in
      let inside' =
        subst (λ l. l < capacity disk)
          (sym (
            sector-placed bios disk f chain clusters h bytes g drive faithful reliable (s + 1)
              within))
          inside in
      rw (next_file_sector, advance, in_chain)
        (read_next_sector-faults bios disk f g drive reliable
          (record fd {
            current_cluster = chain ((s + 1) / per_cluster f);
            current_sector = (s + 1) % per_cluster f;
          })
          out n io few inside')

  -- A read that crosses into another sector with less than a sector left behind it.
  pub read_loop-file_faults :
      (fd : FileData) (rounds p n : ℕ) (io : Io W)
      → 0 < rounds
      → (fd.handle == root_directory_handle) ≡ false
      → p + n < 2 ^ 31
      → 512 - p % 512 ≤ n
      → n - (512 - p % 512) < 512
      → p / 512 + 1 < clusters * per_cluster f
      → read_loop bios disk f rounds (file_reading (file_at f chain clusters bytes fd p) [] n 0) io
        ≡ none
  read_loop-file_faults fd zero p n io fuel a_file bound across few within = absurd (omega arith)
  read_loop-file_faults fd (suc rounds) p n io fuel a_file bound across few within =
      let in_chain : ltb (p / 512) (clusters * per_cluster f) ≡ true = ground arith in
      let left : ℕ = 512 - p % 512 in
      let here =
        round-next_file_sector bios disk f chain clusters h bytes g drive faithful reliable fd p n 0
          left [] io a_file bound refl across in
      let fault =
        next_chain_sector-faults
          (record (holding f chain bytes fd (p / 512) p) { position = p + left }) (p / 512)
          (n - left) ([] ++ slice (file_byte f chain bytes) p left) io few within refl refl in
      rw in_chain (loop_faults bios disk f rounds _ io (omega arith) (here ∙ fault))
