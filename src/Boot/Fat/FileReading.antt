-- ===== src/Boot/Fat/FileReading.antt =====
-- The chain of clusters of a file, and the places of its bytes on the disk.
pub mod Places
pub mod Sectors
pub mod Rounds
pub mod Loop
pub mod Faults
use netclover.Prelude.{
  ℕ, suc, ◌+◌, ◌-◌, ◌*◌, ◌/◌, ◌%◌, ◌≤◌, ◌<◌, ◌≡◌, some, ltb, if◌then◌else◌, List,
}
use netclover.Boot.Disk.{Disk}
use netclover.Boot.Disk.Geometry.{capacity}
use netclover.Boot.Fat.BootSector
use netclover.Boot.Fat.{FileData, FatData, Reading, next_cluster}
use netclover.Boot.Fat.Slices.{slice}

abbrev pub per_cluster : FatData → ℕ
per_cluster f = BootSector.byte_at f.boot_sector 13

-- The first sector of a cluster: the data section begins with cluster 2.
abbrev pub cluster_start : FatData → ℕ → ℕ
cluster_start f cluster = f.data_section_lba + (cluster - 2) * per_cluster f

-- Cluster `c` of the file is `chain c`, from 2 on, and there are so many of them, all on the disk.
pub record IsChain (disk : Disk) (f : FatData) (chain : ℕ → ℕ) (clusters : ℕ) : Type 0 where
  pub some_sectors : 0 < per_cluster f
  pub linked : (c : ℕ) → c < clusters → next_cluster f.fat (chain c) ≡ some (chain (c + 1))
  pub inner : (c : ℕ) → c < clusters → chain c < 0xFF8
  pub numbered : (c : ℕ) → c < clusters → 2 ≤ chain c
  pub ended : 0xFF8 ≤ chain clusters
  pub inside :
      (c k : ℕ) → c < clusters → k < per_cluster f → cluster_start f (chain c) + k < capacity disk

module _ (f : FatData) (chain : ℕ → ℕ) where
  -- Where sector `s` of the file lies.
  abbrev pub sector_lba : ℕ → ℕ
  sector_lba s = cluster_start f (chain (s / per_cluster f)) + s % per_cluster f

  -- The bytes of the file, on a disk of these bytes.
  abbrev pub file_byte : (ℕ → ℕ) → ℕ → ℕ
  file_byte bytes x = bytes (512 * sector_lba (x / 512) + x % 512)

  -- The file at a position, with sector `s` of it in its buffer.
  abbrev pub holding : (ℕ → ℕ) → FileData → ℕ → ℕ → FileData
  holding bytes fd s p = record fd {
    position = p;
    current_cluster = chain (p / 512 / per_cluster f);
    current_sector = p / 512 % per_cluster f;
    buffer = slice bytes (512 * sector_lba s) 512;
  }

  -- The file as it stands at a position: at the end of its chain, it holds the last sector.
  abbrev pub file_at : ℕ → (ℕ → ℕ) → FileData → ℕ → FileData
  file_at clusters bytes fd p =
      let total = clusters * per_cluster f in
      holding bytes fd (if ltb (p / 512) total then p / 512 else total - 1) p

abbrev pub file_reading : FileData → List ℕ → ℕ → ℕ → Reading
file_reading fd out byte_count max_sector = record {
  fd = fd;
  out = out;
  byte_count = byte_count;
  max_sector = max_sector;
}
