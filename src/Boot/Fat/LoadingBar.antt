-- ===== src/Boot/Fat/LoadingBar.antt =====
-- The loading bar of `FAT_Read`, and its division.
use netclover.Prelude.{
  ℕ, suc, ◌+◌, ◌-◌, ◌/◌, ◌%◌, ◌≤◌, ◌<◌, ◌≡◌, inl, inr, refl, arith, true, false, none, some, List,
  ◌++◌, length, u32, leb, ◌==◌, take, drop,
}
use netclover.Libc.Minmax.{min, min_small}
use netclover.Boot.Io.{Io, ◌>>=◌, ◌>>◌}
use netclover.Boot.Disk.{Disk, Bios}
use netclover.Boot.Disk.Geometry.{IsGeometry, capacity}
use netclover.Boot.Disk.Reading.{IsReliable, read_sectors-works}
use netclover.Boot.Fat.BootSector
use netclover.Boot.Fat.{
  FileData, FatData, root_directory_handle, copied, cluster_to_lba, advanced, loading_bar,
  read_next_sector, next_file_sector, round, read_loop,
}
use netclover.Boot.Fat.RootReading.{reading}

copied-some :
    (buffer : List ℕ) (first count : ℕ)
    → first + count ≤ length buffer
    → copied buffer first count ≡ some (take count (drop first buffer))
unfolding copied
copied-some buffer first count inside =
    let fits : leb (first + count) (length buffer) ≡ true = ground arith in rw fits refl

module _ {W : Type 0} (bios : Bios W) (disk : Disk) (f : FatData) (g : IsGeometry disk)
    (drive : disk.id < 256) (reliable : IsReliable bios disk) where
  -- The division by zero, once the next sector is read.
  pub read_next_sector-faults :
      (fd : FileData) (out : List ℕ) (n : ℕ) (io : Io W)
      → n < 512
      → u32 (cluster_to_lba f fd.current_cluster + fd.current_sector) < capacity disk
      → read_next_sector bios disk f (reading fd out n) io ≡ none
  unfolding read_next_sector loading_bar
  read_next_sector-faults fd out n io few inside =
      let (r, io', e, zeroed) = read_sectors-works bios disk _ io g inside drive reliable in
      let worked : (r.status == 0) ≡ true = ground arith in
      let no_sector : n / 512 ≡ 0 = omega arith in
      rw (read_next_sector, ◌>>=◌, e, worked, ◌>>◌, loading_bar, no_sector) refl

  next_file_sector-faults :
      (fd : FileData) (out : List ℕ) (n : ℕ) (io : Io W)
      → n < 512
      → u32 (fd.current_sector + 1) < BootSector.sectors_per_cluster f.boot_sector
      → fd.current_cluster < 0xFF8
      → u32 (cluster_to_lba f fd.current_cluster + u32 (fd.current_sector + 1)) < capacity disk
      → next_file_sector bios disk f (reading fd out n) io ≡ none
  unfolding next_file_sector advanced
  next_file_sector-faults fd out n io few same_cluster in_chain inside =
      let stays : leb (BootSector.sectors_per_cluster f.boot_sector) (u32 (fd.current_sector + 1))
          ≡ false =
        ground arith in
      let not_last : leb 0xFF8 fd.current_cluster ≡ false = ground arith in
      rw (next_file_sector, stays, not_last)
        (read_next_sector-faults (record fd { current_sector = u32 (fd.current_sector + 1) }) out n
          io few inside)

  -- A file whose buffer is full is read at the end of a sector inside a cluster of its chain,
  -- on a reliable drive that holds the next sector, of a geometry that the registers can
  -- address. If the read crosses into that sector, its first, with fewer than 512 bytes left
  -- to read, the loop of `FAT_Read` ends in a fault of the processor, the division by zero of
  -- the loading bar.
  pub read_loop-faults :
      (fd : FileData) (out : List ℕ) (n rounds : ℕ) (io : Io W)
      → (fd.handle == root_directory_handle) ≡ false
      → length fd.buffer ≡ 512
      → 0 < n
      → 512 - fd.position % 512 ≤ n
      → n < 1024 - fd.position % 512
      → u32 (fd.current_sector + 1) < BootSector.sectors_per_cluster f.boot_sector
      → fd.current_cluster < 0xFF8
      → u32 (cluster_to_lba f fd.current_cluster + u32 (fd.current_sector + 1)) < capacity disk
      → read_loop bios disk f (suc rounds) (reading fd out n) io ≡ none
  unfolding read_loop round
  read_loop-faults fd out n rounds io a_file full some_left across few same_cluster in_chain
        inside =
      let left : ℕ = 512 - fd.position % 512 in
      let count : min n left ≡ left = elim (min_small n left (omega arith) (omega arith)) [
        | inl h ↦ absurd (omega (arith, h.1))
        | inr h ↦ h.0
      ] in
      let going : (n == 0) ≡ false = ground arith in
      let all : (left == left) ≡ true = ground arith in
      let bytes = copied-some fd.buffer (fd.position % 512) left (omega arith) in
      let next =
        next_file_sector-faults (record fd { position = u32 (fd.position + left) })
          (out ++ take left (drop (fd.position % 512) fd.buffer)) (n - left) io (omega arith)
          same_cluster in_chain inside in
      rw (read_loop, going, ◌>>=◌, round, count, bytes, count, all, a_file, next) refl
