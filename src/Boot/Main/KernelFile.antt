-- ===== src/Boot/Main/KernelFile.antt =====
-- The file of the kernel as `FAT_Open` opens it, at the start of its chain of clusters.
use mathlib.Core.Bool.{not}
use mathlib.Core.Path.{subst}
use native.Mathlib.Nat.{zero-div, zero-mod, mod-lt, div-lt_iff_lt-mul}
use netclover.Prelude.{
  ℕ, ◌+◌, ◌-◌, ◌*◌, ◌/◌, ◌%◌, ◌^◌, ◌≤◌, ◌<◌, ◌≡◌, ◌∙◌, refl, sym, ap, arith, true, false, u32,
  sub32, bit_and, ltb, ◌==◌, if◌then◌else◌, length,
}
use netclover.Boot.Disk.{Disk, Bios}
use netclover.Boot.Disk.Geometry.{IsGeometry, capacity}
use netclover.Boot.Fat.{FileData, FatData, DirectoryEntry, overwrite}
use netclover.Boot.Fat.RootReading.{sectors_of}
use netclover.Boot.Fat.Slices.{slice, overwrite-full}
use netclover.Boot.Fat.FileReading.{per_cluster, IsChain, cluster_start, sector_lba, file_at}
use netclover.Boot.Fat.FileReading.Sectors.{capacity-bound}
use netclover.Boot.Fat.Files.Opening.{first_lba, opened_file}

-- The entry is that of a file, not a directory, and the chain begins at its first cluster and has room
-- for it.
pub record IsFileOf (disk : Disk) (f : FatData) (chain : ℕ → ℕ) (clusters : ℕ)
    (entry : DirectoryEntry) : Type 0 where
  pub links : IsChain disk f chain clusters
  pub begins : u32 (entry.first_cluster_low + entry.first_cluster_high * 2 ^ 16) ≡ chain 0
  pub some_clusters : 0 < clusters * per_cluster f
  pub no_directory : bit_and entry.attributes 0x10 ≡ 0
  pub fits : entry.size ≤ 512 * (clusters * per_cluster f)
  pub bound : entry.size < 2 ^ 31

module _ {W : Type 0} (bios : Bios W) (disk : Disk) (f : FatData) (chain : ℕ → ℕ) (clusters : ℕ)
    (entry : DirectoryEntry) (h : IsFileOf disk f chain clusters entry) (bytes : ℕ → ℕ)
    (old : FileData) (full : length old.buffer ≡ 512) (g : IsGeometry disk) where
  -- The file at its start, by the first handle.
  abbrev pub kernel_file : FileData
  kernel_file = record old {
    buffer = slice bytes (512 * sector_lba f chain 0) 512;
    handle = 0;
    is_directory = false;
    position = 0;
    size = entry.size;
    opened = true;
    first_cluster = chain 0;
    current_cluster = chain 0;
    current_sector = 0;
  }

  abbrev total : ℕ
  total = clusters * per_cluster f

  first_sector : sector_lba f chain 0 ≡ cluster_start f (chain 0)
  first_sector =
      let cluster : 0 / per_cluster f ≡ 0 = zero-div (per_cluster f) in
      let sector : 0 % per_cluster f ≡ 0 = zero-mod (per_cluster f) in
      rw (cluster, sector) (omega arith)

  one : 0 < clusters
  one =
      subst (λ c. c < clusters) (zero-div (per_cluster f))
        ((div-lt_iff_lt-mul h.links.some_sectors).1 h.some_clusters)

  first_inside : sector_lba f chain 0 < capacity disk
  first_inside =
      h.links.inside (0 / per_cluster f) (0 % per_cluster f)
        ((div-lt_iff_lt-mul h.links.some_sectors).1 h.some_clusters) (mod-lt 0 h.links.some_sectors)

  opened_lba : first_lba bios disk bytes f 0 old entry ≡ sector_lba f chain 0
  opened_lba =
      let start : cluster_start f (chain 0) < capacity disk =
        subst (λ l. l < capacity disk) first_sector first_inside in
      let small = capacity-bound disk g in
      let low = h.links.numbered 0 one in
      let inner = h.links.inner 0 one in
      let counted : sub32 (chain 0) 2 ≡ chain 0 - 2 = omega (arith, low, inner) in
      ap (λ c. u32 (f.data_section_lba + sub32 c 2 * per_cluster f)) h.begins
      ∙ ap (λ n. u32 (f.data_section_lba + n * per_cluster f)) counted
      ∙ omega (arith, start, small)
      ∙ sym first_sector

  pub first_lba-inside : first_lba bios disk bytes f 0 old entry < capacity disk
  first_lba-inside = subst (λ l. l < capacity disk) (sym opened_lba) first_inside

  opened_buffer :
      overwrite old.buffer (sectors_of bytes (first_lba bios disk bytes f 0 old entry) 1)
      ≡ slice bytes (512 * sector_lba f chain 0) 512
  opened_buffer =
      overwrite-full bytes (512 * first_lba bios disk bytes f 0 old entry) 512 old.buffer full
      ∙ ap (λ l. slice bytes (512 * l) 512) opened_lba

  pub opened_file-kernel_file : opened_file bios disk bytes f 0 old entry ≡ kernel_file
  opened_file-kernel_file =
      let file : not (bit_and entry.attributes 0x10 == 0) ≡ false =
        ground (arith, h.no_directory) in
      λ i. record old {
        buffer = opened_buffer i;
        handle = 0;
        is_directory = file i;
        position = 0;
        size = entry.size;
        opened = true;
        first_cluster = h.begins i;
        current_cluster = h.begins i;
        current_sector = 0;
      }

  pub kernel_file-file_at : kernel_file ≡ file_at f chain clusters bytes kernel_file 0
  kernel_file-file_at =
      let inside : ltb 0 total ≡ true = ground (arith, h.some_clusters) in
      let held : 0 ≡ (if ltb 0 total then 0 else total - 1) = rw inside refl in
      let cluster : 0 ≡ 0 / per_cluster f = sym (zero-div (per_cluster f)) in
      let sector : 0 ≡ 0 % per_cluster f = sym (zero-mod (per_cluster f)) in
      λ i. record kernel_file {
        buffer = slice bytes (512 * sector_lba f chain (held i)) 512;
        current_cluster = chain (cluster i);
        current_sector = sector i;
      }
