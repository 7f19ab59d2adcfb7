-- ===== src/Boot/Fat/Mount.antt =====
-- src/boot/stage2/libs/fat.c: FAT_Initialize
pub mod Mounted
use netclover.Prelude.{
  ℕ, ◌+◌, ◌-◌, ◌*◌, ◌/◌, ◌^◌, true, false, List, [], ◌∷◌, ◌==◌, if◌then◌else◌, leb, u32, codes, map,
}
use netclover.Libc.Printf.{num}
use netclover.Boot.Io.{Io, Step, pure, fault, ◌>>=◌, ◌>>◌}
use netclover.Boot.Logger.{error, literal, log}
use netclover.Boot.Disk.{Disk, Bios, read_sectors}
use netclover.Boot.Fat.BootSector
use netclover.Boot.Fat.{FileData, FatData, fat_log_id, root_directory_handle, entry_size, overwrite}
use netclover.Boot.Fat.Files.{Session, on_io, fat_data_now, put_fat_data}

-- `sizeof(FAT_Data)`: a sector, and eleven files of 544 bytes each.
abbrev pub fat_data_size : ℕ
fat_data_size = 512 + 11 * 544

abbrev pub memory_fat_addr : ℕ
memory_fat_addr = 0x20000

abbrev pub memory_fat_size : ℕ
memory_fat_size = 0x10000

-- The number of bytes of the FAT, as the code computes it.
abbrev pub fat_bytes : List ℕ → ℕ
fat_bytes boot = u32 (BootSector.bytes_per_sector boot * BootSector.sectors_per_fat boot)

abbrev pub root_lba : List ℕ → ℕ
root_lba boot =
    u32 (
      BootSector.reserved_sectors boot
      + BootSector.sectors_per_fat boot * BootSector.fat_count boot)

abbrev pub root_size : List ℕ → ℕ
root_size boot = u32 (entry_size * BootSector.dir_entry_count boot)

-- The root directory as it is set up, before its first sector is read.
unfoldable pub root_file : List ℕ → FileData → FileData
root_file boot fd = record fd {
  handle = root_directory_handle;
  is_directory = true;
  position = 0;
  size = root_size boot;
  opened = true;
  first_cluster = root_lba boot;
  current_cluster = root_lba boot;
  current_sector = 0;
}

abbrev pub closed : FileData → FileData
closed fd = record fd { opened = false }

module _ {W : Type 0} where
  pub failed_with : List ℕ → Step (Session W) ℕ
  failed_with text = do on_io (log error fat_log_id (literal text) []); pure 1

  -- The rest behind the root directory. A division by zero is a fault of the processor.
  pub set_data_section : Step (Session W) ℕ
  set_data_section = do
    f ← fat_data_now
    let per_sector = BootSector.bytes_per_sector f.boot_sector
    if per_sector == 0 then fault else (do
      put_fat_data (record f {
        data_section_lba =
            u32 (
              root_lba f.boot_sector + u32 (root_size f.boot_sector + per_sector - 1) / per_sector);
        opened_files = map closed f.opened_files;
      })
      pure 0)

module _ {W : Type 0} (bios : Bios W) (disk : Disk) where
  pub read_root : Step (Session W) ℕ
  read_root = do
    f ← fat_data_now
    let fd = root_file f.boot_sector f.root_directory
    reply ← on_io (read_sectors bios disk (root_lba f.boot_sector) 1)
    put_fat_data
        (record f { root_directory = record fd { buffer = overwrite fd.buffer reply.bytes } })
    if reply.status == 0 then set_data_section else failed_with (codes "Failed to read root!")

  pub read_fat : Step (Session W) ℕ
  read_fat = do
    f ← fat_data_now
    reply ← on_io (
        read_sectors bios disk (BootSector.reserved_sectors f.boot_sector)
          (BootSector.sectors_per_fat f.boot_sector))
    put_fat_data (record f { fat = overwrite f.fat reply.bytes })
    if reply.status == 0 then read_root else failed_with (codes "Failed to read FAT!")

  pub check_size : Step (Session W) ℕ
  check_size = do
    f ← fat_data_now
    let needed = u32 (fat_data_size + fat_bytes f.boot_sector)
    if leb memory_fat_size needed
        then (do
          on_io (
              log error fat_log_id
                (literal (codes "Not enough memory to read FAT! (Required %u but only have %u)"))
                (num needed ∷ num memory_fat_size ∷ []))
          pure 1)
        else read_fat

  pub initialize : Step (Session W) ℕ
  initialize = do
    f ← fat_data_now
    reply ← on_io (read_sectors bios disk 0 1)
    let boot = overwrite f.boot_sector reply.bytes
    put_fat_data (record f { boot_sector = boot })
    if reply.status == 0
        then (if BootSector.signature boot == 0x29
            then check_size
            else failed_with (codes "Bad bootsector signature!"))
        else failed_with (codes "Failed to read bootsector!")
