-- ===== src/Boot/Fat/Mount/Mounted.antt =====
-- What `FAT_Initialize` leaves in the memory of the file system.
use mathlib.Core.Path.{subst}
use native.Mathlib.Nat.{mul-le-mul, mul_comm}
use netclover.Prelude.{
  ℕ, ◌+◌, ◌-◌, ◌*◌, ◌/◌, ◌≤◌, ◌<◌, ◌≡◌, ◌∙◌, refl, sym, ap, arith, true, false, some, List, ◌==◌,
  leb, u32, length, map,
}
use netclover.Boot.Io.{Io, ◌>>=◌}
use netclover.Boot.Disk.{Disk, Bios}
use netclover.Boot.Disk.Geometry.{IsGeometry, capacity}
use netclover.Boot.Disk.Reading.{IsFaithful, IsReliable, read_sectors-reliable}
use netclover.Boot.Fat.BootSector
use netclover.Boot.Fat.{FileData, FatData, root_directory_handle, overwrite}
use netclover.Boot.Fat.RootReading.{sectors_of, root_at}
use netclover.Boot.Fat.Slices.{slice, overwrite-full}
use netclover.Boot.Fat.Mount.{
  fat_data_size, fat_bytes, root_lba, root_size, root_file, closed, set_data_section, read_root,
  read_fat, check_size, initialize,
}

-- Where the root directory begins: behind the reserved sectors and all copies of the FAT.
abbrev pub root_start : List ℕ → ℕ
root_start boot =
    BootSector.word_at boot 14 + BootSector.byte_at boot 16 * BootSector.word_at boot 22

-- Its bytes, 32 for an entry.
abbrev pub root_bytes : List ℕ → ℕ
root_bytes boot = 32 * BootSector.word_at boot 17

-- The data section begins behind all of its sectors, the last of which it may fill in part.
abbrev pub data_start : List ℕ → ℕ
data_start boot = root_start boot + (root_bytes boot + 511) / 512

-- The root directory at its start, but for its buffer.
abbrev pub root_from_start : List ℕ → FileData → FileData
root_from_start boot fd = record fd {
  handle = root_directory_handle;
  is_directory = true;
  position = 0;
  size = root_bytes boot;
  opened = true;
  first_cluster = root_start boot;
  current_cluster = root_start boot;
  current_sector = 0;
}

-- The memory behind the call, with the first sector of the disk as the boot sector.
abbrev pub mounted : (ℕ → ℕ) → List ℕ → FatData → FatData
mounted bytes boot f = record f {
  boot_sector = boot;
  fat =
      overwrite f.fat (sectors_of bytes (BootSector.word_at boot 14) (BootSector.word_at boot 22));
  root_directory = root_at bytes (root_from_start boot f.root_directory) 0;
  opened_files = map closed f.opened_files;
  data_section_lba = data_start boot;
}

abbrev booted : List ℕ → FatData → FatData
booted boot f = record f { boot_sector = boot }

-- The memory behind the root directory's first sector, as the code computes the places.
abbrev rooted : (ℕ → ℕ) → List ℕ → FatData → FatData
rooted bytes boot f = record f {
  boot_sector = boot;
  root_directory = root_at bytes (root_file boot f.root_directory) 0;
  opened_files = map closed f.opened_files;
  data_section_lba = u32 (root_lba boot + u32 (root_size boot + 512 - 1) / 512);
}

abbrev computed : (ℕ → ℕ) → List ℕ → FatData → FatData
computed bytes boot f = rooted bytes boot (record f {
  fat =
      overwrite f.fat
        (sectors_of bytes (BootSector.reserved_sectors boot) (BootSector.sectors_per_fat boot));
})

module _ (bytes : ℕ → ℕ) (boot : List ℕ) (short : BootSector.sectors_per_fat boot ≤ 115) where
  few_fats : BootSector.fat_count boot * BootSector.sectors_per_fat boot ≤ 255 * 115
  few_fats = let few : BootSector.fat_count boot ≤ 255 = omega arith in mul-le-mul few short

  root_lba-root_start : root_lba boot ≡ root_start boot
  root_lba-root_start =
      ap (λ n. u32 (BootSector.reserved_sectors boot + n))
        (mul_comm (BootSector.sectors_per_fat boot) (BootSector.fat_count boot))
      ∙ omega (arith, few_fats)

  root_size-root_bytes : root_size boot ≡ root_bytes boot
  root_size-root_bytes = omega arith

  data_section-data_start :
      u32 (root_lba boot + u32 (root_size boot + 512 - 1) / 512) ≡ data_start boot
  data_section-data_start =
      ap (λ n. u32 (n + u32 (root_size boot + 512 - 1) / 512)) root_lba-root_start
      ∙ omega (arith, few_fats)

  computed-mounted : (f : FatData) → computed bytes boot f ≡ mounted bytes boot f
  unfolding root_file
  computed-mounted f = λ i. record f {
    boot_sector = boot;
    fat =
        overwrite f.fat
          (sectors_of bytes (BootSector.reserved_sectors boot) (BootSector.sectors_per_fat boot));
    root_directory =
        root_at bytes
          (record f.root_directory {
            handle = root_directory_handle;
            is_directory = true;
            position = 0;
            size = root_size-root_bytes i;
            opened = true;
            first_cluster = root_lba-root_start i;
            current_cluster = root_lba-root_start i;
            current_sector = 0;
          })
          0;
    opened_files = map closed f.opened_files;
    data_section_lba = data_section-data_start i;
  }

module _ {W : Type 0} (bios : Bios W) (disk : Disk) (bytes : ℕ → ℕ) (boot : List ℕ)
    (g : IsGeometry disk) (drive : disk.id < 256)
    (faithful : IsFaithful bios disk (sectors_of bytes)) (reliable : IsReliable bios disk)
    (sectored : BootSector.bytes_per_sector boot ≡ 512)
    (inside : root_lba boot < capacity disk) where
  set_data_section-rooted :
      (f : FatData) (io : Io W)
      → set_data_section (record { io = io; fat_data = booted boot f })
        ≡ some (
          0,
          record {
            io = io;
            fat_data = record f {
              boot_sector = boot;
              opened_files = map closed f.opened_files;
              data_section_lba = u32 (root_lba boot + u32 (root_size boot + 512 - 1) / 512);
            };
          },
        )
  unfolding set_data_section
  set_data_section-rooted f io =
      let no_fault : (BootSector.bytes_per_sector boot == 0) ≡ false = ground (arith, sectored) in
      rw (set_data_section, no_fault, sectored) refl

  read_root-rooted :
      (f : FatData) (io : Io W)
      → length f.root_directory.buffer ≡ 512
      → (io' : Io W) × (read_root bios disk (record { io = io; fat_data = booted boot f })
          ≡ some (0, record { io = io'; fat_data = rooted bytes boot f }))
  unfolding read_root root_file
  read_root-rooted f io full =
      let (reply, io', e, zeroed, brought) =
        read_sectors-reliable bios disk (root_lba boot) 1 (sectors_of bytes) io g inside drive
          (omega arith) faithful reliable in
      let worked : (reply.status == 0) ≡ true = ground arith in
      let start : root_lba boot + 0 ≡ root_lba boot = omega arith in
      let filled : overwrite f.root_directory.buffer reply.bytes
          ≡ slice bytes (512 * root_lba boot) 512 =
        rw brought (overwrite-full bytes (512 * root_lba boot) 512 f.root_directory.buffer full) in
      let rest =
        set_data_section-rooted
          (record f {
            root_directory = record (root_file boot f.root_directory) {
              buffer = slice bytes (512 * root_lba boot) 512;
            };
          })
          io' in
      (io', rw (read_root, ◌>>=◌, e, worked, filled, start) rest)

  read_fat-rooted :
      (f : FatData) (io : Io W)
      → length f.root_directory.buffer ≡ 512
      → BootSector.sectors_per_fat boot < 256
      → BootSector.reserved_sectors boot < capacity disk
      → (io' : Io W) × (read_fat bios disk (record { io = io; fat_data = booted boot f })
          ≡ some (0, record { io = io'; fat_data = computed bytes boot f }))
  unfolding read_fat
  read_fat-rooted f io full short within =
      let (reply, next, e, zeroed, brought) =
        read_sectors-reliable bios disk (BootSector.reserved_sectors boot)
          (BootSector.sectors_per_fat boot) (sectors_of bytes) io g within drive short faithful
          reliable in
      let worked : (reply.status == 0) ≡ true = ground arith in
      let filled : overwrite f.fat reply.bytes
          ≡ overwrite f.fat (
              sectors_of bytes (BootSector.reserved_sectors boot)
                (BootSector.sectors_per_fat boot)) =
        ap (overwrite f.fat) brought in
      let (io', rest) =
        read_root-rooted
          (record f {
            fat = overwrite f.fat (
                sectors_of bytes (BootSector.reserved_sectors boot)
                  (BootSector.sectors_per_fat boot));
          })
          next full in
      (io', rw (read_fat, ◌>>=◌, e, worked, filled) rest)

  -- The FAT fits in its memory, and begins before the root directory.
  fat_fits :
      BootSector.sectors_per_fat boot ≤ 115
      → leb 0x10000 (u32 (fat_data_size + fat_bytes boot)) ≡ false
  fat_fits short =
      let size : fat_bytes boot ≡ 512 * BootSector.sectors_per_fat boot =
        rw sectored (omega arith) in
      let low : u32 (fat_data_size + fat_bytes boot) < 0x10000 = rw size (omega arith) in
      ground (arith, low)

  fat_inside :
      BootSector.sectors_per_fat boot ≤ 115 → BootSector.reserved_sectors boot < capacity disk
  fat_inside short =
      let fats : BootSector.sectors_per_fat boot * BootSector.fat_count boot ≤ 115 * 255 =
        mul-le-mul {m₂ = 255} short (omega arith) in
      omega (arith, fats)

module _ {W : Type 0} (bios : Bios W) (disk : Disk) (bytes : ℕ → ℕ) (boot : List ℕ)
    (g : IsGeometry disk) (drive : disk.id < 256)
    (faithful : IsFaithful bios disk (sectors_of bytes)) (reliable : IsReliable bios disk)
    (sectored : BootSector.word_at boot 11 ≡ 512) (inside : root_start boot < capacity disk) where
  -- The boot sector, the first 512 bytes of the disk, has the signature 0x29, sectors of 512 bytes and a
  -- FAT of at most 115 sectors, which fits in the memory for it, and the root directory begins inside
  -- the drive, of a geometry that the registers can address. On a faithful drive whose reads work,
  -- `FAT_Initialize` then returns 0, and leaves the boot sector and the FAT of the disk in the memory,
  -- the root directory at its start with its first sector in its buffer, behind the reserved sectors
  -- and as many FATs as the boot sector says, all files closed, and the data section behind all
  -- sectors that the root directory's entries of 32 bytes take, a last one in part too.
  pub initialize-mounted :
      (f : FatData) (io : Io W)
      → boot ≡ slice bytes 0 512
      → BootSector.byte_at boot 38 ≡ 0x29
      → BootSector.word_at boot 22 ≤ 115
      → length f.boot_sector ≡ 512
      → length f.root_directory.buffer ≡ 512
      → (io' : Io W) × (initialize bios disk (record { io = io; fat_data = f })
          ≡ some (0, record { io = io'; fat_data = mounted bytes boot f }))
  unfolding initialize check_size
  initialize-mounted f io first signed short full_boot full_root =
      let held : root_lba boot < capacity disk =
        subst (λ l. l < capacity disk) (sym (root_lba-root_start bytes boot short)) inside in
      let (reply, next, e, zeroed, brought) =
        read_sectors-reliable bios disk 0 1 (sectors_of bytes) io g (omega arith) drive
          (omega arith) faithful reliable in
      let worked : (reply.status == 0) ≡ true = ground arith in
      let filled : overwrite f.boot_sector reply.bytes ≡ boot =
        ap (overwrite f.boot_sector) brought
        ∙ overwrite-full bytes 0 512 f.boot_sector full_boot
        ∙ sym first in
      let signature : (BootSector.byte_at boot 38 == 0x29) ≡ true = ground arith in
      let (io', rest) =
        read_fat-rooted bios disk bytes boot g drive faithful reliable sectored held f next
          full_root (omega arith)
          (fat_inside bios disk bytes boot g drive faithful reliable sectored held short) in
      (
        io',
        rw
              (
                initialize,
                ◌>>=◌,
                e,
                worked,
                filled,
                signature,
                check_size,
                fat_fits bios disk bytes boot g drive faithful reliable sectored held short,
              )
              rest
            ∙ ap (λ x. some (0, record { io = io'; fat_data = x }))
                (computed-mounted bytes boot short f),
      )
