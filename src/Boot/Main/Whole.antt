-- ===== src/Boot/Main/Whole.antt =====
-- The second stage from its start to its jump to the kernel.
use native.Mathlib.Nat.{mul-le-mul}
use netclover.Prelude.{
  ℕ, suc, ◌*◌, ◌^◌, ◌≤◌, ◌<◌, ◌≡◌, ◌∙◌, refl, arith, none, List, ◌∷◌, map, u8, length,
}
use netclover.Libc.Strings.{Memory}
use netclover.Libc.Console.Terminal.Text.{IsString}
use netclover.Boot.Io.{Io}
use netclover.Boot.Disk.{Disk, ParamsReply, Bios}
use netclover.Boot.Disk.Geometry.{IsGeometry}
use netclover.Boot.Disk.Reading.{IsFaithful, IsReliable}
use netclover.Boot.MemDetect.{E820Block, MemoryMap, max_e820_regions}
use netclover.Boot.MemDetect.Regions.{HandsOut}
use netclover.Boot.Fat.BootSector
use netclover.Boot.Fat.{FileData, FatData}
use netclover.Boot.Fat.RootReading.{sectors_of}
use netclover.Boot.Fat.Slices.{slice}
use netclover.Boot.Fat.Files.Opening.{with_files}
use netclover.Boot.Fat.Mount.{closed}
use netclover.Boot.Fat.Mount.Mounted.{root_from_start, root_start, mounted}
use netclover.Boot.Fat.Lookup.InRoot.{Found, entry_at}
use netclover.Boot.Fat.Lookup.Entry.{IsRootDirectory}
use netclover.Boot.Main.{cmain}
use netclover.Boot.Main.Prologue.{IsBootSector, boot_disk, cmain-load_kernel}
use netclover.Boot.Main.Booting.{IsKernelPath, kernel_name, load_kernel-missing}

-- The first lba of the root directory.
root_start-bound : (disk : Disk) (boot : List ℕ) → IsBootSector disk boot → root_start boot < 2 ^ 31
root_start-bound disk boot b =
    let fats : BootSector.word_at boot 22 * BootSector.byte_at boot 16 ≤ 115 * 255 =
      mul-le-mul {m₂ = 255} b.short (omega arith) in
    omega (arith, fats)

root_from_start-IsRootDirectory :
    (disk : Disk) (boot : List ℕ) (fd : FileData)
    → IsBootSector disk boot
    → IsRootDirectory disk (root_from_start boot fd) (BootSector.word_at boot 17)
root_from_start-IsRootDirectory disk boot fd b = record {
  directory = refl;
  sized = omega arith;
  some_entry = b.some_entry;
  size_bound = omega arith;
  first_bound = root_start-bound disk boot b;
  inside = b.inside;
}

module _ {W : Type 0} (bios : Bios W) (blocks : MemoryMap W) (k path name boot_drive : ℕ)
    (reply : ParamsReply) (bytes : ℕ → ℕ) (m : Memory) (named : IsKernelPath m path name)
    (all : List E820Block) (hands : (w : W) → HandsOut blocks 0 w all)
    (room : length all ≤ max_e820_regions) (g : IsGeometry (boot_disk boot_drive reply))
    (faithful : IsFaithful bios (boot_disk boot_drive reply) (sectors_of bytes))
    (reliable : IsReliable bios (boot_disk boot_drive reply))
    (b : IsBootSector (boot_disk boot_drive reply) (slice bytes 0 512))
    (low_bytes : (a : ℕ) → bytes a < 256) (fuel : 11 < suc k)
    (fuel' : BootSector.word_at (slice bytes 0 512) 17 < suc k) where
  abbrev pub mounted_data : FatData → List FileData → FileData → FatData
  mounted_data f rest old = mounted bytes (slice bytes 0 512) (with_files f (old ∷ rest))

  abbrev pub root_entry : FatData → ℕ → List ℕ
  root_entry f = entry_at bytes (root_from_start (slice bytes 0 512) f.root_directory)

  -- On such a machine and disk, but with no entry named KERNEL BIN in the root directory, `cmain` comes
  -- to no result, with so many rounds: its first `FAT_Read` is of the null pointer.
  cmain-missing :
      (vendorid : List ℕ) (disk : Disk) (f : FatData) (io : Io W)
      → IsString vendorid
      → ((w : W) → (bios.params (u8 boot_drive) w).0 ≡ reply)
      → reply.failed ≡ 0
      → length f.boot_sector ≡ 512
      → length f.root_directory.buffer ≡ 512
      → Found kernel_name (root_entry f) 0 (BootSector.word_at (slice bytes 0 512) 17) none
      → cmain bios blocks
          (suc (suc k))
          path
          name
          vendorid
          disk
          boot_drive
          m
          (record { io = io; fat_data = f })
        ≡ none
  cmain-missing vendorid disk f io string reported worked full_boot full_root missing =
      let boot : List ℕ = slice bytes 0 512 in
      let (io₁, before) =
        cmain-load_kernel bios blocks (suc (suc k)) path name boot_drive reply bytes g faithful
          reliable b f full_boot full_root m vendorid disk io string reported worked in
      before
      ∙ load_kernel-missing bios blocks k path name m named all hands room
          (boot_disk boot_drive reply) g (omega arith) bytes faithful reliable low_bytes
          (mounted bytes boot f) (root_from_start boot f.root_directory)
          (BootSector.word_at boot 17)
          (root_from_start-IsRootDirectory (boot_disk boot_drive reply) boot f.root_directory b)
          fuel fuel' boot_drive (map closed f.opened_files) io₁ missing
