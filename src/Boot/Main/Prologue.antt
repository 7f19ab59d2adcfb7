-- ===== src/Boot/Main/Prologue.antt =====
-- The second stage up to the load of the kernel.
use netclover.Prelude.{
  ℕ, ◌+◌, ◌/◌, ◌≤◌, ◌<◌, ◌≡◌, ◌∙◌, refl, ap, arith, some, List, [], ◌∷◌, codes, u8, length,
}
use netclover.Libc.Console.{clrscr}
use netclover.Libc.Arch.{i686}
use netclover.Libc.Console.Terminal.Text.{IsString}
use netclover.Libc.Printf.{ptr}
use netclover.Libc.Strings.{Memory}
use netclover.Boot.Io.{Io, ◌>>=◌, ◌>>◌}
use netclover.Boot.Logger.{normal, literal, log}
use netclover.Boot.Logger.Returns.{
  OnlyPrints, on_console-OnlyPrints, message-OnlyPrints, text_message-OnlyPrints,
}
use netclover.Boot.Disk.{Disk, ParamsReply, Bios}
use netclover.Boot.Disk.Geometry.{IsGeometry, capacity}
use netclover.Boot.Disk.Reading.{IsFaithful, IsReliable}
use netclover.Boot.Disk.Starting.{geometry_of, init-geometry_of}
use netclover.Boot.MemDetect.{MemoryMap}
use netclover.Boot.Fat.BootSector
use netclover.Boot.Fat.{FatData}
use netclover.Boot.Fat.RootReading.{sectors_of}
use netclover.Boot.Fat.Slices.{slice}
use netclover.Boot.Fat.Mount.Mounted.{root_start, root_bytes, mounted, initialize-mounted}
use netclover.Boot.Fat.Files.{Session}
use netclover.Boot.Main.{stage2_log_id, load_kernel, start_fat, cmain}

-- A boot sector whose file system the second stage can mount, with a root directory on the disk.
pub record IsBootSector (disk : Disk) (boot : List ℕ) : Type 0 where
  pub signed : BootSector.byte_at boot 38 ≡ 0x29
  pub sectored : BootSector.word_at boot 11 ≡ 512
  pub short : BootSector.word_at boot 22 ≤ 115
  pub some_entry : 0 < BootSector.word_at boot 17
  pub inside : root_start boot + root_bytes boot / 512 < capacity disk

-- The disk from which the machine is booted, by the reply of the BIOS about it.
abbrev pub boot_disk : ℕ → ParamsReply → Disk
boot_disk boot_drive reply = geometry_of (u8 boot_drive) reply

module _ {W : Type 0} (bios : Bios W) (blocks : MemoryMap W) (rounds path name boot_drive : ℕ)
    (reply : ParamsReply) (bytes : ℕ → ℕ) where
  vendor_log :
      (vendorid : List ℕ) (io : Io W)
      → IsString vendorid
      → OnlyPrints
          (log normal stage2_log_id (literal (codes "Venderid: %s")) (ptr (literal vendorid) ∷ []))
          io
  vendor_log vendorid io h =
      text_message-OnlyPrints normal stage2_log_id (codes "Venderid: ") [] vendorid [] (omega arith)
        (omega arith) h io

  module _ (g : IsGeometry (boot_disk boot_drive reply))
      (faithful : IsFaithful bios (boot_disk boot_drive reply) (sectors_of bytes))
      (reliable : IsReliable bios (boot_disk boot_drive reply))
      (b : IsBootSector (boot_disk boot_drive reply) (slice bytes 0 512)) (f : FatData)
      (full_boot : length f.boot_sector ≡ 512) (full_root : length f.root_directory.buffer ≡ 512)
      (m : Memory) where
    abbrev pub mounted_at : Io W → Session W
    mounted_at io = record { io = io; fat_data = mounted bytes (slice bytes 0 512) f }

    start_fat-load_kernel :
        (io : Io W)
        → (io' : Io W) × (start_fat bios blocks rounds path name
              (boot_disk boot_drive reply)
              boot_drive
              m
              (record { io = io; fat_data = f })
            ≡ load_kernel bios blocks rounds path name
                (boot_disk boot_drive reply)
                boot_drive
                m
                (mounted_at io'))
    unfolding start_fat
    start_fat-load_kernel io =
        let (io₁, printed, _) =
          message-OnlyPrints normal stage2_log_id (codes "Initialized disk!") (omega arith)
            (omega arith) io in
        let (io₂, e) =
          initialize-mounted bios (boot_disk boot_drive reply) bytes (slice bytes 0 512) g
            (omega arith) faithful reliable b.sectored (omega (arith, b.inside)) f io₁ refl b.signed
            b.short full_boot full_root in
        let (io₃, printed', _) =
          message-OnlyPrints normal stage2_log_id (codes "Initialized FAT!") (omega arith)
            (omega arith) io₂ in
        (io₃, rw (◌>>◌, ◌>>=◌, printed, e, printed') refl)

    -- The second stage comes to the load of the kernel, with its file system mounted.
    pub cmain-load_kernel :
        (vendorid : List ℕ) (disk : Disk) (io : Io W)
        → IsString vendorid
        → ((w : W) → (bios.params (u8 boot_drive) w).0 ≡ reply)
        → reply.failed ≡ 0
        → (io' : Io W) × (cmain bios blocks rounds path name vendorid disk boot_drive m
              (record { io = io; fat_data = f })
            ≡ load_kernel bios blocks rounds path name
                (boot_disk boot_drive reply)
                boot_drive
                m
                (mounted_at io'))
    unfolding cmain
    cmain-load_kernel vendorid disk io string reported worked =
        let (io₁, cleared, _) =
          on_console-OnlyPrints (λ c. some (clrscr i686 c)) (λ c. (_, refl)) io in
        let (io₂, vendor, _) = vendor_log vendorid io₁ string in
        let (io₃, loading, _) =
          message-OnlyPrints normal stage2_log_id (codes "Loading kernel...") (omega arith)
            (omega arith) io₂ in
        let once : u8 (u8 boot_drive) ≡ u8 boot_drive = omega arith in
        let (io₄, started) =
          init-geometry_of bios disk (u8 boot_drive) reply io₃
            (ap (λ d. (bios.params d io₃.world).0) once ∙ reported io₃.world) worked in
        let (io', e) = start_fat-load_kernel io₄ in
        (io', rw (cmain, ◌>>◌, ◌>>=◌, cleared, vendor, loading, started) e)
