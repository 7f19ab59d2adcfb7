-- ===== src/Boot/Main/Booting.antt =====
-- The load of the kernel from the root directory, and the second stage as a whole.
use netclover.Prelude.{
  ℕ, suc, ◌+◌, ◌-◌, ◌/◌, ◌≤◌, ◌<◌, ◌≡◌, ◌∙◌, refl, ap, arith, false, none, some, List, [], ◌∷◌,
  codes, u8, length,
}
use netclover.Libc.Strings.{Memory}
use netclover.Libc.Strings.Texts.{Text}
use netclover.Boot.Io.{Io, ◌>>=◌, ◌>>◌}
use netclover.Boot.Disk.{Disk, Bios}
use netclover.Boot.Disk.Geometry.{IsGeometry}
use netclover.Boot.Disk.Reading.{IsFaithful, IsReliable}
use netclover.Boot.MemDetect.{E820Block, MemoryMap, max_e820_regions}
use netclover.Boot.MemDetect.Regions.{HandsOut, mem_detect-all_but_last}
use netclover.Boot.Fat.{FileData, FatData, DirectoryEntry, cluster_to_lba}
use netclover.Boot.Fat.RootReading.{sectors_of, root_at}
use netclover.Boot.Fat.FileReading.{file_byte}
use netclover.Boot.Fat.Files.{null, opened, Session, pointee, close}
use netclover.Boot.Fat.Files.ChainFile.{read_null}
use netclover.Boot.Fat.Files.RootFile.{with_root}
use netclover.Boot.Fat.Files.RootClose.{closed_at}
use netclover.Boot.Fat.Files.Opening.{with_files}
use netclover.Boot.Fat.Lookup.{max_path_size, open_path}
use netclover.Boot.Fat.Lookup.Buffer.{Apart}
use netclover.Boot.Fat.Lookup.ShortNames.{short_name}
use netclover.Boot.Fat.Lookup.InRoot.{Found, entry_at}
use netclover.Boot.Fat.Lookup.Named.{IsPathName}
use netclover.Boot.Fat.Lookup.Entry.{IsRootDirectory}
use netclover.Boot.Fat.Lookup.Opened.{open_path-opened}
use netclover.Boot.Fat.Lookup.Missing.{open_path-missing}
use netclover.Boot.Main.{
  starts_kernel, memory_load_size, memory_kernel_addr, load_loop, load_kernel,
}
use netclover.Boot.Main.KernelFile.{
  IsFileOf, kernel_file, first_lba-inside, opened_file-kernel_file, kernel_file-file_at,
}
use netclover.Boot.Main.Load.{Loaded}
use netclover.Boot.Main.Load.Faults.{load_loop-none}
use netclover.Boot.Main.Load.Reads.{at_chunk, IsLoadable}
use netclover.Boot.Main.Load.Chunks.{load_loop-Loaded}

-- The path of the kernel stands in the memory, away from the buffer for a name, and all is bytes.
pub record IsKernelPath (m : Memory) (path name : ℕ) : Type 0 where
  pub slash : m path ≡ b'/'
  pub text : Text m (path + 1) (codes "kernel.bin")
  pub apart : Apart (path + 1) 11 name max_path_size
  pub low : (a : ℕ) → m a < 256

IsKernelPath-IsPathName :
    (m : Memory) (path name : ℕ)
    → IsKernelPath m path name
    → IsPathName m (path + 1) name (codes "kernel") (codes "bin")
IsKernelPath-IsPathName m path name named = record {
  text = named.text;
  short = omega arith;
  apart = named.apart;
  no_dot = omega arith;
  not_eleven = omega arith;
  three = refl;
  no_slash = omega arith;
  low = named.low;
}

abbrev pub kernel_name : List ℕ
kernel_name = short_name (codes "kernel") (some (codes "bin"))

module _ {W : Type 0} (bios : Bios W) (blocks : MemoryMap W) (k path name : ℕ) (m : Memory)
    (named : IsKernelPath m path name) (all : List E820Block)
    (hands : (w : W) → HandsOut blocks 0 w all) (room : length all ≤ max_e820_regions) (disk : Disk)
    (g : IsGeometry disk) (drive : disk.id < 256) (bytes : ℕ → ℕ)
    (faithful : IsFaithful bios disk (sectors_of bytes)) (reliable : IsReliable bios disk)
    (low_bytes : (a : ℕ) → bytes a < 256) (f : FatData) (fd : FileData) (entries : ℕ)
    (r : IsRootDirectory disk fd entries) (fuel : 11 < suc k) (fuel' : entries < suc k) where
  -- Without an entry of the name, the load reads through the null pointer that `FAT_Open` gives.
  pub load_kernel-missing :
      (boot_drive : ℕ) (files : List FileData) (io : Io W)
      → Found kernel_name (entry_at bytes fd) 0 entries none
      → load_kernel bios blocks
          (suc (suc k))
          path
          name
          disk
          boot_drive
          m
          (record { io = io; fat_data = with_root (with_files f files) (root_at bytes fd 0) })
        ≡ none
  unfolding load_kernel
  load_kernel-missing boot_drive files io missing =
      let (io₁, mapped) = mem_detect-all_but_last blocks all io hands room in
      let (p, io₂, opening) =
        open_path-missing bios disk m (path + 1) name (codes "kernel") (codes "bin")
          (IsKernelPath-IsPathName m path name named) f bytes fd entries g drive faithful reliable r
          low_bytes k path files io₁ refl named.slash fuel fuel' missing in
      let loading =
        load_loop-none bios disk (suc (suc k)) null memory_kernel_addr m
          (record { io = io₂; fat_data = with_root (with_files f files) (closed_at bytes fd p) })
          (read_null bios disk memory_load_size _) in
      rw (load_kernel, ◌>>=◌, mapped, opening, loading) refl

  module _ (chain : ℕ → ℕ) (clusters : ℕ) (entry : DirectoryEntry)
      (h : IsFileOf disk f chain clusters entry) (rest : List FileData) (old : FileData)
      (full : length old.buffer ≡ 512) where
    abbrev kernel : FileData
    kernel = kernel_file bios disk f chain clusters entry h bytes old full g

    -- What the memory of the file system is behind `FAT_Open`.
    abbrev opened_kernel : ℕ → ℕ → Io W → Session W
    opened_kernel p position io =
        at_chunk (with_root f (closed_at bytes fd p)) chain clusters bytes kernel (kernel ∷ rest)
          position io

    open_kernel :
        (io : Io W)
        → Found kernel_name (entry_at bytes fd) 0 entries (some entry)
        → old.opened ≡ false
        → (p : ℕ) × (io' : Io W) × (open_path bios disk (suc (suc k)) path name m (record {
          io = io;
          fat_data = with_root (with_files f (old ∷ rest)) (root_at bytes fd 0);
        })
            ≡ some (opened 0, opened_kernel p 0 io'))
    unfolding cluster_to_lba
    open_kernel io found free =
        let (p, io', e) =
          open_path-opened bios disk m (path + 1) name (codes "kernel") (codes "bin")
            (IsKernelPath-IsPathName m path name named) f bytes fd entries g drive faithful reliable
            r low_bytes k path [] rest old entry io refl named.slash fuel fuel' found tt free
            (omega arith) (first_lba-inside bios disk f chain clusters entry h bytes old full g) in
        (
          p,
          io',
          e
              ∙ ap
                  (λ x. some (
                    opened 0,
                    record {
                      io = io';
                      fat_data = with_root (with_files f (x ∷ rest)) (closed_at bytes fd p);
                    },
                  ))
                  (opened_file-kernel_file bios disk f chain clusters entry h bytes old full g
                    ∙ kernel_file-file_at bios disk f chain clusters entry h bytes old full g),
        )

    close_kernel :
        (p : ℕ) (io : Io W)
        → (st : Session W) × (close (opened 0) (opened_kernel p kernel.size io) ≡ some (tt, st))
    unfolding close pointee
    close_kernel p io = (_, refl)

    load_opened :
        (p : ℕ) (io : Io W)
        → IsLoadable entry.size
        → (entry.size + memory_load_size - 1) / memory_load_size < suc (suc k)
        → (m' : Memory) × (io' : Io W) × (load_loop bios disk
              (suc (suc k))
              (opened 0)
              memory_kernel_addr
              m
              (opened_kernel p 0 io)
            ≡ some (m', opened_kernel p kernel.size io'))
          × Loaded m (file_byte f chain bytes) entry.size m'
    unfolding cluster_to_lba
    load_opened p io loadable enough =
        load_loop-Loaded bios disk (with_root f (closed_at bytes fd p)) chain clusters
          (record {
            some_sectors = h.links.some_sectors;
            linked = h.links.linked;
            inner = h.links.inner;
            numbered = h.links.numbered;
            ended = h.links.ended;
            inside = h.links.inside;
          })
          bytes kernel (omega arith) refl h.fits h.bound g drive faithful reliable (suc (suc k))
          (kernel ∷ rest) m io loadable (omega arith) enough

    pub load_kernel-starts_kernel :
        (boot_drive : ℕ) (io : Io W)
        → Found kernel_name (entry_at bytes fd) 0 entries (some entry)
        → old.opened ≡ false
        → IsLoadable entry.size
        → (entry.size + memory_load_size - 1) / memory_load_size < suc (suc k)
        → (m' : Memory) × (st : Session W) × (load_kernel bios blocks
              (suc (suc k))
              path
              name
              disk
              boot_drive
              m
              (record {
                io = io;
                fat_data = with_root (with_files f (old ∷ rest)) (root_at bytes fd 0);
              })
            ≡ some (
              starts_kernel m' (record {
                memory = record { region_count = length all; regions = blocks.mem_regions };
                boot_device = u8 boot_drive;
              }),
              st,
            ))
          × Loaded m (file_byte f chain bytes) entry.size m'
    unfolding load_kernel
    load_kernel-starts_kernel boot_drive io found free loadable enough =
        let (io₁, mapped) = mem_detect-all_but_last blocks all io hands room in
        let (p, io₂, opening) = open_kernel io₁ found free in
        let (m', io₃, loading, loaded) = load_opened p io₂ loadable enough in
        let (st, closing) = close_kernel p io₃ in
        (m', st, rw (load_kernel, ◌>>=◌, mapped, opening, loading, ◌>>◌, closing) refl, loaded)
