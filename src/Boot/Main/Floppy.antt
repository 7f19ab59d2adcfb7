-- ===== src/Boot/Main/Floppy.antt =====
-- A floppy with a kernel of 1100 bytes in the clusters 2, 4 and 3, for the runs of the second stage.
use netclover.Prelude.{
  ℕ, zero, suc, ◌+◌, ◌-◌, ◌/◌, ◌≤◌, ◌<◌, ◌≡◌, inl, refl, arith, false, some, List, [], ◌∷◌, ◌++◌,
  get_or, replicate, codes, u8, ltb, if◌then◌else◌, ◌==◌,
}
use netclover.Libc.Ctype.{toupper, islower}
use netclover.Libc.Strings.{Memory}
use netclover.Boot.Io.{Io}
use netclover.Boot.Disk.{ParamsReply, Bios}
use netclover.Boot.Disk.Geometry.{capacity, decoded, place}
use netclover.Boot.MemDetect.{E820Block, MemoryMap}
use netclover.Boot.Fat.{FileData, FatData, DirectoryEntry, next_cluster}
use netclover.Boot.Fat.Slices.{slice}
use netclover.Boot.Fat.RootReading.{sectors_of}
use netclover.Boot.Fat.Files.Opening.{with_files}
use netclover.Boot.Fat.Lookup.{entry_of}
use netclover.Boot.Fat.Lookup.InRoot.{Found, here, later, entry_at}
use netclover.Boot.Fat.FileReading.{cluster_start}
use netclover.Boot.Fat.Mount.Mounted.{root_from_start, mounted}
use netclover.Boot.Main.Prologue.{IsBootSector, boot_disk}
use netclover.Boot.Main.KernelFile.{IsFileOf}
use netclover.Boot.Main.Booting.{IsKernelPath, kernel_name}

-- One FAT of one sector, and a root directory of so many entries, fewer than 256.
abbrev pub boot_bytes : ℕ → List ℕ
boot_bytes entries =
    replicate 11 0
    ++ (0 ∷ 2 ∷ 1 ∷ 1 ∷ 0 ∷ 1 ∷ entries ∷ 0 ∷ [])
    ++ (replicate 3 0 ++ (1 ∷ 0 ∷ []))
    ++ (replicate 14 0 ++ (0x29 ∷ []))

-- The entries 0xFF0, 0xFFF, 4, 0xFFF, 3.
abbrev pub packed_entries : List ℕ
packed_entries = 0xF0 ∷ 0xFF ∷ 0xFF ∷ 4 ∷ 0xF0 ∷ 0xFF ∷ 3 ∷ 0 ∷ []

-- A label, and the kernel of 1100 bytes from cluster 2 on.
abbrev pub root_bytes : List ℕ
root_bytes =
    codes "NETCLOVER  "
    ++ (8 ∷ replicate 20 0)
    ++ (codes "KERNEL  BIN" ++ (replicate 15 0 ++ (2 ∷ 0 ∷ 0x4C ∷ 4 ∷ 0 ∷ 0 ∷ [])))

abbrev pub disk_with : ℕ → List ℕ → ℕ → ℕ
disk_with entries root a = u8 (
    if ltb a 512
    then get_or (boot_bytes entries) a 0
    else if ltb a 1024
    then get_or packed_entries (a - 512) 0
    else if ltb a 1536
    then get_or root (a - 1024) 0
    else a)

abbrev pub bytes : ℕ → ℕ
bytes = disk_with 16 root_bytes

abbrev pub reply : ParamsReply
reply = record { failed = 0; ch = 79; cl = 18; dh = 1 }

abbrev pub floppy_with : (ℕ → ℕ) → Bios ℕ
floppy_with disk = record {
  read = λ call w. (
    record {
      status = 0;
      bytes = sectors_of disk (place (boot_disk 0 reply) (decoded call)) call.count;
    },
    w,
  );
  reset = λ w. (0, w);
  params = λ id w. (reply, w);
}

abbrev pub block : E820Block
block = record { base = 0; length = 0x1000; type = 1; acpi = 1 }

-- One block, and the last one.
abbrev pub blocks : MemoryMap ℕ
blocks = record {
  next = λ k w. (
    record {
      ret = 20;
      block = get_or (block ∷ block ∷ []) (k / 24) block;
      continuation = if k == 24 then 0 else k + 24;
    },
    w,
  );
  mem_regions = 0x7000;
}

-- The path at 100.
abbrev pub memory : Memory
memory p = u8 (get_or (replicate 100 0 ++ codes "/kernel.bin") p 0)

pub memory-IsKernelPath : IsKernelPath memory 100 1000
memory-IsKernelPath = record {
  slash = refl;
  text = omega arith;
  apart = inl (omega arith);
  low = λ a. omega arith;
}

abbrev pub empty_file : FileData
empty_file = record {
  buffer = replicate 512 0;
  handle = 0;
  is_directory = false;
  position = 0;
  size = 0;
  opened = false;
  first_cluster = 0;
  current_cluster = 0;
  current_sector = 0;
}

abbrev pub empty_data : FatData
empty_data = record {
  boot_sector = replicate 512 0;
  root_directory = empty_file;
  opened_files = [];
  fat = [];
  data_section_lba = 0;
}

abbrev pub nine_files : List FileData
nine_files = replicate 9 empty_file

abbrev pub start : Io ℕ
start = record {
  world = 0;
  console = record { screen_buffer = λ _. 0; screen_x = 0; screen_y = 0; ports = [] };
}

pub bytes-IsBootSector : IsBootSector (boot_disk 0 reply) (slice bytes 0 512)
bytes-IsBootSector = record {
  signed = refl;
  sectored = refl;
  short = omega arith;
  some_entry = omega arith;
  inside = omega arith;
}

abbrev pub chain : ℕ → ℕ
chain zero = 2
chain (suc zero) = 4
chain (suc (suc zero)) = 3
chain (suc (suc (suc c))) = 0xFFF

abbrev pub data_section : FatData
data_section = mounted bytes (slice bytes 0 512) (with_files empty_data (empty_file ∷ nine_files))

abbrev pub kernel_entry : DirectoryEntry
kernel_entry = entry_of (slice bytes 1056 32)

pub chain-linked : (c : ℕ) → c < 3 → next_cluster data_section.fat (chain c) ≡ some (chain (c + 1))
unfolding next_cluster
chain-linked zero h = refl
chain-linked (suc zero) h = refl
chain-linked (suc (suc zero)) h = refl
chain-linked (suc (suc (suc c))) h = absurd (omega arith)

pub chain-inner : (c : ℕ) → c < 3 → chain c < 0xFF8
chain-inner zero h = omega arith
chain-inner (suc zero) h = omega arith
chain-inner (suc (suc zero)) h = omega arith
chain-inner (suc (suc (suc c))) h = absurd (omega arith)

pub chain-numbered : (c : ℕ) → c < 3 → 2 ≤ chain c
chain-numbered zero h = omega arith
chain-numbered (suc zero) h = omega arith
chain-numbered (suc (suc zero)) h = omega arith
chain-numbered (suc (suc (suc c))) h = absurd (omega arith)

pub chain-inside :
    (c k : ℕ)
    → c < 3
    → k < 1
    → cluster_start data_section (chain c) + k < capacity (boot_disk 0 reply)
chain-inside zero zero h h' = omega arith
chain-inside (suc zero) zero h h' = omega arith
chain-inside (suc (suc zero)) zero h h' = omega arith
chain-inside (suc (suc (suc c))) k h h' = absurd (omega arith)
chain-inside c (suc k) h h' = absurd (omega arith)

pub kernel-IsFileOf : IsFileOf (boot_disk 0 reply) data_section chain 3 kernel_entry
kernel-IsFileOf = record {
  links = record {
    some_sectors = omega arith;
    linked = chain-linked;
    inner = chain-inner;
    numbered = chain-numbered;
    ended = omega arith;
    inside = chain-inside;
  };
  begins = refl;
  some_clusters = omega arith;
  no_directory = refl;
  fits = omega arith;
  bound = omega arith;
}

pub kernel-Found :
    Found kernel_name
      (entry_at bytes (root_from_start (slice bytes 0 512) empty_file))
      0
      16
      (some kernel_entry)
unfolding toupper islower
kernel-Found = later (ground arith) (here refl refl)
