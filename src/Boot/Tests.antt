-- ===== src/Boot/Tests.antt =====
-- Runs on a floppy of 80 cylinders, 2 heads and 18 sectors.
use netclover.Prelude.{
  ◌++◌, true, ℕ, zero, suc, ◌+◌, ◌%◌, ◌≤◌, ◌<◌, ◌≡◌, ◌≢◌, ◌⊎◌, refl, arith, some, List, [], ◌∷◌,
}
use netclover.Boot.Io.{Io}
use netclover.Boot.Disk.{Disk, Chs, ReadReply, Bios, read_call, lba2chs, read_sectors}
use netclover.Boot.Disk.Geometry.{decoded, place, lba2chs-read_call}
use netclover.Boot.Fat.{FileData, FatData, root_directory_handle, next_cluster}
use netclover.Boot.Fat.Chain.{pack, next_cluster-pack}
use netclover.Boot.Fat.Slices.{slice}
use netclover.Boot.Fat.RootReading.{sectors_of, root_at}
use netclover.Boot.Fat.Files.{root, read}
use netclover.Boot.Io.{◌>>◌}
use netclover.Boot.Fat.Files.{Session, close}
use netclover.Boot.Fat.Files.RootClose.{close-read_stale}
use netclover.Boot.Fat.Files.RootFile.{with_root, read-root}
use netclover.Boot.Disk.Reading.{IsFaithful, read_sectors_lem, read_sectors-recovers}

abbrev floppy : Disk
floppy = record { id = 0; cylinders = 80; heads = 2; sectors = 18 }

-- Every byte of a sector is its number.
abbrev sectors_from : ℕ → ℕ → List ℕ
sectors_from first zero = []
sectors_from first (suc count) = first % 256 ∷ sectors_from (first + 1) count

-- A drive whose first reads fail, so many as its state says.
abbrev drive : Bios ℕ
drive = record {
  read = λ call w. elim w [
    | zero ↦
        (record { status = 0; bytes = sectors_from (place floppy (decoded call)) call.count }, 0)
    | suc left ↦ (record { status = 4; bytes = [] }, left)
  ];
  reset = λ w. (0, w);
  params = λ id w. (record { failed = 0; ch = 79; cl = 18; dh = 1 }, w);
}

abbrev start : ℕ → Io ℕ
start failures = record {
  world = failures;
  console = record { screen_buffer = λ _. 0; screen_x = 0; screen_y = 0; ports = [] };
}

drive-IsFaithful : IsFaithful drive floppy sectors_from
drive-IsFaithful call zero id status = refl
drive-IsFaithful call (suc left) id status = absurd (omega arith)

lba2chs-read_call_example :
    (a : Chs) × (lba2chs floppy 1000 (start 0) ≡ some (a, start 0))
    × (a.head < 2)
    × (0 < a.sector)
    × (a.sector ≤ 18)
    × (place floppy (decoded (read_call 0 a 1)) ≡ 1000)
lba2chs-read_call_example = lba2chs-read_call floppy 1000 (omega arith) (omega arith) (start 0) 1

read_sectors_lem_example :
    (r : ReadReply) × (io' : Io ℕ) × (read_sectors drive floppy 1000 3 (start 0) ≡ some (r, io'))
    × ((r.status ≢ 0) ⊎ (r.bytes ≡ sectors_from 1000 3))
read_sectors_lem_example =
    read_sectors_lem drive floppy 1000 3 (omega arith) (omega arith) sectors_from (start 0)
      (omega arith) (omega arith) drive-IsFaithful

read_sectors-recovers_example :
    (r : ReadReply) × (io' : Io ℕ) × (read_sectors drive floppy 1000 3 (start 2) ≡ some (r, io'))
    × (r.status ≡ 0)
read_sectors-recovers_example =
    read_sectors-recovers drive floppy 1000 3 (omega arith) (omega arith) 2 (start 2) (omega arith)
      (λ w. refl) refl

next_cluster-pack_example :
    next_cluster (pack (0xFF0 ∷ 0xFFF ∷ 3 ∷ 4 ∷ 0xFFF ∷ []) ++ (0 ∷ [])) 3 ≡ some 4
next_cluster-pack_example =
    next_cluster-pack (0xFF0 ∷ 0xFFF ∷ 3 ∷ 4 ∷ 0xFFF ∷ []) (0 ∷ []) 3 4 (omega arith) (omega arith)
      refl

-- A drive that never fails; every byte is the low byte of its address.
abbrev low_bytes : ℕ → ℕ
low_bytes a = a % 256

abbrev good_drive : Bios ℕ
good_drive = record {
  read = λ call w. (
    record { status = 0; bytes = sectors_of low_bytes (place floppy (decoded call)) call.count },
    w,
  );
  reset = λ w. (0, w);
  params = λ id w. (record { failed = 0; ch = 79; cl = 18; dh = 1 }, w);
}

-- A root directory of 14 sectors behind two FATs.
abbrev root_file : FileData
root_file = record {
  buffer = [];
  handle = root_directory_handle;
  is_directory = true;
  position = 0;
  size = 7168;
  opened = true;
  first_cluster = 19;
  current_cluster = 19;
  current_sector = 0;
}

abbrev fat_memory : FatData
fat_memory = record {
  boot_sector = [];
  root_directory = root_file;
  opened_files = [];
  fat = [];
  data_section_lba = 33;
}

read-root_example :
    (io' : Io ℕ) × (read good_drive floppy root 32 (record {
      io = start 0;
      fat_data = with_root fat_memory (root_at low_bytes root_file 1504);
    })
      ≡ some (
        slice low_bytes 11232 32,
        record { io = io'; fat_data = with_root fat_memory (root_at low_bytes root_file 1536) },
      ))
read-root_example =
    read-root good_drive floppy fat_memory low_bytes root_file (omega arith) (omega arith)
      (λ call w _ _. refl) (λ call w _. refl) refl (omega arith) (omega arith) (omega arith)
      (omega arith) 1504 32 (start 0) (omega arith) (omega arith)

close-read_stale_example :
    (st : Session ℕ) × ((close root >> read good_drive floppy root 32) (record {
      io = start 0;
      fat_data = with_root fat_memory (root_at low_bytes root_file 1504);
    })
      ≡ some (slice low_bytes 10752 32, st))
close-read_stale_example =
    close-read_stale good_drive floppy low_bytes root_file fat_memory 1504 32 (start 0) refl
      (omega arith) (omega arith) (omega arith) (omega arith)
