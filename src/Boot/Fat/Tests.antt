-- ===== src/Boot/Fat/Tests.antt =====
-- Runs of the file system on a floppy of 80 cylinders, 2 heads and 18 sectors whose reads all work.
use netclover.Prelude.{
  ℕ, ◌≤◌, ◌≡◌, inl, refl, arith, true, false, Option, some, List, [], ◌∷◌, ◌++◌, get_or, replicate,
  codes, u8, leb, if◌then◌else◌, ◌-◌,
}
use netclover.Libc.Ctype.{toupper}
use netclover.Libc.Strings.{Memory}
use netclover.Libc.Strings.Texts.{Text}
use netclover.Boot.Io.{Io}
use netclover.Boot.Disk.{Disk, Bios}
use netclover.Boot.Disk.Geometry.{decoded, place}
use netclover.Boot.Fat.{FileData, FatData, DirectoryEntry, root_directory_handle}
use netclover.Boot.Fat.Slices.{slice}
use netclover.Boot.Fat.RootReading.{sectors_of, root_at}
use netclover.Boot.Fat.Mount.{initialize}
use netclover.Boot.Fat.Mount.Mounted.{mounted, initialize-mounted}
use netclover.Boot.Fat.Files.{opened, root, Session, pointee, put_pointee, close, open_entry}
use netclover.Boot.Fat.Files.RootFile.{with_root}
use netclover.Boot.Fat.Files.Handles.{Called, here, after, closes, Reach-WellFormed}
use netclover.Boot.Fat.Files.Numbered.{WellFormed}
use netclover.Boot.Fat.Files.Opening.{with_files, opened_file, open_entry-opened}
use netclover.Boot.Fat.Lookup.{fat_name, find_file}
use netclover.Boot.Fat.Lookup.ShortNames.{short_name, fat_name-short_name}
use netclover.Boot.Fat.Lookup.InRoot.{Found, entry_at, find_file-Found}

abbrev floppy : Disk
floppy = record { id = 0; cylinders = 80; heads = 2; sectors = 18 }

-- A drive with these bytes.
abbrev drive_of : (ℕ → ℕ) → Bios ℕ
drive_of bytes = record {
  read = λ call w.
      (record { status = 0; bytes = sectors_of bytes (place floppy (decoded call)) call.count }, w);
  reset = λ w. (0, w);
  params = λ id w. (record { failed = 0; ch = 79; cl = 18; dh = 1 }, w);
}

-- The fields of the boot sector of a floppy of 1440 KiB; the rest of the disk is empty.
abbrev boot_bytes : List ℕ
boot_bytes =
    replicate 11 0
    ++ (0 ∷ 2 ∷ 1 ∷ 1 ∷ 0 ∷ 2 ∷ 224 ∷ 0 ∷ [])
    ++ (replicate 3 0 ++ (9 ∷ 0 ∷ []))
    ++ (replicate 14 0 ++ (0x29 ∷ []))

abbrev disk_bytes : ℕ → ℕ
disk_bytes a = get_or boot_bytes a 0

abbrev empty_file : FileData
empty_file = record {
  buffer = replicate 512 0;
  handle = 0;
  is_directory = false;
  position = 0;
  size = 0;
  opened = false;
  first_cluster = 0;
  current_cluster = 0;
  current_sector = 0;
}

abbrev empty_memory : FatData
empty_memory = record {
  boot_sector = replicate 512 0;
  root_directory = empty_file;
  opened_files = replicate 10 empty_file;
  fat = [];
  data_section_lba = 33;
}

abbrev start : Io ℕ
start = record {
  world = 0;
  console = record { screen_buffer = λ _. 0; screen_x = 0; screen_y = 0; ports = [] };
}

initialize-mounted_example :
    (io' : Io ℕ) × (initialize
        (drive_of disk_bytes)
        floppy
        (record { io = start; fat_data = empty_memory })
      ≡ some (
        0,
        record { io = io'; fat_data = mounted disk_bytes (slice disk_bytes 0 512) empty_memory },
      ))
initialize-mounted_example =
    initialize-mounted (drive_of disk_bytes) floppy disk_bytes (slice disk_bytes 0 512)
      (omega arith) (omega arith) (λ call w _ _. refl) (λ call w _. refl) refl (omega arith)
      empty_memory start refl refl (omega arith) refl refl

-- Files without a buffer; one is open, and carries its index.
abbrev closed_file : FileData
closed_file = record empty_file { buffer = [] }

abbrev open_file : FileData
open_file = record closed_file { opened = true }

abbrev some_entry : DirectoryEntry
some_entry = record {
  name = codes "KERNEL  BIN";
  attributes = 0;
  first_cluster_high = 0;
  first_cluster_low = 5;
  size = 1000;
}

-- One sector to a cluster, one file open.
abbrev one_open : FatData
one_open = record empty_memory {
  boot_sector = boot_bytes;
  opened_files = open_file ∷ replicate 9 closed_file;
}

open_entry-opened_example :
    (io' : Io ℕ) × (open_entry (drive_of disk_bytes) floppy some_entry (record {
      io = start;
      fat_data = with_files one_open ((open_file ∷ []) ++ replicate 9 closed_file);
    })
      ≡ some (
        opened 1,
        record {
          io = io';
          fat_data = with_files one_open (
              (open_file ∷ [])
              ++ opened_file
                  (drive_of disk_bytes)
                  floppy
                  disk_bytes
                  one_open
                  1
                  closed_file
                  some_entry
                ∷ replicate 8 closed_file);
        },
      ))
open_entry-opened_example =
    open_entry-opened (drive_of disk_bytes) floppy disk_bytes one_open (open_file ∷ [])
      (replicate 8 closed_file) closed_file some_entry (omega arith) (omega arith)
      (λ call w _ _. refl) (λ call w _. refl) (refl, tt) refl start (omega arith) (omega arith)

-- The root directory read to a position, and all files closed.
abbrev root_read_to : ℕ → FatData
root_read_to position = record empty_memory {
  root_directory = record empty_file {
    handle = root_directory_handle;
    is_directory = true;
    position = position;
    opened = true;
  };
}

abbrev some_memory : FatData
some_memory = root_read_to 64

some_memory-WellFormed : WellFormed some_memory
some_memory-WellFormed = record {
  root_handle = refl;
  count = refl;
  numbered = (
    inl refl,
    (
      inl refl,
      (
        inl refl,
        (inl refl, (inl refl, (inl refl, (inl refl, (inl refl, (inl refl, (inl refl, tt))))))),
      ),
    ),
  );
}

abbrev session : FatData → Session ℕ
session f = record { io = start; fat_data = f }

close_root : Called (drive_of disk_bytes) floppy (session some_memory) (session (root_read_to 0))
unfolding close pointee put_pointee
close_root = closes root refl

Reach-WellFormed_example : WellFormed (root_read_to 0)
Reach-WellFormed_example =
    Reach-WellFormed (drive_of disk_bytes) floppy (session some_memory) (session (root_read_to 0))
      (after here close_root) some_memory-WellFormed

-- The text "a.txt" at 10.
abbrev name_memory : Memory
name_memory p = get_or (replicate 10 0 ++ codes "a.txt") p 0

name_memory-Text : Text name_memory 10 (codes "a.txt")
name_memory-Text = (
  refl,
  omega arith,
  (refl, omega arith, (refl, omega arith, (refl, omega arith, (refl, omega arith, refl)))),
)

fat_name-short_name_example : fat_name 6 name_memory 10 ≡ some (codes "A       TXT" ++ (0 ∷ []))
unfolding toupper
fat_name-short_name_example =
    fat_name-short_name name_memory 10 6 (codes "a") (some (codes "txt")) name_memory-Text
      (omega arith, tt) (omega arith) (omega arith)

-- A disk with that name at the start of sector 19.
abbrev named_bytes : ℕ → ℕ
named_bytes a = if leb 9728 a then u8 (get_or (codes "A       TXT") (a - 9728) 0) else 0

-- A root directory of 16 entries there.
abbrev root_directory : FileData
root_directory = record empty_file {
  handle = root_directory_handle;
  is_directory = true;
  size = 512;
  opened = true;
  first_cluster = 19;
  current_cluster = 19;
}

find_file-Found_example :
    (r : Option DirectoryEntry) × (p : ℕ) × (io' : Io ℕ) × (find_file
        (drive_of named_bytes)
        floppy
        17
        root
        name_memory
        10
        (record {
          io = start;
          fat_data = with_root empty_memory (root_at named_bytes root_directory 0);
        })
      ≡ some (
        r,
        record {
          io = io';
          fat_data = with_root empty_memory (root_at named_bytes root_directory p);
        },
      ))
    × Found
        (short_name (codes "a") (some (codes "txt")))
        (entry_at named_bytes root_directory)
        0
        16
        r
    × (p ≤ 512)
find_file-Found_example =
    find_file-Found (drive_of named_bytes) floppy empty_memory named_bytes root_directory 16
      (omega arith) (omega arith) (λ call w _ _. refl) (λ call w _. refl) refl refl (omega arith)
      (omega arith) (omega arith) (omega arith) name_memory 10 17 (codes "a") (some (codes "txt"))
      start (λ a. ground arith) name_memory-Text (omega arith) (omega arith, tt) (omega arith)
      (omega arith) (omega arith)
