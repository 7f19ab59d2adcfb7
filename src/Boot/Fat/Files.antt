-- ===== src/Boot/Fat/Files.antt =====
-- src/boot/stage2/libs/fat.c: the functions over the open files
pub mod RootFile
pub mod ChainFile
pub mod RootClose
pub mod Numbered
pub mod Handles
pub mod Opening
use mathlib.Core.Bool.{not}
use netclover.Prelude.{
  ℕ, zero, suc, ◌+◌, ◌-◌, ◌*◌, ◌/◌, ◌%◌, ◌^◌, Bool, true, false, ◌&&◌, ◌||◌, Option, none, some,
  List, [], ◌∷◌, ◌++◌, u8, u32, sub32, bit_and, ltb, leb, ◌==◌, if◌then◌else◌, length, get_elem?,
  set, codes, map,
}
use netclover.Libc.Arch.{i686}
use netclover.Libc.Console.{putc}
use netclover.Libc.Minmax.{min}
use netclover.Libc.Printf.{num, printf}
use netclover.Boot.Io.{Io, Step, pure, fault, ◌>>=◌, ◌>>◌}
use netclover.Boot.Logger.{error, literal, on_console, log}
use netclover.Boot.Disk.{Disk, ReadReply, Bios, read_sectors}
use netclover.Boot.Fat.BootSector
use netclover.Boot.Fat.{
  FileData, FatData, DirectoryEntry, Reading, fat_log_id, root_directory_handle, entry_size,
  overwrite, cluster_to_lba, read_loop,
}

-- A pointer to the public part of a file.
pub data File : Type 0 where
  null : File
  root : File
  opened : ℕ → File

-- What the functions work on: the screen and the BIOS, and the memory of the file system.
pub record Session (W : Type 0) : Type 0 where
  pub io : Io W
  pub fat_data : FatData

-- The file behind a pointer; a read through null is undefined.
unfoldable pub pointee : FatData → File → Option FileData
pointee f null = none
pointee f root = some f.root_directory
pointee f (opened i) = get_elem? f.opened_files i

unfoldable pub put_pointee : File → FileData → FatData → FatData
put_pointee null fd f = f
put_pointee root fd f = record f { root_directory = fd }
put_pointee (opened i) fd f = record f { opened_files = set f.opened_files i fd }

-- The file with a handle.
pub data_of : FatData → ℕ → Option FileData
data_of f handle =
    if handle == root_directory_handle
    then some f.root_directory
    else get_elem? f.opened_files handle

pub put_data : ℕ → FileData → FatData → FatData
put_data handle fd f =
    if handle == root_directory_handle
    then record f { root_directory = fd }
    else record f { opened_files = set f.opened_files handle fd }

-- The bytes that a read can bring at most.
pub clamped : FileData → ℕ → ℕ
clamped fd byte_count =
    if not fd.is_directory || (fd.is_directory && not (fd.size == 0))
    then min byte_count (sub32 fd.size fd.position)
    else byte_count

-- The first file that is not open, counted from `i`.
pub free_handle : ℕ → List FileData → Option ℕ
free_handle i [] = none
free_handle i (fd ∷ rest) = if fd.opened then free_handle (i + 1) rest else some i

module _ {W : Type 0} where
  abbrev pub on_io : {A : Type 0} → Step (Io W) A → Step (Session W) A
  on_io m st = elim (m st.io) [ none ↦ none | some (a, io) ↦ some (a, record st { io = io }) ]

  abbrev pub fat_data_now : Step (Session W) FatData
  fat_data_now st = some (st.fat_data, st)

  abbrev pub put_fat_data : FatData → Step (Session W) (Unit {0})
  put_fat_data f st = some (tt, record st { fat_data = f })

  abbrev pub defined : {A : Type 0} → Option A → Step (Session W) A
  defined o st = elim o [ none ↦ none | some a ↦ some (a, st) ]

  -- The root directory starts again at its first cluster; its buffer stays.
  unfoldable pub close : File → Step (Session W) (Unit {0})
  close file = do
    f ← fat_data_now
    public ← defined (pointee f file)
    if public.handle == root_directory_handle
        then (do
          let f' = put_pointee file (record public { position = 0 }) f
          put_fat_data (record f' {
            root_directory = record f'.root_directory {
              current_cluster = f'.root_directory.first_cluster;
            };
          }))
        else (do
          fd ← defined (get_elem? f.opened_files public.handle)
          put_fat_data (record f {
            opened_files = set f.opened_files public.handle (record fd { opened = false });
          }))

module _ {W : Type 0} (bios : Bios W) (disk : Disk) where
  -- The bytes at `dataOut`; the result is their number.
  pub read : File → ℕ → Step (Session W) (List ℕ)
  read file byte_count = do
    f ← fat_data_now
    public ← defined (pointee f file)
    fd ← defined (data_of f public.handle)
    let count = clamped fd byte_count
    s ← on_io (
        read_loop bios disk f count
          (record { fd = fd; out = []; byte_count = count; max_sector = 0 }))
    put_fat_data (put_data public.handle s.fd f)
    pure s.out

  -- Whether a whole entry was read, and the bytes.
  unfoldable pub read_entry : File → Step (Session W) (Bool × List ℕ)
  read_entry file = do bytes ← read file entry_size; pure (length bytes == entry_size, bytes)

  -- The file as it is set up for an entry, before its first sector is read.
  unfoldable pub entry_file : ℕ → DirectoryEntry → FileData → FileData
  entry_file handle entry fd =
      let first = u32 (entry.first_cluster_low + entry.first_cluster_high * 2 ^ 16) in
      record fd {
        handle = handle;
        is_directory = not (bit_and entry.attributes 0x10 == 0);
        position = 0;
        size = entry.size;
        first_cluster = first;
        current_cluster = first;
        current_sector = 0;
      }

  -- The name, by `printf("%c", …)` for each of its bytes.
  pub print_name : List ℕ → Step (Io W) (Unit {0})
  print_name [] = pure tt
  print_name (c ∷ name) = do
    on_console (printf i686 (literal (codes "%c")) (num c ∷ []))
    print_name name

  pub open_entry : DirectoryEntry → Step (Session W) File
  open_entry entry = do
    f ← fat_data_now
    elim (free_handle 0 f.opened_files) [
      | none ↦ (do
        on_io (log error fat_log_id (literal (codes "No more file handles!")) [])
        pure null)
      | some handle ↦ (do
        old ← defined (get_elem? f.opened_files handle)
        let fd = entry_file handle entry old
        reply ← on_io (read_sectors bios disk (cluster_to_lba f fd.current_cluster) 1)
        let fd' = record fd { buffer = overwrite fd.buffer reply.bytes }
        if reply.status == 0
            then (do
              put_fat_data (put_data handle (record fd' { opened = true }) f)
              pure (opened handle))
            else (do
              put_fat_data (put_data handle fd' f)
              on_io (
                  log error fat_log_id (literal (codes "Open entry failed. Cluster=%u LBA=%u"))
                    (num fd.current_cluster ∷ num (cluster_to_lba f fd.current_cluster) ∷ []))
              on_io (print_name entry.name)
              on_io (on_console (λ c. some (putc i686 b'\n' c)))
              pure null))
    ]
