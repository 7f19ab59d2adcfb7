-- ===== src/Boot/Fat.antt =====
-- src/boot/stage2/libs/fat.c: its data, the packed FAT and the loop of FAT_Read
pub mod BootSector
pub mod Files
pub mod Chain
pub mod Slices
pub mod RootReading
pub mod FileReading
pub mod LoadingBar
pub mod Kept
pub mod Mount
pub mod Lookup
mod Tests
use netclover.Prelude.{
  ℕ, zero, suc, ◌+◌, ◌-◌, ◌*◌, ◌/◌, ◌%◌, ◌^◌, Bool, true, false, ◌&&◌, ◌||◌, Option, none, some,
  List, [], ◌∷◌, ◌++◌, u8, u16, u32, sub32, bit_and, ltb, leb, ◌==◌, if◌then◌else◌, length,
  get_elem?, get_or, set, take, drop, codes,
}
use netclover.Libc.Arch.{i686}
use netclover.Libc.Console.{putchr}
use netclover.Libc.Minmax.{min}
use netclover.Libc.Printf.{num}
use netclover.Boot.Fat.BootSector
use netclover.Boot.Io.{Io, Step, pure, fault, ◌>>=◌, ◌>>◌}
use netclover.Boot.Logger.{error, literal, on_console, log}
use netclover.Boot.Disk.{Disk, ReadReply, Bios, read_sectors}

abbrev pub fat_log_id : List ℕ
fat_log_id = codes "filesys" ++ (0 ∷ [])

abbrev pub root_directory_handle : ℕ
root_directory_handle = 2 ^ 32 - 1

-- `buffer` is what stands in the memory of `Buffer`; `handle` is the bit pattern of an int.
pub record FileData : Type 0 where
  pub buffer : List ℕ
  pub handle : ℕ
  pub is_directory : Bool
  pub position : ℕ
  pub size : ℕ
  pub opened : Bool
  pub first_cluster : ℕ
  pub current_cluster : ℕ
  pub current_sector : ℕ

-- `boot_sector` and `fat` are bytes. The pointer to the FAT follows the struct in its memory.
pub record FatData : Type 0 where
  pub boot_sector : List ℕ
  pub root_directory : FileData
  pub opened_files : List FileData
  pub fat : List ℕ
  pub data_section_lba : ℕ

-- The fields of a directory entry that the code reads.
pub record DirectoryEntry : Type 0 where
  pub name : List ℕ
  pub attributes : ℕ
  pub first_cluster_high : ℕ
  pub first_cluster_low : ℕ
  pub size : ℕ

abbrev pub entry_size : ℕ
entry_size = 32

-- A read of the disk puts its bytes in front of what a buffer held.
abbrev pub overwrite : List ℕ → List ℕ → List ℕ
overwrite buffer bytes = bytes ++ drop (length bytes) buffer

-- Undefined where the two bytes lie outside the FAT.
unfoldable pub next_cluster : List ℕ → ℕ → Option ℕ
next_cluster fat current =
    let index = u32 (current * 3) / 2 in
    elim (get_elem? fat index) [
      | none ↦ none
      | some low ↦ elim (get_elem? fat (index + 1)) [
        | none ↦ none
        | some high ↦
            let entry = u8 low + u8 high * 2 ^ 8 in
            some (if current % 2 == 0 then bit_and entry 0xFFF else entry / 2 ^ 4)
      ]
    ]

unfoldable pub cluster_to_lba : FatData → ℕ → ℕ
cluster_to_lba f cluster =
    u32 (f.data_section_lba + sub32 cluster 2 * BootSector.sectors_per_cluster f.boot_sector)

-- A copy of bytes is undefined where it leaves the buffer.
pub copied : List ℕ → ℕ → ℕ → Option (List ℕ)
copied buffer first count =
    if leb (first + count) (length buffer) then some (take count (drop first buffer)) else none

-- The file, the bytes put out, and the local variables of `FAT_Read`.
pub record Reading : Type 0 where
  pub fd : FileData
  pub out : List ℕ
  pub byte_count : ℕ
  pub max_sector : ℕ

-- How a round of the loop ends.
pub data Outcome : Type 0 where
  goes_on stops : Reading → Outcome

module _ {W : Type 0} (bios : Bios W) (disk : Disk) (f : FatData) where
  -- The next sector of the root directory.
  pub next_root_sector : Reading → Step (Io W) Outcome
  next_root_sector s = do
    let cluster = u32 (s.fd.current_cluster + 1)
    reply ← read_sectors bios disk cluster 1
    let s' = record s {
      fd = record s.fd { current_cluster = cluster; buffer = overwrite s.fd.buffer reply.bytes };
    }
    if reply.status == 0
        then pure (goes_on s')
        else (do log error fat_log_id (literal (codes "Read error on take!")) []; pure (stops s'))

  -- The next sector in the chain of clusters; none where the entry lies outside the FAT.
  pub advanced : FileData → Option FileData
  advanced fd =
      let sector = u32 (fd.current_sector + 1) in
      if leb (BootSector.sectors_per_cluster f.boot_sector) sector
      then elim (next_cluster f.fat fd.current_cluster) [
        | none ↦ none
        | some cluster ↦ some (record fd { current_sector = 0; current_cluster = cluster })
      ]
      else some (record fd { current_sector = sector })

  -- The loading bar divides by `max_sector`.
  pub loading_bar : ℕ → ℕ → Step (Io W) (Unit {0})
  loading_bar max_sector byte_count =
      if max_sector == 0
      then fault
      else on_console (λ c.
        some (putchr (u32 (79 * sub32 max_sector (byte_count / 512)) / max_sector) 24 0xDB c))

  pub read_next_sector : Reading → Step (Io W) Outcome
  read_next_sector s = do
    let max_sector = if s.max_sector == 0 then s.byte_count / 512 else s.max_sector
    reply ←
        read_sectors bios disk (u32 (cluster_to_lba f s.fd.current_cluster + s.fd.current_sector)) 1
    let s' = record s {
      fd = record s.fd { buffer = overwrite s.fd.buffer reply.bytes };
      max_sector = max_sector;
    }
    if reply.status == 0
        then (do loading_bar max_sector s.byte_count; pure (goes_on s'))
        else (do log error fat_log_id (literal (codes "Read error!")) []; pure (stops s'))

  pub next_file_sector : Reading → Step (Io W) Outcome
  next_file_sector s = elim (advanced s.fd) [
    | none ↦ fault
    | some fd ↦
        if leb 0xFF8 fd.current_cluster
        then pure (stops (record s { fd = record fd { size = fd.position } }))
        else read_next_sector (record s { fd = fd })
  ]

  -- One round of the loop.
  pub round : Reading → Step (Io W) Outcome
  round s =
      let first = s.fd.position % 512 in
      let left = 512 - first in
      let count = min s.byte_count left in
      elim (copied s.fd.buffer first count) [
        | none ↦ fault
        | some bytes ↦
            let s' = record s {
              fd = record s.fd { position = u32 (s.fd.position + count) };
              out = s.out ++ bytes;
              byte_count = s.byte_count - count;
            } in
            if left == count
            then (if s.fd.handle == root_directory_handle
                then next_root_sector s'
                else next_file_sector s')
            else pure (goes_on s')
      ]

  -- The loop, with so many rounds at most.
  pub read_loop : ℕ → Reading → Step (Io W) Reading
  read_loop zero s = if s.byte_count == 0 then pure s else fault
  read_loop (suc rounds) s = if s.byte_count == 0 then pure s else (do
    outcome ← round s
    elim outcome [ goes_on s' ↦ read_loop rounds s' | stops s' ↦ pure s' ])
