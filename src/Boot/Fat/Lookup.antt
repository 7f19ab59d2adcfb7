-- ===== src/Boot/Fat/Lookup.antt =====
-- src/boot/stage2/libs/fat.c: FAT_FindFile and FAT_Open. The path and the name stand in a memory of
-- bytes; loops that end at a terminator, or with the directory, run on `rounds`.
pub mod Names
pub mod Padding
pub mod ShortNames
pub mod InRoot
pub mod Buffer
pub mod Messages
pub mod Named
pub mod Entry
pub mod Opened
pub mod Missing
use mathlib.Core.Bool.{not}
use netclover.Prelude.{
  ℕ, zero, suc, ◌+◌, ◌-◌, ◌*◌, ◌^◌, Bool, true, false, ◌&&◌, ◌||◌, Option, none, some, List, [],
  ◌∷◌, ◌++◌, ◌==◌, if◌then◌else◌, ltb, leb, get_or, set, take, replicate, codes, store, bit_and,
}
use netclover.Libc.Ctype.{toupper}
use netclover.Libc.Printf.{ptr}
use netclover.Libc.Strings.{Memory, memcpy, memcmp, strlen, strchr}
use netclover.Boot.Io.{Io, Step, pure, fault, ◌>>=◌, ◌>>◌}
use netclover.Boot.Logger.{normal, error, literal, log}
use netclover.Boot.Disk.{Disk, Bios}
use netclover.Boot.Fat.BootSector.{byte_at, word_at}
use netclover.Boot.Fat.{DirectoryEntry, fat_log_id}
use netclover.Boot.Fat.Files.{
  File, null, root, opened, Session, on_io, defined, close, read_entry, open_entry,
}

-- The first eight bytes, up to the extension: `i` counts up to 8.
pub base_bytes : Memory → ℕ → ℕ → ℕ → ℕ → List ℕ → List ℕ
base_bytes m name ext zero i fat_name = fat_name
base_bytes m name ext (suc left) i fat_name =
    if not (m (name + i) == 0) && ltb (name + i) ext
    then base_bytes m name ext left (i + 1) (set fat_name i (toupper (m (name + i))))
    else fat_name

-- The three bytes behind the dot.
pub extension_bytes : Memory → ℕ → ℕ → ℕ → List ℕ → List ℕ
extension_bytes m ext zero i fat_name = fat_name
extension_bytes m ext (suc left) i fat_name =
    if m (ext + i + 1) == 0
    then fat_name
    else extension_bytes m ext left (i + 1) (set fat_name (i + 8) (toupper (m (ext + i + 1))))

-- Where the dot stands, or eleven bytes on if there is none.
abbrev pub extension_at : ℕ → Option ℕ → ℕ
extension_at name none = name + 11
extension_at name (some p) = p

-- The name as it stands in a directory, with its terminator.
pub fat_name : ℕ → Memory → ℕ → Option (List ℕ)
fat_name rounds m name = elim (strchr rounds (some name) b'.' m) [
  | none ↦ none
  | some found ↦
      let ext = extension_at name found in
      let base = base_bytes m name ext 8 0 (replicate 11 b' ' ++ (0 ∷ [])) in
      some (if ext == name + 11 then base else extension_bytes m ext 3 0 base)
]

-- The fields, by their places in the packed struct.
abbrev pub entry_of : List ℕ → DirectoryEntry
entry_of bytes = record {
  name = take 11 bytes;
  attributes = byte_at bytes 11;
  first_cluster_high = word_at bytes 20;
  first_cluster_low = word_at bytes 26;
  size = word_at bytes 28 + word_at bytes 30 * 2 ^ 16;
}

-- `memcmp` of two objects: a memory that holds the one and, behind it, the other.
abbrev pub same_name : List ℕ → List ℕ → Bool
same_name fat_name entry = memcmp 0 12 11 (λ p. get_or (fat_name ++ entry) p 0) == 0

-- So many bytes from an address on.
abbrev pub bytes_from : Memory → ℕ → ℕ → List ℕ
bytes_from m p zero = []
bytes_from m p (suc n) = m p ∷ bytes_from m (p + 1) n

-- `char name[MAX_PATH_SIZE]`
abbrev pub max_path_size : ℕ
max_path_size = 256

module _ {W : Type 0} (bios : Bios W) (disk : Disk) where
  -- The entry, if there is one; more rounds than entries are enough.
  pub find_loop : ℕ → File → List ℕ → Step (Session W) (Option DirectoryEntry)
  find_loop zero file wanted = fault
  find_loop (suc rounds) file wanted = do
    (whole, entry) ← read_entry bios disk file
    elim whole [
      | false ↦ pure none
      | true ↦ elim (same_name wanted entry) [
        | true ↦ pure (some (entry_of entry))
        | false ↦ find_loop rounds file wanted
      ]
    ]

  pub find_file : ℕ → File → Memory → ℕ → Step (Session W) (Option DirectoryEntry)
  find_file rounds file m name = do
    wanted ← defined (fat_name rounds m name)
    find_loop rounds file wanted

  -- A name from the path in the buffer, its terminator one byte behind the end; undefined where that
  -- leaves the buffer.
  pub put_name : ℕ → ℕ → ℕ → Memory → Option Memory
  put_name path name length m =
      if leb max_path_size (length + 1)
      then none
      else some (store (memcpy name path length m) (name + length + 1) 0)

  -- The next name of the path in its buffer, what is left of the path, and whether it is the last.
  pub next_name : ℕ → ℕ → ℕ → Memory → Option (Memory × ℕ × Bool)
  next_name rounds path name m = elim (strchr rounds (some path) b'/' m) [
    | none ↦ none
    | some (some delim) ↦ elim (put_name path name (delim - path) m) [
      | none ↦ none
      | some m' ↦ some (m', delim + 1, false)
    ]
    | some none ↦ elim (strlen rounds path m) [
      | none ↦ none
      | some length ↦ elim (put_name path name length m) [
        | none ↦ none
        | some m' ↦ some (m', path + length, true)
      ]
    ]
  ]

  pub open_found : ℕ → Memory → Bool → Option DirectoryEntry → Step (Session W) (Option File)
  open_found name m is_last none = do
    on_io (
        log error fat_log_id (literal (codes "file \"%s\" not found"))
          (ptr (bytes_from m name max_path_size) ∷ []))
    pure none
  open_found name m is_last (some entry) =
      if not is_last && (bit_and entry.attributes 0x10 == 0)
      then (do
        on_io (
            log error fat_log_id (literal (codes "%s is not a directory"))
              (ptr (bytes_from m name max_path_size) ∷ []))
        pure none)
      else (do
        on_io (
            log normal fat_log_id (literal (codes "Opening %s"))
              (ptr (bytes_from m name max_path_size) ∷ []))
        file ← open_entry bios disk entry
        pure (some file))

  -- The loop over the names of the path. Without a file it returns null.
  pub open_loop : ℕ → ℕ → ℕ → Memory → File → Step (Session W) File
  open_loop zero path name m current = fault
  open_loop (suc rounds) path name m current = elim (m path == 0) [
    | true ↦ pure current
    | false ↦ (do
      (m', rest, is_last) ← defined (next_name rounds path name m)
      found ← find_file rounds current m' name
      close current
      next ← open_found name m' is_last found
      elim next [ none ↦ pure null | some file ↦ open_loop rounds rest name m' file ])
  ]

  -- `path` and `name` are the addresses of the argument and of the buffer, a local variable, which is
  -- gone when the call ends: no memory is handed on.
  pub open_path : ℕ → ℕ → ℕ → Memory → Step (Session W) File
  open_path rounds path name m =
      open_loop rounds (if m path == b'/' then path + 1 else path) name m root
