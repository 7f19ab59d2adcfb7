-- ===== src/Boot/Fat/Lookup/Missing.antt =====
-- `FAT_Open` of a file that the root directory does not have.
use netclover.Prelude.{ℕ, suc, ◌+◌, ◌<◌, ◌≡◌, refl, arith, true, none, some, List, ◌==◌, length}
use netclover.Libc.Strings.{Memory}
use netclover.Boot.Io.{Io, ◌>>=◌, ◌>>◌}
use netclover.Boot.Disk.{Disk, Bios}
use netclover.Boot.Disk.Geometry.{IsGeometry}
use netclover.Boot.Disk.Reading.{IsFaithful, IsReliable}
use netclover.Boot.Fat.{FileData, FatData}
use netclover.Boot.Fat.RootReading.{sectors_of, root_at}
use netclover.Boot.Fat.Files.{null, root}
use netclover.Boot.Fat.Files.RootFile.{with_root}
use netclover.Boot.Fat.Files.RootClose.{closed_at}
use netclover.Boot.Fat.Files.Opening.{with_files}
use netclover.Boot.Fat.Lookup.{open_found, open_loop, open_path}
use netclover.Boot.Fat.Lookup.Messages.{not_found_log}
use netclover.Boot.Fat.Lookup.Buffer.{next_name-last}
use netclover.Boot.Fat.Lookup.ShortNames.{spelled, short_name}
use netclover.Boot.Fat.Lookup.InRoot.{Found, entry_at}
use netclover.Boot.Fat.Lookup.Named.{
  path_start, IsPathName, close-closed_at, m', whole, name-Text, name-length,
}
use netclover.Boot.Fat.Lookup.Entry.{IsRootDirectory, find_file-entry}

module _ {W : Type 0} (bios : Bios W) (disk : Disk) (m : Memory) (path name : ℕ) (base ext : List ℕ)
    (n : IsPathName m path name base ext) (f : FatData) (bytes : ℕ → ℕ) (fd : FileData)
    (entries : ℕ) (g : IsGeometry disk) (drive : disk.id < 256)
    (faithful : IsFaithful bios disk (sectors_of bytes)) (reliable : IsReliable bios disk)
    (r : IsRootDirectory disk fd entries) (disk_bytes : (a : ℕ) → bytes a < 256) where
  open_loop-missing :
      (k : ℕ) (files : List FileData) (io : Io W)
      → length (spelled base (some ext)) + 1 < suc k
      → entries < suc k
      → Found (short_name base (some ext)) (entry_at bytes fd) 0 entries none
      → (p : ℕ) × (io' : Io W) × (open_loop bios disk
            (suc (suc k))
            path
            name
            m
            root
            (record { io = io; fat_data = with_root (with_files f files) (root_at bytes fd 0) })
          ≡ some (
            null,
            record { io = io'; fat_data = with_root (with_files f files) (closed_at bytes fd p) },
          ))
  unfolding open_loop open_found
  open_loop-missing k files io few fewer found =
      let named =
        next_name-last m path name (spelled base (some ext)) n.text n.short n.apart bios disk
          (suc k) n.no_slash (omega arith) in
      let (p, io₁, looked_up) =
        find_file-entry bios disk m path name base ext n f bytes fd entries g drive faithful
          reliable r disk_bytes (suc k) files none io few fewer found in
      let closed = close-closed_at (with_files f files) bytes fd p io₁ in
      let (io', printed, same) =
        not_found_log (m' m path name base ext n) name (whole m path name base ext n) io₁
          (name-Text m path name base ext n) (omega (arith, name-length m path name base ext n)) in
      (
        p,
        io',
        rw
            (
              open_loop,
              path_start m path name base ext n,
              ◌>>=◌,
              named,
              looked_up,
              ◌>>◌,
              closed,
              open_found,
              printed,
            )
            refl,
      )

  -- The same directory and path. If no entry of the directory has the name, `FAT_Open` gives null,
  -- and leaves the root directory closed, and other files alone.
  pub open_path-missing :
      (k slash : ℕ) (files : List FileData) (io : Io W)
      → slash + 1 ≡ path
      → m slash ≡ b'/'
      → length (spelled base (some ext)) + 1 < suc k
      → entries < suc k
      → Found (short_name base (some ext)) (entry_at bytes fd) 0 entries none
      → (p : ℕ) × (io' : Io W) × (open_path bios disk
            (suc (suc k))
            slash
            name
            m
            (record { io = io; fat_data = with_root (with_files f files) (root_at bytes fd 0) })
          ≡ some (
            null,
            record { io = io'; fat_data = with_root (with_files f files) (closed_at bytes fd p) },
          ))
  unfolding open_path
  open_path-missing k slash files io next at_slash few fewer found =
      let (p, io', e) = open_loop-missing k files io few fewer found in
      let leading : (m slash == b'/') ≡ true = ground arith in
      (p, io', rw (open_path, leading, next) e)
