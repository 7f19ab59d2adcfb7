-- ===== src/Boot/Fat/Lookup/Opened.antt =====
-- `FAT_Open` of a file in the root directory.
use netclover.Prelude.{
  ℕ, suc, ◌+◌, ◌<◌, ◌≡◌, refl, arith, true, false, some, List, ◌∷◌, ◌++◌, All, ◌==◌, length,
}
use netclover.Libc.Strings.{Memory}
use netclover.Boot.Io.{Io, ◌>>=◌, ◌>>◌}
use netclover.Boot.Disk.{Disk, Bios}
use netclover.Boot.Disk.Geometry.{IsGeometry, capacity}
use netclover.Boot.Disk.Reading.{IsFaithful, IsReliable}
use netclover.Boot.Fat.{FileData, FatData, DirectoryEntry, cluster_to_lba, root_directory_handle}
use netclover.Boot.Fat.RootReading.{sectors_of, root_at}
use netclover.Boot.Fat.Files.{root, opened, entry_file}
use netclover.Boot.Fat.Files.RootFile.{with_root}
use netclover.Boot.Fat.Files.RootClose.{closed_at}
use netclover.Boot.Fat.Files.Opening.{IsOpen, with_files, first_lba, opened_file, open_entry-opened}
use netclover.Boot.Fat.Lookup.{open_found, open_loop, open_path}
use netclover.Boot.Fat.Lookup.Messages.{opening_log}
use netclover.Boot.Fat.Lookup.Buffer.{next_name-last}
use netclover.Boot.Fat.Lookup.ShortNames.{spelled, short_name}
use netclover.Boot.Fat.Lookup.InRoot.{Found, entry_at}
use netclover.Boot.Fat.Lookup.Named.{
  path_start, path_end, IsPathName, close-closed_at, m', whole, name-Text, name-length,
}
use netclover.Boot.Fat.Lookup.Entry.{IsRootDirectory, find_file-entry}

module _ {W : Type 0} (bios : Bios W) (disk : Disk) (m : Memory) (path name : ℕ) (base ext : List ℕ)
    (n : IsPathName m path name base ext) (f : FatData) (bytes : ℕ → ℕ) (fd : FileData)
    (entries : ℕ) (g : IsGeometry disk) (drive : disk.id < 256)
    (faithful : IsFaithful bios disk (sectors_of bytes)) (reliable : IsReliable bios disk)
    (r : IsRootDirectory disk fd entries) (disk_bytes : (a : ℕ) → bytes a < 256) where
  open_found-opened :
      (used rest : List FileData) (old : FileData) (entry : DirectoryEntry) (p : ℕ) (io : Io W)
      → All IsOpen used
      → old.opened ≡ false
      → length used < root_directory_handle
      → first_lba bios disk bytes f (length used) old entry < capacity disk
      → (io' : Io W) × (open_found bios disk name
            (m' m path name base ext n)
            true
            (some entry)
            (record {
              io = io;
              fat_data = with_root (with_files f (used ++ old ∷ rest)) (closed_at bytes fd p);
            })
          ≡ some (
            some (opened (length used)),
            record {
              io = io';
              fat_data =
                  with_root
                    (with_files f
                      (used ++ opened_file bios disk bytes f (length used) old entry ∷ rest))
                    (closed_at bytes fd p);
            },
          ))
  unfolding open_found cluster_to_lba entry_file
  open_found-opened used rest old entry p io in_use free low inside_disk =
      let (io₁, printed, same) =
        opening_log (m' m path name base ext n) name (whole m path name base ext n) io
          (name-Text m path name base ext n) (omega (arith, name-length m path name base ext n)) in
      let (io', e) =
        open_entry-opened bios disk bytes (with_root f (closed_at bytes fd p)) used rest old entry g
          drive faithful reliable in_use free io₁ low inside_disk in
      (io', rw (◌>>=◌, ◌>>◌, printed, e) refl)

  open_loop-opened :
      (k : ℕ) (used rest : List FileData) (old : FileData) (entry : DirectoryEntry) (io : Io W)
      → length (spelled base (some ext)) + 1 < suc k
      → entries < suc k
      → Found (short_name base (some ext)) (entry_at bytes fd) 0 entries (some entry)
      → All IsOpen used
      → old.opened ≡ false
      → length used < root_directory_handle
      → first_lba bios disk bytes f (length used) old entry < capacity disk
      → (p : ℕ) × (io' : Io W) × (open_loop bios disk (suc (suc k)) path name m root (record {
        io = io;
        fat_data = with_root (with_files f (used ++ old ∷ rest)) (root_at bytes fd 0);
      })
          ≡ some (
            opened (length used),
            record {
              io = io';
              fat_data =
                  with_root
                    (with_files f
                      (used ++ opened_file bios disk bytes f (length used) old entry ∷ rest))
                    (closed_at bytes fd p);
            },
          ))
  unfolding open_loop
  open_loop-opened k used rest old entry io few fewer found in_use free low inside_disk =
      let named =
        next_name-last m path name (spelled base (some ext)) n.text n.short n.apart bios disk
          (suc k) n.no_slash (omega arith) in
      let (p, io₁, looked_up) =
        find_file-entry bios disk m path name base ext n f bytes fd entries g drive faithful
          reliable r disk_bytes (suc k) (used ++ old ∷ rest) (some entry) io few fewer found in
      let closed = close-closed_at (with_files f (used ++ old ∷ rest)) bytes fd p io₁ in
      let (io', e) = open_found-opened used rest old entry p io₁ in_use free low inside_disk in
      (
        p,
        io',
        rw
            (
              open_loop,
              path_start m path name base ext n,
              ◌>>=◌,
              named,
              looked_up,
              ◌>>◌,
              closed,
              e,
              open_loop,
              path_end m path name base ext n,
            )
            refl,
      )

  -- The root directory, of one entry to 2 ^ 26 - 1, stands at its start, with its buffer filled from
  -- the disk, on a faithful drive of bytes whose reads work and that holds it. The path in the memory,
  -- of bytes, is a slash and a name: a part without a dot that has not eleven characters, a dot and an
  -- extension of three characters, fewer than 255 in all and none of them a slash. The buffer for the
  -- name lies apart from the path. An entry of the directory is the first one with this name, the
  -- files before some place are open and the one there is not, with an index below the root
  -- directory's handle, and the first sector of the entry's first cluster lies inside the drive. With
  -- at least two rounds more than the directory has entries and the path characters, `FAT_Open` then
  -- gives that file, opened for the entry, whatever byte is left over behind the name in the buffer;
  -- it leaves the root directory closed, and other files alone.
  pub open_path-opened :
      (k slash : ℕ) (used rest : List FileData) (old : FileData) (entry : DirectoryEntry)
      (io : Io W)
      → slash + 1 ≡ path
      → m slash ≡ b'/'
      → length (spelled base (some ext)) + 1 < suc k
      → entries < suc k
      → Found (short_name base (some ext)) (entry_at bytes fd) 0 entries (some entry)
      → All IsOpen used
      → old.opened ≡ false
      → length used < root_directory_handle
      → first_lba bios disk bytes f (length used) old entry < capacity disk
      → (p : ℕ) × (io' : Io W) × (open_path bios disk (suc (suc k)) slash name m (record {
        io = io;
        fat_data = with_root (with_files f (used ++ old ∷ rest)) (root_at bytes fd 0);
      })
          ≡ some (
            opened (length used),
            record {
              io = io';
              fat_data =
                  with_root
                    (with_files f
                      (used ++ opened_file bios disk bytes f (length used) old entry ∷ rest))
                    (closed_at bytes fd p);
            },
          ))
  unfolding open_path
  open_path-opened k slash used rest old entry io next at_slash few fewer found in_use free low
        inside_disk =
      let (p, io', e) =
        open_loop-opened k used rest old entry io few fewer found in_use free low inside_disk in
      let leading : (m slash == b'/') ≡ true = ground arith in
      (p, io', rw (open_path, leading, next) e)
