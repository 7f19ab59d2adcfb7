-- ===== src/Boot/Fat/Lookup/Entry.antt =====
-- The entry of the root directory that `FAT_Open` finds.
use mathlib.Core.Path.{subst}
use netclover.Prelude.{
  ℕ, ◌+◌, ◌*◌, ◌/◌, ◌^◌, ◌<◌, ◌≡◌, ◌∙◌, ap, arith, true, Option, some, List, ◌++◌, length,
}
use netclover.Libc.Strings.{Memory}
use netclover.Boot.Io.{Io}
use netclover.Boot.Disk.{Disk, Bios}
use netclover.Boot.Disk.Geometry.{IsGeometry, capacity}
use netclover.Boot.Disk.Reading.{IsFaithful, IsReliable}
use netclover.Boot.Fat.{FileData, FatData, DirectoryEntry}
use netclover.Boot.Fat.RootReading.{sectors_of, root_at}
use netclover.Boot.Fat.Files.{root}
use netclover.Boot.Fat.Files.RootFile.{with_root}
use netclover.Boot.Fat.Files.Opening.{with_files}
use netclover.Boot.Fat.Lookup.{find_file}
use netclover.Boot.Fat.Lookup.ShortNames.{spelled, short_name}
use netclover.Boot.Fat.Lookup.InRoot.{Found, entry_at, find_file-Found}
use netclover.Boot.Fat.Lookup.Named.{
  IsPathName, Found-unique, short_name-append, m', tail, name-Text, name-bound, name-length,
}

-- A root directory of entries on the disk, that is there as a whole.
pub record IsRootDirectory (disk : Disk) (fd : FileData) (entries : ℕ) : Type 0 where
  pub directory : fd.is_directory ≡ true
  pub sized : fd.size ≡ 32 * entries
  pub some_entry : 0 < entries
  pub size_bound : entries < 2 ^ 26
  pub first_bound : fd.first_cluster < 2 ^ 31
  pub inside : fd.first_cluster + fd.size / 512 < capacity disk

module _ {W : Type 0} (bios : Bios W) (disk : Disk) (m : Memory) (path name : ℕ) (base ext : List ℕ)
    (n : IsPathName m path name base ext) (f : FatData) (bytes : ℕ → ℕ) (fd : FileData)
    (entries : ℕ) (g : IsGeometry disk) (drive : disk.id < 256)
    (faithful : IsFaithful bios disk (sectors_of bytes)) (reliable : IsReliable bios disk)
    (r : IsRootDirectory disk fd entries) (disk_bytes : (a : ℕ) → bytes a < 256) where
  -- The entry that is found, with what stands in the buffer.
  pub find_file-entry :
      (rounds : ℕ) (files : List FileData) (found_one : Option DirectoryEntry) (io : Io W)
      → length (spelled base (some ext)) + 1 < rounds
      → entries < rounds
      → Found (short_name base (some ext)) (entry_at bytes fd) 0 entries found_one
      → (p : ℕ) × (io' : Io W) × (find_file bios disk rounds root
            (m' m path name base ext n)
            name
            (record { io = io; fat_data = with_root (with_files f files) (root_at bytes fd 0) })
          ≡ some (
            found_one,
            record { io = io'; fat_data = with_root (with_files f files) (root_at bytes fd p) },
          ))
  find_file-entry rounds files found_one io few fewer found =
      let (r', p, io', e, found', within) =
        find_file-Found bios disk (with_files f files) bytes fd entries g drive faithful reliable
          r.directory r.sized r.some_entry r.size_bound r.first_bound r.inside
          (m' m path name base ext n) name rounds base (some (ext ++ (tail m path name base ext n)))
          io disk_bytes (name-Text m path name base ext n) (name-bound m path name base ext n)
          n.no_dot n.not_eleven (omega (arith, name-length m path name base ext n)) fewer in
      let found'' : Found (short_name base (some ext)) (entry_at bytes fd) 0 entries r' =
        subst (λ n. Found n (entry_at bytes fd) 0 entries r')
          (short_name-append base ext (tail m path name base ext n) n.three) found' in
      let same : r' ≡ found_one =
        Found-unique (short_name base (some ext)) (entry_at bytes fd) 0 entries r' found_one found''
          found in
      (
        p,
        io',
        e
            ∙ ap
                (λ o. some (
                  o,
                  record {
                    io = io';
                    fat_data = with_root (with_files f files) (root_at bytes fd p);
                  },
                ))
                same,
      )
