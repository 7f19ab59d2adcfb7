-- ===== src/Boot/Fat/Files/Opening.antt =====
-- Which file `FAT_OpenEntry` opens.
use netclover.Prelude.{
  ℕ, ◌+◌, ◌*◌, ◌^◌, ◌<◌, ◌≡◌, u32, sub32, bit_and, ◌∙◌, refl, arith, true, false, some, List, [],
  ◌∷◌, ◌++◌, ◌==◌, length, get_elem?, set, ap, All,
}
use mathlib.Core.Bool.{not}
use netclover.Boot.Io.{Io, ◌>>=◌}
use netclover.Boot.Disk.{Disk, Bios}
use netclover.Boot.Disk.Geometry.{IsGeometry, capacity}
use netclover.Boot.Disk.Reading.{IsFaithful, IsReliable, read_sectors-reliable}
use netclover.Boot.Fat.BootSector
use netclover.Boot.Fat.RootReading.{sectors_of}
use netclover.Boot.Fat.{
  FileData, FatData, DirectoryEntry, root_directory_handle, overwrite, cluster_to_lba,
}
use netclover.Boot.Fat.Files.{opened, put_data, free_handle, entry_file, open_entry}

abbrev pub IsOpen : FileData → Type 0
IsOpen fd = fd.opened ≡ true

abbrev pub with_files : FatData → List FileData → FatData
with_files f files = record f { opened_files = files }

free_handle-append :
    (k : ℕ) (used rest : List FileData) (old : FileData)
    → All IsOpen used
    → old.opened ≡ false
    → free_handle k (used ++ old ∷ rest) ≡ some (k + length used)
unfolding free_handle
free_handle-append k [] rest old _ free = rw free (ap some (omega arith))
free_handle-append k (fd ∷ used) rest old (in_use, all) free =
    rw in_use (free_handle-append (k + 1) used rest old all free ∙ ap some (omega arith))

get_elem?-behind :
    (used rest : List FileData) (old : FileData)
    → get_elem? (used ++ old ∷ rest) (length used) ≡ some old
get_elem?-behind [] rest old = refl
get_elem?-behind (fd ∷ used) rest old = get_elem?-behind used rest old

set-behind :
    (used rest : List FileData) (old fd : FileData)
    → set (used ++ old ∷ rest) (length used) fd ≡ used ++ fd ∷ rest
set-behind [] rest old fd = refl
set-behind (u ∷ used) rest old fd = ap (λ r. u ∷ r) (set-behind used rest old fd)

module _ {W : Type 0} (bios : Bios W) (disk : Disk) (bytes : ℕ → ℕ) (f : FatData) (handle : ℕ)
    (old : FileData) (entry : DirectoryEntry) where
  abbrev pub first_cluster_of : ℕ
  first_cluster_of = u32 (entry.first_cluster_low + entry.first_cluster_high * 2 ^ 16)

  -- The first sector of its first cluster, in arithmetic of 32 bits: the data section begins with
  -- cluster 2.
  abbrev pub first_lba : ℕ
  first_lba =
      u32 (f.data_section_lba + sub32 first_cluster_of 2 * BootSector.byte_at f.boot_sector 13)

  -- The file as it is opened.
  abbrev pub opened_file : FileData
  opened_file = record old {
    buffer = overwrite old.buffer (sectors_of bytes first_lba 1);
    handle = handle;
    is_directory = not (bit_and entry.attributes 0x10 == 0);
    position = 0;
    size = entry.size;
    opened = true;
    first_cluster = first_cluster_of;
    current_cluster = first_cluster_of;
    current_sector = 0;
  }

module _ {W : Type 0} (bios : Bios W) (disk : Disk) (bytes : ℕ → ℕ) (f : FatData)
    (used rest : List FileData) (old : FileData) (entry : DirectoryEntry) (g : IsGeometry disk)
    (drive : disk.id < 256) (faithful : IsFaithful bios disk (sectors_of bytes))
    (reliable : IsReliable bios disk) (in_use : All IsOpen used) (free : old.opened ≡ false) where
  abbrev lba : ℕ
  lba = first_lba bios disk bytes f (length used) old entry

  -- The files before some place are open and the one there is not, with an index below the root
  -- directory's handle, and the first sector of the entry's first cluster lies inside a faithful drive,
  -- of a geometry that the registers can address, whose reads work. `FAT_OpenEntry` then gives that
  -- file: it is open, at its start, with its index as its handle, the size, kind and first cluster of
  -- the entry, and the first sector of that cluster, counted in 32 bits from cluster 2 at the start of
  -- the data section, in front of what its buffer held. Everything
  -- else in the memory of the file system is as it was.
  pub open_entry-opened :
      (io : Io W)
      → length used < root_directory_handle
      → first_lba bios disk bytes f (length used) old entry < capacity disk
      → (io' : Io W) × (open_entry bios disk entry
            (record { io = io; fat_data = with_files f (used ++ old ∷ rest) })
          ≡ some (
            opened (length used),
            record {
              io = io';
              fat_data =
                  with_files f
                    (used ++ opened_file bios disk bytes f (length used) old entry ∷ rest);
            },
          ))
  unfolding open_entry entry_file put_data cluster_to_lba
  open_entry-opened io low inside =
      let (reply, io', e, zeroed, brought) =
        read_sectors-reliable bios disk lba 1 (sectors_of bytes) io g inside drive (omega arith)
          faithful reliable in
      let worked : (reply.status == 0) ≡ true = ground arith in
      let not_root : (length used == root_directory_handle) ≡ false = ground arith in
      let found : free_handle 0 (used ++ old ∷ rest) ≡ some (length used) =
        free_handle-append 0 used rest old in_use free ∙ ap some (omega arith) in
      (
        io',
        rw
            (
              found,
              get_elem?-behind used rest old,
              ◌>>=◌,
              e,
              worked,
              not_root,
              brought,
              set-behind used rest old,
            )
            refl,
      )
