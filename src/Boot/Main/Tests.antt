-- ===== src/Boot/Main/Tests.antt =====
-- Runs of the second stage on a floppy with a kernel.
use netclover.Prelude.{ℕ, ◌≡◌, inl, inr, refl, arith, true, some, [], ◌∷◌, codes}
use netclover.Libc.Ctype.{toupper, islower}
use netclover.Libc.Strings.{Memory}
use netclover.Boot.Io.{Io}
use netclover.Boot.Fat.{root_directory_handle, FileData}
use netclover.Boot.Fat.Slices.{slice}
use netclover.Boot.Fat.RootReading.{root_at}
use netclover.Boot.Fat.FileReading.{file_at, file_byte}
use netclover.Boot.Fat.Files.{opened, read}
use netclover.Boot.Fat.Files.ChainFile.{read-file}
use netclover.Boot.Fat.Files.RootFile.{with_root}
use netclover.Boot.Fat.Files.RootClose.{closed_at}
use netclover.Boot.Fat.Files.Opening.{with_files, opened_file}
use netclover.Boot.Fat.Lookup.{open_path}
use netclover.Boot.Fat.Lookup.Named.{IsPathName}
use netclover.Boot.Fat.Lookup.Entry.{IsRootDirectory}
use netclover.Boot.Fat.Lookup.Opened.{open_path-opened}
use netclover.Boot.Fat.Lookup.InRoot.{Found, here, later, entry_at}
use netclover.Boot.Main.{load_loop}
use netclover.Boot.Main.Load.Reads.{at_chunk}
use netclover.Boot.Main.Load.Chunks.{load_loop-Loaded}
use netclover.Boot.Main.Prologue.{boot_disk}
use netclover.Boot.Main.Booting.{kernel_name}
use netclover.Boot.Main.Load.{Loaded}
use netclover.Boot.Main.Floppy.{
  bytes, reply, floppy_with, memory, empty_file, nine_files, start, chain, data_section,
  kernel_entry, kernel-IsFileOf,
}

-- An open file of so many bytes in those clusters, at its first handle.
abbrev file_of : ℕ → FileData
file_of size = record empty_file { size = size; opened = true; first_cluster = 2 }

read-file_example :
    (io' : Io ℕ) × (read (floppy_with bytes) (boot_disk 0 reply) (opened 0) 1000 (record {
      io = start;
      fat_data =
          with_files data_section
            (file_at data_section chain 3 bytes (file_of 1100) 100 ∷ nine_files);
    })
      ≡ some (
        slice (file_byte data_section chain bytes) 100 1000,
        record {
          io = io';
          fat_data =
              with_files data_section
                (file_at data_section chain 3 bytes (file_of 1100) 1100 ∷ nine_files);
        },
      ))
read-file_example =
    read-file (floppy_with bytes) (boot_disk 0 reply) data_section chain 3 kernel-IsFileOf.links
      bytes (file_of 1100) (omega arith) refl (omega arith) (omega arith) (omega arith)
      (omega arith) (λ call w _ _. refl) (λ call w _. refl)
      (file_at data_section chain 3 bytes (file_of 1100) 100 ∷ nine_files) 100 1000 start refl
      (omega arith) (omega arith) (inr (inl (omega arith)))

load_loop-Loaded_example :
    (m' : Memory) × (io' : Io ℕ) × (load_loop
        (floppy_with bytes)
        (boot_disk 0 reply)
        2
        (opened 0)
        0x100000
        memory
        (at_chunk data_section chain 3 bytes (file_of 1100) (empty_file ∷ nine_files) 0 start)
      ≡ some (
        m',
        at_chunk data_section chain 3 bytes (file_of 1100) (empty_file ∷ nine_files) 1100 io',
      ))
    × Loaded memory (file_byte data_section chain bytes) 1100 m'
load_loop-Loaded_example =
    load_loop-Loaded (floppy_with bytes) (boot_disk 0 reply) data_section chain 3
      kernel-IsFileOf.links bytes (file_of 1100) (omega arith) refl (omega arith) (omega arith)
      (omega arith) (omega arith) (λ call w _ _. refl) (λ call w _. refl) 2
      (empty_file ∷ nine_files) memory start (inr (omega arith)) (omega arith) (omega arith)

memory-IsPathName : IsPathName memory 101 1000 (codes "kernel") (codes "bin")
memory-IsPathName = record {
  text = omega arith;
  short = omega arith;
  apart = inl (omega arith);
  no_dot = omega arith;
  not_eleven = omega arith;
  three = refl;
  no_slash = omega arith;
  low = λ a. omega arith;
}

abbrev root_directory : FileData
root_directory = record empty_file {
  handle = root_directory_handle;
  is_directory = true;
  size = 512;
  opened = true;
  first_cluster = 2;
}

root_directory-IsRootDirectory : IsRootDirectory (boot_disk 0 reply) root_directory 16
root_directory-IsRootDirectory = record {
  directory = refl;
  sized = refl;
  some_entry = omega arith;
  size_bound = omega arith;
  first_bound = omega arith;
  inside = omega arith;
}

named-Found : Found kernel_name (entry_at bytes root_directory) 0 16 (some kernel_entry)
unfolding toupper islower
named-Found = later (ground arith) (here refl refl)

open_path-opened_example :
    (p : ℕ) × (io' : Io ℕ) × (open_path
        (floppy_with bytes)
        (boot_disk 0 reply)
        30
        100
        1000
        memory
        (record {
          io = start;
          fat_data =
              with_root
                (with_files data_section (empty_file ∷ nine_files))
                (root_at bytes root_directory 0);
        })
      ≡ some (
        opened 0,
        record {
          io = io';
          fat_data =
              with_root
                (with_files data_section (
                  opened_file
                    (floppy_with bytes)
                    (boot_disk 0 reply)
                    bytes
                    data_section
                    0
                    empty_file
                    kernel_entry
                  ∷ nine_files))
                (closed_at bytes root_directory p);
        },
      ))
open_path-opened_example =
    open_path-opened (floppy_with bytes) (boot_disk 0 reply) memory 101 1000 (codes "kernel")
      (codes "bin") memory-IsPathName data_section bytes root_directory 16 (omega arith)
      (omega arith) (λ call w _ _. refl) (λ call w _. refl) root_directory-IsRootDirectory
      (λ a. omega arith) 28 100 [] nine_files empty_file kernel_entry start refl refl (omega arith)
      (omega arith) named-Found tt refl (omega arith) (omega arith)
