-- ===== src/Boot/Main/Load/Faults.antt =====
-- The sizes of a kernel at which the loop that loads it faults.
use netclover.Prelude.{
  ℕ, zero, suc, ◌+◌, ◌-◌, ◌*◌, ◌%◌, ◌^◌, ◌≤◌, ◌<◌, ◌≡◌, ◌∙◌, inl, inr, refl, arith, false, none,
  List, u32, leb, Bool-cases, length, set, get_elem?-set_self,
}
use netclover.Libc.Strings.{Memory}
use netclover.Boot.Io.{Io, ◌>>=◌}
use netclover.Boot.Disk.{Disk, Bios}
use netclover.Boot.Disk.Geometry.{IsGeometry}
use netclover.Boot.Disk.Reading.{IsFaithful, IsReliable}
use netclover.Boot.Fat.{FileData, FatData, root_directory_handle}
use netclover.Boot.Fat.RootReading.{sectors_of}
use netclover.Boot.Fat.Slices.{slice, length-slice}
use netclover.Boot.Fat.FileReading.{per_cluster, IsChain, file_byte, file_at}
use netclover.Boot.Fat.Files.{File, opened, Session, read}
use netclover.Boot.Fat.Files.RootFile.{readable}
use netclover.Boot.Fat.Files.ChainFile.{read-file_faults}
use netclover.Boot.Main.{memory_load_size, memory_kernel_addr, moved, load_loop}
use netclover.Boot.Main.Load.Reads.{at_chunk, read_chunk, load_loop-goes_on}

pub load_loop-none :
    {W : Type 0} (bios : Bios W) (disk : Disk) (rounds : ℕ) (kernelfd : File) (mem_buffer : ℕ)
    (m : Memory) (st : Session W)
    → read bios disk kernelfd memory_load_size st ≡ none
    → load_loop bios disk rounds kernelfd mem_buffer m st ≡ none
unfolding load_loop
load_loop-none bios disk zero kernelfd mem_buffer m st e = refl
load_loop-none bios disk (suc rounds) kernelfd mem_buffer m st e = rw (load_loop, ◌>>=◌, e) refl

-- Between a sector and two are left at the last read, the one behind whole chunks.
abbrev pub IsUnlucky : ℕ → Type 0
IsUnlucky size = (512 < size % memory_load_size) × (size % memory_load_size < 1024)

module _ {W : Type 0} (bios : Bios W) (disk : Disk) (f : FatData) (chain : ℕ → ℕ) (clusters : ℕ)
    (h : IsChain disk f chain clusters) (bytes : ℕ → ℕ) (fd : FileData)
    (low : fd.handle < root_directory_handle) (a_file : fd.is_directory ≡ false)
    (fits : fd.size ≤ 512 * (clusters * per_cluster f)) (size_bound : fd.size < 2 ^ 31)
    (g : IsGeometry disk) (drive : disk.id < 256)
    (faithful : IsFaithful bios disk (sectors_of bytes)) (reliable : IsReliable bios disk) where
  -- From a position on, at which a chunk begins.
  load_loop-none_from :
      (rounds p : ℕ) (files : List FileData) (mem_buffer : ℕ) (m : Memory) (io : Io W)
      → IsUnlucky fd.size
      → fd.handle < length files
      → p % memory_load_size ≡ 0
      → p ≤ fd.size
      → load_loop bios disk rounds
          (opened fd.handle)
          mem_buffer
          m
          (at_chunk f chain clusters bytes fd files p io)
        ≡ none
  unfolding load_loop
  load_loop-none_from zero p files mem_buffer m io unlucky slot place within = refl
  load_loop-none_from (suc rounds) p files mem_buffer m io unlucky slot place within =
      elim (Bool-cases (leb memory_load_size (fd.size - p))) [
        | inl whole ↦
            let enough : memory_load_size ≤ fd.size - p = ground arith in
            let amount : readable fd p memory_load_size ≡ memory_load_size = rw whole refl in
            let (next, e) =
              read_chunk bios disk f chain clusters h bytes fd low a_file fits size_bound g drive
                faithful reliable files p memory_load_size io slot within amount
                (inr (inl (omega arith))) in
            let counted = length-slice (file_byte f chain bytes) p memory_load_size in
            let chunk : List ℕ = slice (file_byte f chain bytes) p memory_load_size in
            load_loop-goes_on bios disk rounds (opened fd.handle) mem_buffer m
              (at_chunk f chain clusters bytes fd files p io)
              (at_chunk f chain clusters bytes fd files (p + memory_load_size) next) chunk e
              (omega (arith, counted))
            ∙ load_loop-none_from rounds (p + memory_load_size) files
                (u32 (mem_buffer + length chunk)) (moved mem_buffer chunk m) next unlucky slot
                (omega arith) (omega arith)
        | inr part ↦
            let few : fd.size - p < memory_load_size = ground arith in
            let amount : readable fd p memory_load_size ≡ fd.size - p = rw part refl in
            let here : FileData = file_at f chain clusters bytes fd p in
            load_loop-none bios disk (suc rounds) (opened fd.handle) mem_buffer m
              (at_chunk f chain clusters bytes fd files p io)
              (read-file_faults bios disk f chain clusters h bytes fd low a_file fits size_bound g
                drive faithful reliable (set files fd.handle here) p memory_load_size io
                (get_elem?-set_self files fd.handle here slot) within (omega arith)
                (rw amount (omega arith)) (rw amount (omega arith)) (omega arith))
      ]

  -- A file of fewer than 2 ^ 31 bytes, not a directory, that its chain of clusters has room for, stands
  -- at its start among the open ones, on a faithful drive whose reads work, of a geometry that the
  -- registers can address. If what its last read leaves behind the whole chunks of 65536 bytes is
  -- more than a sector and less than two, the loop that loads the kernel comes to no result,
  -- however many rounds it has: its last read is one that `read-file_faults` is about.
  load_loop-faults :
      (rounds : ℕ) (files : List FileData) (m : Memory) (io : Io W)
      → 512 < fd.size % memory_load_size
      → fd.size % memory_load_size < 1024
      → fd.handle < length files
      → load_loop bios disk rounds
          (opened fd.handle)
          memory_kernel_addr
          m
          (at_chunk f chain clusters bytes fd files 0 io)
        ≡ none
  load_loop-faults rounds files m io above below slot =
      load_loop-none_from rounds 0 files memory_kernel_addr m io (above, below) slot refl
        (omega arith)
