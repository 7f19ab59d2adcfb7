-- ===== src/Boot/Main/Load/Chunks.antt =====
-- The rounds of the loop that loads the kernel.
use mathlib.Core.Path.{subst}
use netclover.Prelude.{
  ℕ, zero, suc, ◌+◌, ◌-◌, ◌*◌, ◌/◌, ◌%◌, ◌^◌, ◌≤◌, ◌<◌, ◌≡◌, ◌∙◌, ◌⊎◌, inl, inr, refl, ap, arith,
  false, some, List, u32, length,
}
use netclover.Libc.Strings.{Memory}
use netclover.Boot.Io.{Io}
use netclover.Boot.Disk.{Disk, Bios}
use netclover.Boot.Disk.Geometry.{IsGeometry}
use netclover.Boot.Disk.Reading.{IsFaithful, IsReliable}
use netclover.Boot.Fat.{FileData, FatData, root_directory_handle}
use netclover.Boot.Fat.RootReading.{sectors_of}
use netclover.Boot.Fat.Slices.{slice, length-slice}
use netclover.Boot.Fat.FileReading.{per_cluster, IsChain, file_byte}
use netclover.Boot.Fat.Files.{opened, Session}
use netclover.Boot.Fat.Files.RootFile.{readable}
use netclover.Boot.Main.{memory_load_size, memory_kernel_addr, moved, load_loop}
use netclover.Boot.Main.Load.{Loaded, Loaded-nothing, moved-Loaded}
use netclover.Boot.Main.Load.Reads.{
  load_loop-ends, load_loop-goes_on, IsLoadable, IsSafe-chunk, chunks_left, readable-progress,
  at_chunk, read_chunk,
}

module _ {W : Type 0} (bios : Bios W) (disk : Disk) (f : FatData) (chain : ℕ → ℕ) (clusters : ℕ)
    (h : IsChain disk f chain clusters) (bytes : ℕ → ℕ) (fd : FileData)
    (low : fd.handle < root_directory_handle) (a_file : fd.is_directory ≡ false)
    (fits : fd.size ≤ 512 * (clusters * per_cluster f)) (size_bound : fd.size < 2 ^ 31)
    (g : IsGeometry disk) (drive : disk.id < 256)
    (faithful : IsFaithful bios disk (sectors_of bytes)) (reliable : IsReliable bios disk) where
  abbrev here : List FileData → ℕ → Io W → Session W
  here = at_chunk f chain clusters bytes fd

  -- From a position on, at which a chunk begins or the file ends.
  load_loop-from :
      (rounds p : ℕ) (files : List FileData) (m m₁ : Memory) (io : Io W)
      → IsLoadable fd.size
      → fd.handle < length files
      → (p % memory_load_size ≡ 0) ⊎ (p ≡ fd.size)
      → p ≤ fd.size
      → chunks_left fd.size p < rounds
      → Loaded m (file_byte f chain bytes) p m₁
      → (m' : Memory) × (io' : Io W) × (load_loop bios disk rounds
            (opened fd.handle)
            (memory_kernel_addr + p)
            m₁
            (here files p io)
          ≡ some (m', here files fd.size io'))
        × Loaded m (file_byte f chain bytes) fd.size m'
  load_loop-from zero p files m m₁ io loadable slot place within fuel loaded = absurd (omega arith)
  load_loop-from (suc rounds) p files m m₁ io loadable slot place within fuel loaded =
      let n : ℕ = readable fd p memory_load_size in
      let byte : ℕ → ℕ = file_byte f chain bytes in
      let (next, e) =
        read_chunk bios disk f chain clusters h bytes fd low a_file fits size_bound g drive faithful
          reliable files p n io slot within refl
          (IsSafe-chunk fd (clusters * per_cluster f) p loadable place within) in
      let counted = length-slice byte p n in
      let (short, progress) = readable-progress fd p n refl place within in
      elim progress [
        | inl (empty, end) ↦
            let stop =
              load_loop-ends bios disk rounds (opened fd.handle) (memory_kernel_addr + p) m₁
                (here files p io) (here files (p + n) next) (slice byte p n) e (counted ∙ empty) in
            let last : p + n ≡ fd.size = omega arith in
            (
              m₁,
              next,
              stop ∙ ap (λ q. some (m₁, here files q next)) last,
              subst (λ q. Loaded m byte q m₁) end loaded,
            )
        | inr (more, place', within', fewer) ↦
            let (m', io', rest, all) =
              load_loop-from rounds (p + n) files m
                (moved (memory_kernel_addr + p) (slice byte p n) m₁) next loadable slot place'
                within' (omega arith) (moved-Loaded m m₁ byte p n short loaded) in
            let going =
              load_loop-goes_on bios disk rounds (opened fd.handle) (memory_kernel_addr + p) m₁
                (here files p io) (here files (p + n) next) (slice byte p n) e
                (omega (arith, counted, more)) in
            let ahead : u32 (memory_kernel_addr + p + length (slice byte p n))
                ≡ memory_kernel_addr + (p + n) =
              ap (λ k. u32 (memory_kernel_addr + p + k)) counted ∙ omega arith in
            (
              m',
              io',
              going
                  ∙ ap
                      (λ a.
                        load_loop bios disk rounds (opened fd.handle) a
                          (moved (memory_kernel_addr + p) (slice byte p n) m₁)
                          (here files (p + n) next))
                      ahead
                  ∙ rest,
              all,
            )
      ]

  -- A file of fewer than 2 ^ 31 bytes, not a directory, that its chain of clusters has room for, stands
  -- at its start among the open ones, on a faithful drive whose reads work, of a geometry that the
  -- registers can address. What its last read leaves behind the whole chunks of 65536 bytes is less
  -- than a sector, or two sectors at least. With more rounds than it has chunks, begun ones
  -- included, the loop that loads the kernel then ends: the bytes of the file, along its chain of
  -- clusters, numbered from 2 on where the data section begins, stand at 0x100000 in order, the
  -- program changes no other byte from 0x40000 on but those of the screen at 0xB8000, and the file
  -- stands at its end, with all else in the memory of the file system alone. The buffer for loading lies behind the
  -- memory of the file system and before the screen.
  pub load_loop-Loaded :
      (rounds : ℕ) (files : List FileData) (m : Memory) (io : Io W)
      → (fd.size % memory_load_size < 512) ⊎ (1024 ≤ fd.size % memory_load_size)
      → fd.handle < length files
      → (fd.size + memory_load_size - 1) / memory_load_size < rounds
      → (m' : Memory) × (io' : Io W) × (load_loop bios disk rounds
            (opened fd.handle)
            memory_kernel_addr
            m
            (at_chunk f chain clusters bytes fd files 0 io)
          ≡ some (m', at_chunk f chain clusters bytes fd files fd.size io'))
        × Loaded m (file_byte f chain bytes) fd.size m'
  load_loop-Loaded rounds files m io loadable slot fuel =
      load_loop-from rounds 0 files m m io loadable slot (inl refl) (omega arith) (omega arith)
        (Loaded-nothing m (file_byte f chain bytes))
