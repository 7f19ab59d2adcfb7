-- ===== src/Boot/Main/Load/Reads.antt =====
-- The reads of the loop that loads the kernel, chunk by chunk.
use mathlib.Core.Path.{subst}
use netclover.Prelude.{
  ℕ, suc, ◌+◌, ◌-◌, ◌*◌, ◌/◌, ◌%◌, ◌^◌, ◌≤◌, ◌<◌, ◌≡◌, ◌∙◌, ◌⊎◌, inl, inr, refl, sym, ap, arith,
  true, false, some, List, u32, leb, ◌==◌, Bool-cases, length, set, set-set, get_elem?-set_self,
}
use netclover.Libc.Strings.{Memory}
use netclover.Boot.Io.{Io, ◌>>=◌}
use netclover.Boot.Disk.{Disk, Bios}
use netclover.Boot.Disk.Geometry.{IsGeometry}
use netclover.Boot.Disk.Reading.{IsFaithful, IsReliable}
use netclover.Boot.Fat.{FileData, FatData, root_directory_handle}
use netclover.Boot.Fat.RootReading.{sectors_of}
use netclover.Boot.Fat.Slices.{slice}
use netclover.Boot.Fat.FileReading.{per_cluster, IsChain, file_byte, file_at}
use netclover.Boot.Fat.FileReading.Loop.{IsSafe}
use netclover.Boot.Fat.Files.{File, opened, Session, read}
use netclover.Boot.Fat.Files.Opening.{with_files}
use netclover.Boot.Fat.Files.RootFile.{readable}
use netclover.Boot.Fat.Files.ChainFile.{read-file}
use netclover.Boot.Main.{memory_load_size, moved, load_loop}

module _ {W : Type 0} (bios : Bios W) (disk : Disk) (rounds : ℕ) (kernelfd : File) (mem_buffer : ℕ)
    (m : Memory) (st st' : Session W) (bytes : List ℕ)
    (e : read bios disk kernelfd memory_load_size st ≡ some (bytes, st')) where
  pub load_loop-ends :
      length bytes ≡ 0 → load_loop bios disk (suc rounds) kernelfd mem_buffer m st ≡ some (m, st')
  unfolding load_loop
  load_loop-ends empty =
      let stop : (length bytes == 0) ≡ true = ground arith in rw (load_loop, ◌>>=◌, e, stop) refl

  pub load_loop-goes_on :
      0 < length bytes
      → load_loop bios disk (suc rounds) kernelfd mem_buffer m st
        ≡ load_loop bios disk rounds kernelfd
            (u32 (mem_buffer + length bytes))
            (moved mem_buffer bytes m)
            st'
  unfolding load_loop
  load_loop-goes_on more =
      let going : (length bytes == 0) ≡ false = ground arith in rw (load_loop, ◌>>=◌, e, going) refl

-- The last read of a file of this size leaves no loading bar without a sector.
abbrev pub IsLoadable : ℕ → Type 0
IsLoadable size = (size % memory_load_size < 512) ⊎ (1024 ≤ size % memory_load_size)

pub IsSafe-chunk :
    (fd : FileData) (total p : ℕ)
    → IsLoadable fd.size
    → (p % memory_load_size ≡ 0) ⊎ (p ≡ fd.size)
    → p ≤ fd.size
    → IsSafe total p (readable fd p memory_load_size)
IsSafe-chunk fd total p loadable place within =
    elim (Bool-cases (leb memory_load_size (fd.size - p))) [
      | inl whole ↦
          let enough : memory_load_size ≤ fd.size - p = ground arith in
          rw whole (inr (inl (omega arith)))
      | inr part ↦
          let few : fd.size - p < memory_load_size = ground arith in
          rw part (elim place [
            | inr end ↦ inl (omega arith)
            | inl start ↦ elim loadable [
              | inl less ↦ inl (omega arith)
              | inr more ↦ inr (inl (omega arith))
            ]
          ])
    ]

abbrev pub chunks_left : ℕ → ℕ → ℕ
chunks_left size p = (size - p + memory_load_size - 1) / memory_load_size

-- What a chunk brings, and where the next one begins.
pub readable-progress :
    (fd : FileData) (p n : ℕ)
    → readable fd p memory_load_size ≡ n
    → (p % memory_load_size ≡ 0) ⊎ (p ≡ fd.size)
    → p ≤ fd.size
    → (n ≤ memory_load_size)
      × (((n ≡ 0) × (p ≡ fd.size))
          ⊎ ((0 < n)
              × (((p + n) % memory_load_size ≡ 0) ⊎ (p + n ≡ fd.size))
              × (p + n ≤ fd.size)
              × (chunks_left fd.size (p + n) < chunks_left fd.size p)))
readable-progress fd p n e place within = elim (Bool-cases (leb memory_load_size (fd.size - p))) [
  | inl whole ↦
      let enough : memory_load_size ≤ fd.size - p = ground arith in
      let all : memory_load_size ≡ n = rw whole at e in
      (
        omega arith,
        inr (
          omega arith,
          elim place [ inl start ↦ inl (omega arith) | inr end ↦ absurd (omega arith) ],
          omega arith,
          omega arith,
        ),
      )
  | inr part ↦
      let few : fd.size - p < memory_load_size = ground arith in
      let rest : fd.size - p ≡ n = rw part at e in
      (
        omega arith,
        elim (Bool-cases (n == 0)) [
          | inl empty ↦ let none_left : n ≡ 0 = ground arith in inl (none_left, omega arith)
          | inr more ↦
              let some_left : 0 < n = ground arith in
              inr (some_left, inr (omega arith), omega arith, omega arith)
        ],
      )
]

-- The files with one of them at a position.
abbrev pub at_chunk :
    {W : Type 0} → FatData → (ℕ → ℕ) → ℕ → (ℕ → ℕ) → FileData → List FileData → ℕ → Io W → Session W
at_chunk f chain clusters bytes fd files p io = record {
  io = io;
  fat_data = with_files f (set files fd.handle (file_at f chain clusters bytes fd p));
}

module _ {W : Type 0} (bios : Bios W) (disk : Disk) (f : FatData) (chain : ℕ → ℕ) (clusters : ℕ)
    (h : IsChain disk f chain clusters) (bytes : ℕ → ℕ) (fd : FileData)
    (low : fd.handle < root_directory_handle) (a_file : fd.is_directory ≡ false)
    (fits : fd.size ≤ 512 * (clusters * per_cluster f)) (size_bound : fd.size < 2 ^ 31)
    (g : IsGeometry disk) (drive : disk.id < 256)
    (faithful : IsFaithful bios disk (sectors_of bytes)) (reliable : IsReliable bios disk) where
  abbrev here : List FileData → ℕ → Io W → Session W
  here = at_chunk f chain clusters bytes fd

  pub read_chunk :
      (files : List FileData) (p n : ℕ) (io : Io W)
      → fd.handle < length files
      → p ≤ fd.size
      → readable fd p memory_load_size ≡ n
      → IsSafe (clusters * per_cluster f) p n
      → (io' : Io W) × (read bios disk (opened fd.handle) memory_load_size (here files p io)
          ≡ some (slice (file_byte f chain bytes) p n, here files (p + n) io'))
  read_chunk files p n io slot within amount safe =
      let old : FileData = file_at f chain clusters bytes fd p in
      let (io', e) =
        read-file bios disk f chain clusters h bytes fd low a_file fits size_bound g drive faithful
          reliable (set files fd.handle old) p memory_load_size io
          (get_elem?-set_self files fd.handle old slot) within (omega arith)
          (subst (λ k. IsSafe (clusters * per_cluster f) p k) (sym amount) safe) in
      let new : FileData = file_at f chain clusters bytes fd (p + n) in
      (
        io',
        e
            ∙ ap
                (λ k. some (
                  slice (file_byte f chain bytes) p k,
                  record {
                    io = io';
                    fat_data = with_files f (
                        set (set files fd.handle old) fd.handle
                          (file_at f chain clusters bytes fd (p + k)));
                  },
                ))
                amount
            ∙ ap
                (λ fs. some (
                  slice (file_byte f chain bytes) p n,
                  record { io = io'; fat_data = with_files f fs },
                ))
                (set-set files fd.handle old new),
      )
