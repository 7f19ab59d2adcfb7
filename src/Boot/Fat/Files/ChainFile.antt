-- ===== src/Boot/Fat/Files/ChainFile.antt =====
-- `FAT_Read` of an open file, along the chain of its clusters.
use netclover.Prelude.{
  none, ℕ, ◌+◌, ◌-◌, ◌*◌, ◌/◌, ◌%◌, ◌^◌, ◌≤◌, ◌<◌, ◌≡◌, inl, inr, refl, arith, false, some, List,
  [], Bool-cases, leb, ◌==◌, get_elem?, set,
}
use netclover.Boot.Io.{Io, ◌>>=◌, ◌>>◌}
use netclover.Boot.Disk.{Disk, Bios}
use netclover.Boot.Disk.Geometry.{IsGeometry}
use netclover.Boot.Disk.Reading.{IsFaithful, IsReliable}
use netclover.Boot.Fat.{FileData, FatData, root_directory_handle, read_loop, cluster_to_lba}
use netclover.Boot.Fat.RootReading.{sectors_of}
use netclover.Boot.Fat.Slices.{slice}
use netclover.Boot.Fat.FileReading.{per_cluster, IsChain, file_byte, file_at, file_reading}
use netclover.Boot.Fat.FileReading.Faults.{read_loop-file_faults}
use netclover.Boot.Fat.FileReading.Loop.{IsSafe, read_loop-file}
use netclover.Boot.Fat.Files.{null, opened, Session, pointee, data_of, put_data, clamped, read}
use netclover.Boot.Fat.Files.Opening.{with_files}
use netclover.Boot.Fat.Files.RootFile.{readable, clamped-readable}

-- `read` does what the loop does, from the file as it stands.
read_opened-loop :
    {W : Type 0} (bios : Bios W) (disk : Disk) (f : FatData) (files : List FileData) (i : ℕ)
    (fd fd' : FileData) (n count m : ℕ) (out : List ℕ) (io io' : Io W)
    → i < root_directory_handle
    → get_elem? files i ≡ some fd
    → fd.handle ≡ i
    → clamped fd n ≡ count
    → read_loop bios disk (with_files f files) count (file_reading fd [] count 0) io
      ≡ some (file_reading fd' out 0 m, io')
    → read bios disk (opened i) n (record { io = io; fat_data = with_files f files })
      ≡ some (out, record { io = io'; fat_data = with_files f (set files i fd') })
unfolding read pointee data_of put_data
read_opened-loop bios disk f files i fd fd' n count m out io io' low found own clamp e =
    let not_root : (i == root_directory_handle) ≡ false = ground arith in
    rw (found, ◌>>=◌, own, not_root, found, clamp, e, ◌>>◌, own, not_root) refl

read_opened-none :
    {W : Type 0} (bios : Bios W) (disk : Disk) (f : FatData) (files : List FileData) (i : ℕ)
    (fd : FileData) (n count : ℕ) (io : Io W)
    → i < root_directory_handle
    → get_elem? files i ≡ some fd
    → fd.handle ≡ i
    → clamped fd n ≡ count
    → read_loop bios disk (with_files f files) count (file_reading fd [] count 0) io ≡ none
    → read bios disk (opened i) n (record { io = io; fat_data = with_files f files }) ≡ none
unfolding read pointee data_of
read_opened-none bios disk f files i fd n count io low found own clamp e =
    let not_root : (i == root_directory_handle) ≡ false = ground arith in
    rw (found, ◌>>=◌, own, not_root, found, clamp, e) refl

-- A read through the null pointer.
pub read_null :
    {W : Type 0} (bios : Bios W) (disk : Disk) (n : ℕ) (st : Session W)
    → read bios disk null n st ≡ none
unfolding read pointee
read_null bios disk n st = refl

pub IsChain-with_files :
    (disk : Disk) (f : FatData) (files : List FileData) (chain : ℕ → ℕ) (clusters : ℕ)
    → IsChain disk f chain clusters
    → IsChain disk (with_files f files) chain clusters
unfolding cluster_to_lba
IsChain-with_files disk f files chain clusters h = record {
  some_sectors = h.some_sectors;
  linked = h.linked;
  inner = h.inner;
  numbered = h.numbered;
  ended = h.ended;
  inside = h.inside;
}

module _ {W : Type 0} (bios : Bios W) (disk : Disk) (f : FatData) (chain : ℕ → ℕ) (clusters : ℕ)
    (h : IsChain disk f chain clusters) (bytes : ℕ → ℕ) (fd : FileData)
    (low : fd.handle < root_directory_handle) (a_file : fd.is_directory ≡ false)
    (fits : fd.size ≤ 512 * (clusters * per_cluster f)) (size_bound : fd.size < 2 ^ 31)
    (g : IsGeometry disk) (drive : disk.id < 256)
    (faithful : IsFaithful bios disk (sectors_of bytes)) (reliable : IsReliable bios disk) where
  -- An open file, not a directory, of fewer than 2 ^ 31 bytes, that its chain of clusters has room for,
  -- stands at `p`, its buffer filled from the disk. On a faithful drive whose reads work and that
  -- holds the clusters, of a geometry that the registers can address, a read of fewer than 2 ^ 31
  -- bytes that does not cross into another sector, or leaves at least a sector behind the one that
  -- it begins in, or begins in the last one of the chain, returns: it brings the bytes of the file
  -- from `p` on, from cluster to cluster of its chain, where cluster 2 is the first one of the data
  -- section and each has its number of sectors, as many as were asked for or are left, and
  -- leaves the file standing behind them, and all else in the memory of the file system alone.
  pub read-file :
      (files : List FileData) (p n : ℕ) (io : Io W)
      → get_elem? files fd.handle ≡ some (file_at f chain clusters bytes fd p)
      → p ≤ fd.size
      → n < 2 ^ 31
      → IsSafe (clusters * per_cluster f) p (readable fd p n)
      → (io' : Io W) × (read bios disk
            (opened fd.handle)
            n
            (record { io = io; fat_data = with_files f files })
          ≡ some (
            slice (file_byte f chain bytes) p (readable fd p n),
            record {
              io = io';
              fat_data =
                  with_files f
                    (set files fd.handle (file_at f chain clusters bytes fd (p + readable fd p n)));
            },
          ))
  unfolding cluster_to_lba
  read-file files p n io found within bound safe =
      let count : ℕ = readable fd p n in
      let inside : p + count ≤ fd.size = elim (Bool-cases (leb n (fd.size - p))) [
        | inl less ↦ ground (arith, within)
        | inr more ↦ ground (arith, within)
      ] in
      let not_root : (fd.handle == root_directory_handle) ≡ false = ground arith in
      let (m, io', e) =
        read_loop-file bios disk (with_files f files) chain clusters
          (IsChain-with_files disk f files chain clusters h) bytes fd not_root fits g drive faithful
          reliable count p count 0 [] io (omega arith) (omega arith) inside (inr safe) in
      (
        io',
        read_opened-loop bios disk f files fd.handle (file_at f chain clusters bytes fd p)
            (file_at f chain clusters bytes fd (p + count)) n count m _ io io' low found refl
            (clamped-readable (file_at f chain clusters bytes fd p) n (inl a_file) within size_bound
              bound)
            e,
      )

  -- What is left of the file ends less than a sector behind the sector that the read begins in, and
  -- not in it.
  pub read-file_faults :
      (files : List FileData) (p n : ℕ) (io : Io W)
      → get_elem? files fd.handle ≡ some (file_at f chain clusters bytes fd p)
      → p ≤ fd.size
      → n < 2 ^ 31
      → 512 - p % 512 ≤ readable fd p n
      → readable fd p n - (512 - p % 512) < 512
      → p / 512 + 1 < clusters * per_cluster f
      → read bios disk (opened fd.handle) n (record { io = io; fat_data = with_files f files })
        ≡ none
  unfolding cluster_to_lba
  read-file_faults files p n io found within bound across few further =
      let count : ℕ = readable fd p n in
      let inside : p + count ≤ fd.size = elim (Bool-cases (leb n (fd.size - p))) [
        | inl less ↦ ground (arith, within)
        | inr more ↦ ground (arith, within)
      ] in
      let not_root : (fd.handle == root_directory_handle) ≡ false = ground arith in
      let e =
        read_loop-file_faults bios disk (with_files f files) chain clusters
          (IsChain-with_files disk f files chain clusters h) bytes g drive faithful reliable fd
          count p count io (omega arith) not_root (omega arith) across few further in
      read_opened-none bios disk f files fd.handle (file_at f chain clusters bytes fd p) n count io
        low found refl
        (clamped-readable (file_at f chain clusters bytes fd p) n (inl a_file) within size_bound
          bound)
        e
