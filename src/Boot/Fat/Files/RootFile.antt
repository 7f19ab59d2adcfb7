-- ===== src/Boot/Fat/Files/RootFile.antt =====
-- Reads of the root directory through its pointer, and its close.
use mathlib.Core.Bool.{not}
use netclover.Prelude.{
  ℕ, ◌+◌, ◌-◌, ◌*◌, ◌/◌, ◌^◌, ◌≤◌, ◌<◌, ◌≡◌, ◌∙◌, ◌⊎◌, ◌&&◌, ◌||◌, inl, inr, refl, arith, true,
  false, some, List, [], Bool-cases, leb, sub32, ◌==◌, if◌then◌else◌,
}
use netclover.Libc.Minmax.{min_small}
use netclover.Boot.Io.{Io, ◌>>=◌}
use netclover.Boot.Disk.{Disk, Bios}
use netclover.Boot.Disk.Geometry.{IsGeometry, capacity}
use netclover.Boot.Disk.Reading.{IsFaithful, IsReliable}
use netclover.Boot.Fat.{FileData, FatData, root_directory_handle, read_loop}
use netclover.Boot.Fat.RootReading.{sectors_of, root_at, reading}
use netclover.Boot.Fat.RootReading.Loop.{read_loop-root}
use netclover.Boot.Fat.Slices.{slice}
use netclover.Boot.Fat.Files.{root, pointee, data_of, put_data, clamped, read}

-- How many bytes are left to read.
abbrev pub readable : FileData → ℕ → ℕ → ℕ
readable fd p n = if leb n (fd.size - p) then n else fd.size - p

pub clamped-readable :
    (fd : FileData) (n : ℕ)
    → (fd.is_directory ≡ false) ⊎ (0 < fd.size)
    → fd.position ≤ fd.size
    → fd.size < 2 ^ 31
    → n < 2 ^ 31
    → clamped fd n ≡ readable fd fd.position n
unfolding clamped
clamped-readable fd n sized inside hs hn =
    let left : sub32 fd.size fd.position ≡ fd.size - fd.position = omega arith in
    let limited : (not fd.is_directory || (fd.is_directory && not (fd.size == 0))) ≡ true =
      ground (arith, sized) in
    elim (min_small n (fd.size - fd.position) hn (omega arith)) [
      | inl (e, less) ↦
          let fits : leb n (fd.size - fd.position) ≡ true = ground arith in
          rw (limited, left, fits) e
      | inr (e, more) ↦ elim (Bool-cases (leb n (fd.size - fd.position))) [
        | inl same ↦
            let n_same : fd.size - fd.position ≡ n = ground (arith, more) in
            rw (limited, left, same) (e ∙ n_same)
        | inr above ↦ rw (limited, left, above) e
      ]
    ]

self_le : (n : ℕ) → n ≤ n
self_le n = omega arith

abbrev pub at_root : FileData → FileData
at_root fd = record fd { handle = root_directory_handle }

abbrev pub with_root : FatData → FileData → FatData
with_root f fd = record f { root_directory = fd }

-- `read` does what the loop does, from the root directory as it stands.
pub read_by_loop :
    {W : Type 0} (bios : Bios W) (disk : Disk) (f : FatData) (fd fd' : FileData) (n count : ℕ)
    (out : List ℕ) (io io' : Io W)
    → clamped (at_root fd) n ≡ count
    → read_loop bios disk (with_root f (at_root fd)) count (reading (at_root fd) [] count) io
      ≡ some (reading fd' out 0, io')
    → read bios disk root n (record { io = io; fat_data = with_root f (at_root fd) })
      ≡ some (out, record { io = io'; fat_data = with_root f fd' })
unfolding read pointee data_of put_data
read_by_loop bios disk f fd fd' n count out io io' clamp e = rw (clamp, read, ◌>>=◌, e) refl

module _ {W : Type 0} (bios : Bios W) (disk : Disk) (f : FatData) (bytes : ℕ → ℕ) (fd : FileData)
    (g : IsGeometry disk) (drive : disk.id < 256)
    (faithful : IsFaithful bios disk (sectors_of bytes)) (reliable : IsReliable bios disk)
    (directory : fd.is_directory ≡ true) (some_size : 0 < fd.size) (size_bound : fd.size < 2 ^ 31)
    (first_bound : fd.first_cluster < 2 ^ 31)
    (inside : fd.first_cluster + fd.size / 512 < capacity disk) where
  -- The root directory, not empty and of fewer than 2 ^ 31 bytes, stands at `p` in it, its
  -- buffer filled from the disk. On a faithful drive whose reads work and that holds the
  -- directory and the sector behind it, of a geometry that the registers can address,
  -- `FAT_Read` of fewer than 2 ^ 31 bytes returns: it brings the bytes of the disk from `p`
  -- on, as many as were asked for or are left, and leaves the root directory standing behind
  -- them, and all else in the memory of the file system alone.
  pub read-root :
      (p n : ℕ) (io : Io W)
      → p ≤ fd.size
      → n < 2 ^ 31
      → (io' : Io W) × (read bios disk root n
            (record { io = io; fat_data = with_root f (root_at bytes fd p) })
          ≡ some (
            slice bytes (512 * fd.first_cluster + p) (readable fd p n),
            record { io = io'; fat_data = with_root f (root_at bytes fd (p + readable fd p n)) },
          ))
  read-root p n io within bound =
      let count : ℕ = readable fd p n in
      let fits : p + count ≤ fd.size = elim (Bool-cases (leb n (fd.size - p))) [
        | inl less ↦ ground (arith, within)
        | inr more ↦ ground (arith, within)
      ] in
      let (io', e) =
        read_loop-root bios disk (with_root f (root_at bytes fd p)) bytes fd g drive faithful
          reliable count p count [] io (self_le count) (omega arith) (omega arith) first_bound in
      (
        io',
        read_by_loop bios disk f (root_at bytes fd p) (root_at bytes fd (p + count)) n count _ io
            io' (clamped-readable (root_at bytes fd p) n (inr some_size) within size_bound bound) e,
      )
