-- ===== src/Boot/Fat/Lookup/InRoot.antt =====
-- `FAT_FindFile` in the root directory.
use netclover.Prelude.{
  ℕ, zero, suc, ◌+◌, ◌-◌, ◌*◌, ◌/◌, ◌^◌, ◌≤◌, ◌<◌, ◌≡◌, ◌≢◌, ◌∙◌, inl, inr, refl, ap, arith, Bool,
  true, false, Option, none, some, List, [], All, ◌==◌, leb, length, take,
}
use netclover.Boot.Io.{Io, ◌>>=◌}
use netclover.Boot.Disk.{Disk, Bios}
use netclover.Boot.Disk.Geometry.{IsGeometry, capacity}
use netclover.Boot.Disk.Reading.{IsFaithful, IsReliable}
use netclover.Boot.Fat.{FileData, FatData, DirectoryEntry}
use netclover.Boot.Fat.RootReading.{sectors_of, root_at}
use netclover.Boot.Fat.Slices.{slice, length-slice}
use netclover.Boot.Fat.Files.{root, Session, read, read_entry}
use netclover.Boot.Fat.Files.RootFile.{readable, with_root, read-root}
use netclover.Libc.Strings.{Memory}
use netclover.Boot.Fat.Lookup.{entry_of, find_loop, find_file}
use netclover.Boot.Fat.Lookup.Names.{same_name-take}
use netclover.Libc.Strings.Texts.{Text}
use netclover.Boot.Fat.Lookup.ShortNames.{
  spelled, short_name, NoDot, length-short_name, short_name-bound, fat_name-short_name,
}

-- The first entry with a name among so many entries from one on; the bytes of an entry begin with
-- its name.
pub data Found (wanted : List ℕ) (entry : ℕ → List ℕ) : ℕ → ℕ → Option DirectoryEntry → Type 0 where
  exhausted : {k : ℕ} → Found wanted entry k zero none
  here :
      {k n : ℕ} {r : Option DirectoryEntry}
      → take 11 wanted ≡ take 11 (entry k)
      → r ≡ some (entry_of (entry k))
      → Found wanted entry k (suc n) r
  later :
      {k n : ℕ} {r : Option DirectoryEntry}
      → take 11 wanted ≢ take 11 (entry k)
      → Found wanted entry (suc k) n r
      → Found wanted entry k (suc n) r

slice-bound :
    (bytes : ℕ → ℕ) (first count : ℕ)
    → ((a : ℕ) → bytes a < 256)
    → All (λ c. c < 256) (slice bytes first count)
slice-bound bytes first zero h = tt
slice-bound bytes first (suc count) h = (h first, slice-bound bytes (first + 1) count h)

-- The bytes of an entry of the directory.
abbrev pub entry_at : (ℕ → ℕ) → FileData → ℕ → List ℕ
entry_at bytes fd k = slice bytes (512 * fd.first_cluster + 32 * k) 32

module _ {W : Type 0} (bios : Bios W) (disk : Disk) (f : FatData) (bytes : ℕ → ℕ) (fd : FileData)
    (entries : ℕ) (g : IsGeometry disk) (drive : disk.id < 256)
    (faithful : IsFaithful bios disk (sectors_of bytes)) (reliable : IsReliable bios disk)
    (directory : fd.is_directory ≡ true) (sized : fd.size ≡ 32 * entries) (some_entry : 0 < entries)
    (size_bound : entries < 2 ^ 26) (first_bound : fd.first_cluster < 2 ^ 31)
    (inside : fd.first_cluster + fd.size / 512 < capacity disk) where
  abbrev pub at : ℕ → Io W → Session W
  at p io = record { io = io; fat_data = with_root f (root_at bytes fd p) }

  read-at :
      (p n : ℕ) (io : Io W)
      → p ≤ fd.size
      → n < 2 ^ 31
      → (io' : Io W) × (read bios disk root n (at p io)
          ≡ some (
            slice bytes (512 * fd.first_cluster + p) (readable fd p n),
            at (p + readable fd p n) io',
          ))
  read-at =
      read-root bios disk f bytes fd g drive faithful reliable directory (omega arith) (omega arith)
        first_bound inside

  read_entry-read :
      (st st' : Session W) (out : List ℕ) (whole : Bool)
      → read bios disk root 32 st ≡ some (out, st')
      → (length out == 32) ≡ whole
      → read_entry bios disk root st ≡ some ((whole, out), st')
  unfolding read_entry
  read_entry-read st st' out whole e h = rw (read_entry, ◌>>=◌, e, h) refl

  read_entry-entry_at :
      (k : ℕ) (io : Io W)
      → k < entries
      → (io' : Io W) × (read_entry bios disk root (at (32 * k) io)
          ≡ some ((true, entry_at bytes fd k), at (32 * suc k) io'))
  read_entry-entry_at k io h =
      let (io', e) = read-at (32 * k) 32 io (omega arith) (omega arith) in
      let whole : leb 32 (fd.size - 32 * k) ≡ true = ground arith in
      let amount : readable fd (32 * k) 32 ≡ 32 = rw whole refl in
      let next : 32 * k + 32 ≡ 32 * suc k = omega arith in
      let bytes_of = length-slice bytes (512 * fd.first_cluster + 32 * k) 32 in
      let all : (length (entry_at bytes fd k) == 32) ≡ true = ground (arith, bytes_of) in
      let e' =
        e
        ∙ ap (λ n. some (slice bytes (512 * fd.first_cluster + 32 * k) n, at (32 * k + n) io'))
            amount
        ∙ ap (λ p. some (entry_at bytes fd k, at p io')) next in
      (
        io',
        read_entry-read (at (32 * k) io) (at (32 * suc k) io') (entry_at bytes fd k) true e' all,
      )

  read_entry-end :
      (io : Io W)
      → (io' : Io W) × (read_entry bios disk root (at fd.size io)
          ≡ some ((false, []), at fd.size io'))
  read_entry-end io =
      let (io', e) = read-at fd.size 32 io (omega arith) (omega arith) in
      let short : leb 32 (fd.size - fd.size) ≡ false = ground arith in
      let nothing : fd.size - fd.size ≡ 0 = omega arith in
      let amount : readable fd fd.size 32 ≡ 0 = rw (short, nothing) refl in
      let same : fd.size + 0 ≡ fd.size = omega arith in
      let e' =
        e
        ∙ ap (λ n. some (slice bytes (512 * fd.first_cluster + fd.size) n, at (fd.size + n) io'))
            amount
        ∙ ap (λ p. some ([], at p io')) same in
      (io', read_entry-read (at fd.size io) (at fd.size io') [] false e' refl)

  find_loop-Found :
      (wanted : List ℕ) (rounds n k : ℕ) (io : Io W)
      → length wanted ≡ 12
      → All (λ c. c < 256) wanted
      → ((a : ℕ) → bytes a < 256)
      → k + n ≡ entries
      → n < rounds
      → (r : Option DirectoryEntry) × (p : ℕ) × (io' : Io W) × (find_loop bios disk rounds root
            wanted
            (at (32 * k) io)
          ≡ some (r, at p io'))
        × Found wanted (entry_at bytes fd) k n r
        × (p ≤ fd.size)
  unfolding find_loop
  find_loop-Found wanted zero n k io twelve low low_bytes sum few = absurd (omega arith)
  find_loop-Found wanted (suc rounds) zero k io twelve low low_bytes sum few =
      let all : 32 * k ≡ fd.size = omega arith in
      let (io', e) = read_entry-end io in
      (none, fd.size, io', rw (all, find_loop, ◌>>=◌, e) refl, exhausted, omega arith)
  find_loop-Found wanted (suc rounds) (suc n) k io twelve low low_bytes sum few =
      let (next, e) = read_entry-entry_at k io (omega arith) in
      let compared =
        same_name-take wanted (entry_at bytes fd k) twelve
          (length-slice bytes (512 * fd.first_cluster + 32 * k) 32) low
          (slice-bound bytes (512 * fd.first_cluster + 32 * k) 32 low_bytes) in
      elim compared [
        | inl (yes_same, named) ↦ (
          some (entry_of (entry_at bytes fd k)),
          32 * suc k,
          next,
          rw (find_loop, ◌>>=◌, e, yes_same) refl,
          here named refl,
          omega arith,
        )
        | inr (differ, not_named) ↦
            let (r, p, io', e', found, within) =
              find_loop-Found wanted rounds n (suc k) next twelve low low_bytes (omega arith)
                (omega arith) in
            (r, p, io', rw (find_loop, ◌>>=◌, e, differ) e', later not_named found, within)
      ]

  -- The root directory, of one entry to 2 ^ 26 - 1, stands at its start, with its buffer filled from the
  -- disk, on a faithful drive whose reads work and that holds it. A name stands in the memory: a
  -- part without a dot that has not eleven characters and, if there is a dot, an extension. With
  -- more rounds than entries and characters `FAT_FindFile` then returns, with the first entry whose
  -- eleven bytes of name are those of this name in the form of a directory, or without one if there
  -- is none; and it leaves the root directory as it stands at some place of it, and other files alone.
  pub find_file-Found :
      (m : Memory) (name rounds : ℕ) (base : List ℕ) (ext : Option (List ℕ)) (io : Io W)
      → ((a : ℕ) → bytes a < 256)
      → Text m name (spelled base ext)
      → All (λ c. c < 256) (spelled base ext)
      → NoDot base
      → length base ≢ 11
      → length (spelled base ext) < rounds
      → entries < rounds
      → (r : Option DirectoryEntry) × (p : ℕ) × (io' : Io W) × (find_file bios disk rounds root m
            name
            (at 0 io)
          ≡ some (r, at p io'))
        × Found (short_name base ext) (entry_at bytes fd) 0 entries r
        × (p ≤ fd.size)
  unfolding find_file
  find_file-Found m name rounds base ext io low_bytes t low no_dot not_eleven short few =
      let named = fat_name-short_name m name rounds base ext t no_dot not_eleven short in
      let (r, p, io', e, found, within) =
        find_loop-Found (short_name base ext) rounds entries 0 io (length-short_name base ext)
          (short_name-bound base ext low) low_bytes (omega arith) few in
      (r, p, io', rw (find_file, ◌>>=◌, named) e, found, within)
