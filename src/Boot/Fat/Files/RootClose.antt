-- ===== src/Boot/Fat/Files/RootClose.antt =====
-- `FAT_Close` of the root directory, and the next read.
use netclover.Prelude.{
  ℕ, zero, suc, ◌+◌, ◌-◌, ◌*◌, ◌/◌, ◌^◌, ◌≤◌, ◌<◌, ◌≡◌, ◌∙◌, inl, inr, refl, arith, true, false,
  some, [], u32, sub32, ◌==◌,
}
use netclover.Libc.Minmax.{min, min_small}
use netclover.Boot.Io.{Io, ◌>>◌}
use netclover.Boot.Disk.{Disk, Bios}
use netclover.Boot.Fat.{FileData, FatData, goes_on, round}
use netclover.Boot.Fat.RootReading.{root_at, reading}
use netclover.Boot.Fat.RootReading.Loop.{loop_goes_on, loop_stops}
use netclover.Boot.Fat.Slices.{slice, copied-slice}
use netclover.Boot.Fat.Files.{root, Session, pointee, put_pointee, clamped, read, close}
use netclover.Boot.Fat.Files.RootFile.{with_root, read_by_loop}

-- The root directory after a close at position `p`.
abbrev pub closed_at : (ℕ → ℕ) → FileData → ℕ → FileData
closed_at bytes fd p = record (root_at bytes fd p) {
  position = 0;
  current_cluster = fd.first_cluster;
}

clamped-closed_at :
    (bytes : ℕ → ℕ) (fd : FileData) (p n : ℕ)
    → fd.is_directory ≡ true
    → 0 < n
    → n ≤ fd.size
    → fd.size < 2 ^ 31
    → clamped (closed_at bytes fd p) n ≡ n
unfolding clamped
clamped-closed_at bytes fd p n directory some_left within bound =
    let left : sub32 fd.size 0 ≡ fd.size = omega arith in
    let sized : (fd.size == 0) ≡ false = ground arith in
    elim (min_small n fd.size (omega arith) bound) [
      | inl (e, _) ↦ rw (directory, sized, left) e
      | inr (e, more) ↦
          let same : fd.size ≡ n = omega arith in rw (directory, sized, left) (e ∙ same)
    ]

module _ {W : Type 0} (bios : Bios W) (disk : Disk) (bytes : ℕ → ℕ) (fd : FileData) where
  round-closed_at :
      (f : FatData) (p n : ℕ) (io : Io W)
      → n < 512
      → round bios disk f (reading (closed_at bytes fd p) [] n) io
        ≡ some (
          goes_on (
              reading
                (record (closed_at bytes fd p) { position = n })
                (slice bytes (512 * (fd.first_cluster + p / 512)) n)
                0),
          io,
        )
  unfolding round
  round-closed_at f p n io few =
      let count : min n 512 ≡ n = elim (min_small n 512 (omega arith) (omega arith)) [
        | inl h ↦ h.0
        | inr h ↦ absurd (omega (arith, h.1))
      ] in
      let more : (512 == n) ≡ false = ground arith in
      let place : u32 (0 + n) ≡ n = omega arith in
      let left : n - n ≡ 0 = omega arith in
      let start : 512 * (fd.first_cluster + p / 512) + 0 ≡ 512 * (fd.first_cluster + p / 512) =
        omega arith in
      let held = copied-slice bytes (512 * (fd.first_cluster + p / 512)) 512 0 n (omega arith) in
      rw (round, count, held, start, count, more, place, left) refl

  -- The root directory, of fewer than 2 ^ 31 bytes, stands at `p`, its buffer filled from the
  -- disk. `FAT_Close` and a read of some bytes, fewer than a sector and not more than the
  -- directory has, then return the bytes at the start of the sector in which `p` lies: the
  -- buffer is not filled again.
  pub close-read_stale :
      (f : FatData) (p n : ℕ) (io : Io W)
      → fd.is_directory ≡ true
      → 0 < n
      → n < 512
      → n ≤ fd.size
      → fd.size < 2 ^ 31
      → (st : Session W) × ((close root >> read bios disk root n)
            (record { io = io; fat_data = with_root f (root_at bytes fd p) })
          ≡ some (slice bytes (512 * (fd.first_cluster + p / 512)) n, st))
  unfolding close pointee put_pointee
  close-read_stale f p zero io directory some_left few within bound = absurd (omega arith)
  close-read_stale f p (suc n) io directory some_left few within bound =
      let f' : FatData = with_root f (closed_at bytes fd p) in
      let enough = clamped-closed_at bytes fd p (suc n) directory some_left within bound in
      let here = round-closed_at f' p (suc n) io few in
      (
        _,
        read_by_loop bios disk f (closed_at bytes fd p) _ (suc n) (suc n) _ io io enough (
            loop_goes_on bios disk f' n _ _ io io (omega arith) here
            ∙ loop_stops bios disk f' n _ _ 0 io),
      )
