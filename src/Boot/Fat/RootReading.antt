-- ===== src/Boot/Fat/RootReading.antt =====
-- The rounds of `FAT_Read` on the root directory.
pub mod Loop
use mathlib.Core.List.{append-nil, append_assoc}
use netclover.Prelude.{
  ℕ, zero, suc, ◌+◌, ◌-◌, ◌*◌, ◌/◌, ◌%◌, ◌^◌, ◌≤◌, ◌<◌, ◌≡◌, ◌∙◌, ◌⊎◌, inl, inr, refl, ap, arith,
  true, false, Option, some, List, [], ◌∷◌, ◌++◌, u32, ◌==◌, if◌then◌else◌, Bool-cases, slt32, ltb,
}
use netclover.Libc.Minmax.{min, min_small}
use netclover.Boot.Io.{Io, ◌>>=◌, ◌>>◌}
use netclover.Boot.Disk.{Disk, Bios, read_sectors}
use netclover.Boot.Disk.Geometry.{IsGeometry, capacity}
use netclover.Boot.Disk.Reading.{IsFaithful, IsReliable, read_sectors-reliable}
use netclover.Boot.Fat.{
  FileData, FatData, Reading, Outcome, goes_on, root_directory_handle, copied, overwrite,
  next_root_sector, round, read_loop,
}
use netclover.Boot.Fat.Slices.{slice, slice-append, copied-slice, overwrite-slice}

-- A disk of these bytes, sector by sector.
abbrev pub sectors_of : (ℕ → ℕ) → ℕ → ℕ → List ℕ
sectors_of bytes lba count = slice bytes (512 * lba) (512 * count)

-- The root directory at a position, its buffer filled from the disk.
abbrev pub root_at : (ℕ → ℕ) → FileData → ℕ → FileData
root_at bytes fd position = record fd {
  handle = root_directory_handle;
  position = position;
  current_cluster = fd.first_cluster + position / 512;
  buffer = slice bytes (512 * (fd.first_cluster + position / 512)) 512;
}

abbrev pub reading : FileData → List ℕ → ℕ → Reading
reading fd out byte_count = record { fd = fd; out = out; byte_count = byte_count; max_sector = 0 }

module _ {W : Type 0} (bios : Bios W) (disk : Disk) (f : FatData) (bytes : ℕ → ℕ) (fd : FileData)
    (g : IsGeometry disk) (drive : disk.id < 256)
    (faithful : IsFaithful bios disk (sectors_of bytes)) (reliable : IsReliable bios disk) where
  -- The bytes that the buffer holds from a position on.
  buffered :
      (p count : ℕ)
      → p % 512 + count ≤ 512
      → copied (root_at bytes fd p).buffer (p % 512) count
        ≡ some (slice bytes (512 * fd.first_cluster + p) count)
  buffered p count h =
      let here : 512 * (fd.first_cluster + p / 512) + p % 512 ≡ 512 * fd.first_cluster + p =
        omega arith in
      copied-slice bytes (512 * (fd.first_cluster + p / 512)) 512 (p % 512) count h
      ∙ ap (λ a. some (slice bytes a count)) here

  -- A round that ends inside the buffer.
  pub round_inside :
      (p n : ℕ) (out : List ℕ) (io : Io W)
      → p + n < 2 ^ 32
      → n < 512 - p % 512
      → round bios disk f (reading (root_at bytes fd p) out n) io
        ≡ some (
          goes_on (
              reading
                (root_at bytes fd (p + n))
                (out ++ slice bytes (512 * fd.first_cluster + p) n)
                0),
          io,
        )
  unfolding round
  round_inside p n out io bound inside =
      let count : min n (512 - p % 512) ≡ n =
        elim (min_small n (512 - p % 512) (omega arith) (omega arith)) [
          | inl h ↦ h.0
          | inr h ↦ absurd (omega (arith, h.1))
        ] in
      let same : (p + n) / 512 ≡ p / 512 = omega arith in
      let place : u32 (p + n) ≡ p + n = omega arith in
      let left : n - n ≡ 0 = omega arith in
      let more : (512 - p % 512 == n) ≡ false = ground arith in
      rw (round, count, buffered p n (omega arith), count, more, place, left, same) refl

  next_root_sector_lem :
      (s : Reading) (a next : ℕ) (io : Io W)
      → s.fd.buffer ≡ slice bytes a 512
      → u32 (s.fd.current_cluster + 1) ≡ next
      → next < capacity disk
      → (io' : Io W) × (next_root_sector bios disk f s io
          ≡ some (
            goes_on (record s {
              fd = record s.fd { current_cluster = next; buffer = slice bytes (512 * next) 512 };
            }),
            io',
          ))
  unfolding next_root_sector
  next_root_sector_lem s a next io held after inside =
      let (reply, io', e, zeroed, brought) =
        read_sectors-reliable bios disk next 1 (sectors_of bytes) io g inside drive (omega arith)
          faithful reliable in
      let worked : (reply.status == 0) ≡ true = ground arith in
      let filled : overwrite s.fd.buffer reply.bytes ≡ slice bytes (512 * next) 512 =
        rw (held, brought) (overwrite-slice bytes a (512 * next) 512) in
      (io', rw (next_root_sector, after, ◌>>=◌, e, worked, filled, after) refl)

  -- What a round that ends with the buffer hands on.
  abbrev handed_on : ℕ → ℕ → List ℕ → ℕ → Reading
  handed_on p n out left =
      reading (record (root_at bytes fd p) { position = p + left })
        (out ++ slice bytes (512 * fd.first_cluster + p) left) (n - left)

  round-next_root_sector :
      (p n left : ℕ) (out : List ℕ) (io : Io W)
      → p + n < 2 ^ 31
      → 512 - p % 512 ≡ left
      → left ≤ n
      → round bios disk f (reading (root_at bytes fd p) out n) io
        ≡ next_root_sector bios disk f (handed_on p n out left) io
  unfolding round
  round-next_root_sector p n left out io bound e across =
      let count : min n left ≡ left = elim (min_small n left (omega arith) (omega arith)) [
        | inl h ↦ absurd (omega (arith, h.1))
        | inr h ↦ h.0
      ] in
      let place : u32 (p + left) ≡ p + left = omega arith in
      let all : (left == left) ≡ true = ground arith in
      rw (round, e, count, buffered p left (omega arith), e, count, all, place) refl

  -- A round that ends with the buffer reads the next sector.
  pub round_across :
      (p n left : ℕ) (out : List ℕ) (io : Io W)
      → p + n < 2 ^ 31
      → fd.first_cluster + (p + n) / 512 < capacity disk
      → fd.first_cluster < 2 ^ 31
      → 512 - p % 512 ≡ left
      → left ≤ n
      → (io' : Io W) × (round bios disk f (reading (root_at bytes fd p) out n) io
          ≡ some (
            goes_on (
                reading
                  (root_at bytes fd (p + left))
                  (out ++ slice bytes (512 * fd.first_cluster + p) left)
                  (n - left)),
            io',
          ))
  round_across p n left out io bound inside small e across =
      let (io', e') =
        next_root_sector_lem (handed_on p n out left) (512 * (fd.first_cluster + p / 512))
          (fd.first_cluster + (p + left) / 512) io refl (omega arith) (omega arith) in
      (io', round-next_root_sector p n left out io bound e across ∙ e')
