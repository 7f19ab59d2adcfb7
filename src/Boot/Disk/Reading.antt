-- ===== src/Boot/Disk/Reading.antt =====
-- `DISK_ReadSectors` returns, with the sectors that were asked for or with an error.
use netclover.Prelude.{
  ◌≢◌, ◌⊎◌, inl, inr, Bool-cases, ◌==◌, ℕ, ◌<◌, ◌≡◌, ◌∙◌, refl, ap, arith, some, List, [], u8,
}
use netclover.Boot.Io.{Io, ◌>>=◌}
use netclover.Boot.Disk.{Disk, ReadCall, ReadReply, Bios, read_call, attempts, read_sectors}
use netclover.Boot.Disk.Attempts.{
  the_read, after_rounds, attempts-worked, attempts-returns, attempts-recover,
}
use netclover.Boot.Disk.Geometry.{
  decoded, place, read_call-decoded, IsGeometry, capacity, chs_of, chs_of-Fits, place-chs_of,
  lba2chs-chs_of,
}

module _ {W : Type 0} (bios : Bios W) where
  -- A reply with AH = 0 has brought the sectors that the registers name, of a drive with this
  -- geometry whose sectors, from one number on and so many, are `image`.
  abbrev pub IsFaithful : Disk → (ℕ → ℕ → List ℕ) → Type 0
  IsFaithful disk image =
      (call : ReadCall) (w : W)
      → call.drive ≡ disk.id
      → u8 (bios.read call w).0.status ≡ 0
      → (bios.read call w).0.bytes ≡ image (place disk (decoded call)) call.count

  module _ (disk : Disk) (lba count : ℕ) (g : IsGeometry disk) (inside : lba < capacity disk) where
    abbrev first_call : ReadCall
    first_call = read_call disk.id (chs_of disk lba) count

    read_sectors-attempts :
        (last : ReadReply) (io : Io W)
        → read_sectors bios disk lba count io ≡ attempts bios disk (chs_of disk lba) count 3 last io
    unfolding read_sectors attempts
    read_sectors-attempts last io = rw (◌>>=◌, lba2chs-chs_of disk lba g inside io) refl

    brings_image :
        (image : ℕ → ℕ → List ℕ)
        → disk.id < 256
        → count < 256
        → IsFaithful disk image
        → (w : W) → (the_read bios disk (chs_of disk lba) count w).0.status ≡ 0
        → (the_read bios disk (chs_of disk lba) count w).0.bytes ≡ image lba count
    unfolding read_call
    brings_image image drive counted faithful w worked =
        let registers =
          read_call-decoded disk.id count (chs_of disk lba) (chs_of-Fits disk lba g inside) in
        let here : place disk (decoded first_call) ≡ lba =
          ap (place disk) registers ∙ place-chs_of disk lba g inside in
        let how_many : u8 count ≡ count = omega arith in
        faithful first_call w (omega arith) worked
        ∙ ap (λ p. image p (u8 count)) here
        ∙ ap (image lba) how_many

    brought :
        (image : ℕ → ℕ → List ℕ)
        → disk.id < 256
        → count < 256
        → IsFaithful disk image
        → (w : W)
        → ((the_read bios disk (chs_of disk lba) count w).0.status ≢ 0)
          ⊎ ((the_read bios disk (chs_of disk lba) count w).0.bytes ≡ image lba count)
    brought image drive counted faithful w =
        elim (Bool-cases ((the_read bios disk (chs_of disk lba) count w).0.status == 0)) [
          | inl worked ↦ inr (brings_image image drive counted faithful w (ground arith))
          | inr failed ↦ inl (ground arith)
        ]

    -- For fewer than 256 sectors at an address inside the drive, of a geometry that the
    -- registers can address, and on a faithful drive, whether its reads and resets work or
    -- not: `DISK_ReadSectors` returns, and the result is an error or the bytes at the buffer
    -- are the sectors that were asked for.
    pub read_sectors_lem :
        (image : ℕ → ℕ → List ℕ) (io : Io W)
        → disk.id < 256
        → count < 256
        → IsFaithful disk image
        → (r : ReadReply) × (io' : Io W) × (read_sectors bios disk lba count io ≡ some (r, io'))
          × ((r.status ≢ 0) ⊎ (r.bytes ≡ image lba count))
    read_sectors_lem image io drive counted faithful =
        let none_yet : ReadReply = record { status = 1; bytes = [] } in
        let (r, io', e, h) =
          attempts-returns bios disk (chs_of disk lba) count
            (λ r. (r.status ≢ 0) ⊎ (r.bytes ≡ image lba count))
            (λ w. brought image drive counted faithful w) (λ r _. inl (omega arith)) 3 none_yet io
            (inl (omega arith)) in
        (r, io', read_sectors-attempts none_yet io ∙ e, h)

    -- For an address inside the drive, of a geometry that the registers can address, on a
    -- drive whose resets work and that reads the sectors at the first, second or third attempt
    -- (each behind the failed attempts before and their resets): `DISK_ReadSectors` returns 0.
    pub read_sectors-recovers :
        (k : ℕ) (io : Io W)
        → k < 3
        → ((w : W) → (bios.reset w).0 ≡ 0)
        → (the_read bios disk
            (chs_of disk lba)
            count
            (after_rounds bios disk (chs_of disk lba) count k io.world)).0.status
          ≡ 0
        → (r : ReadReply) × (io' : Io W) × (read_sectors bios disk lba count io ≡ some (r, io'))
          × (r.status ≡ 0)
    read_sectors-recovers k io h resets worked =
        let none_yet : ReadReply = record { status = 1; bytes = [] } in
        let (r, io', e, zeroed) =
          attempts-recover bios disk (chs_of disk lba) count resets 3 k none_yet io h worked in
        (r, io', read_sectors-attempts none_yet io ∙ e, zeroed)

    -- If the first read works, `DISK_ReadSectors` makes no other, and no reset.
    pub read_sectors-at_once :
        (io : Io W)
        → (the_read bios disk (chs_of disk lba) count io.world).0.status ≡ 0
        → read_sectors bios disk lba count io
          ≡ some (
            (the_read bios disk (chs_of disk lba) count io.world).0,
            record io { world = (the_read bios disk (chs_of disk lba) count io.world).1 },
          )
    read_sectors-at_once io worked =
        let none_yet : ReadReply = record { status = 1; bytes = [] } in
        read_sectors-attempts none_yet io
        ∙ attempts-worked bios disk (chs_of disk lba) count 2 none_yet io (ground arith)

  -- A drive whose every read works.
  abbrev pub IsReliable : Disk → Type 0
  IsReliable disk =
      (call : ReadCall) (w : W) → call.drive ≡ disk.id → u8 (bios.read call w).0.status ≡ 0

  -- Sectors of a faithful and reliable drive are read.
  pub read_sectors-reliable :
      (disk : Disk) (lba count : ℕ) (image : ℕ → ℕ → List ℕ) (io : Io W)
      → IsGeometry disk
      → lba < capacity disk
      → disk.id < 256
      → count < 256
      → IsFaithful disk image
      → IsReliable disk
      → (r : ReadReply) × (io' : Io W) × (read_sectors bios disk lba count io ≡ some (r, io'))
        × (r.status ≡ 0)
        × (r.bytes ≡ image lba count)
  unfolding read_call
  read_sectors-reliable disk lba count image io g inside drive counted faithful reliable =
      let worked = reliable (first_call disk lba count g inside) io.world (omega arith) in
      (
        (the_read bios disk (chs_of disk lba) count io.world).0,
        record io { world = (the_read bios disk (chs_of disk lba) count io.world).1 },
        read_sectors-at_once disk lba count g inside io worked,
        worked,
        brings_image disk lba count g inside image drive counted faithful io.world worked,
      )

  -- A sector of a reliable drive is read at once.
  pub read_sectors-works :
      (disk : Disk) (lba : ℕ) (io : Io W)
      → IsGeometry disk
      → lba < capacity disk
      → disk.id < 256
      → IsReliable disk
      → (r : ReadReply) × (io' : Io W) × (read_sectors bios disk lba 1 io ≡ some (r, io'))
        × (r.status ≡ 0)
  unfolding read_call
  read_sectors-works disk lba io g inside drive reliable =
      let worked = reliable (first_call disk lba 1 g inside) io.world (omega arith) in
      (
        (the_read bios disk (chs_of disk lba) 1 io.world).0,
        record io { world = (the_read bios disk (chs_of disk lba) 1 io.world).1 },
        read_sectors-at_once disk lba 1 g inside io worked,
        worked,
      )
