-- ===== src/Boot/Disk.antt =====
-- src/boot/stage2/libs/disk.c, with the routines of x86.asm that it calls.
pub mod Geometry
pub mod Attempts
pub mod Starting
pub mod Reading
use netclover.Prelude.{
  ℕ, zero, suc, ◌+◌, ◌*◌, ◌/◌, ◌%◌, ◌^◌, ◌||◌, List, [], ◌∷◌, u8, u16, bit_and, bit_or, leb, ◌==◌,
  codes, if◌then◌else◌,
}
use netclover.Libc.Printf.{num, ptr}
use netclover.Boot.Io.{Io, Step, pure, fault, ◌>>=◌, ◌>>◌}
use netclover.Boot.Logger.{LogLevel, normal, error, critical, literal, log}

pub record Disk : Type 0 where
  pub id : ℕ
  pub cylinders : ℕ
  pub heads : ℕ
  pub sectors : ℕ

-- The registers of `int 13h` with AH = 02h: the drive, CH, CL, DH, and the number of sectors.
pub record ReadCall : Type 0 where
  pub drive : ℕ
  pub ch : ℕ
  pub cl : ℕ
  pub dh : ℕ
  pub count : ℕ

-- AH behind the call, and the bytes that it has put at the buffer.
pub record ReadReply : Type 0 where
  pub status : ℕ
  pub bytes : List ℕ

-- The registers behind `int 13h` with AH = 08h, and whether the carry is set.
pub record ParamsReply : Type 0 where
  pub failed : ℕ
  pub ch : ℕ
  pub cl : ℕ
  pub dh : ℕ

-- The services of the BIOS, over a state of its own. A reset replies 0 or 1 by the carry; which
-- drive it resets is left to it, since `diskReset16` takes the number from a wrong place of its stack.
pub record Bios (W : Type 0) : Type 0 where
  pub read : ReadCall → W → ReadReply × W
  pub reset : W → ℕ × W
  pub params : ℕ → W → ParamsReply × W

pub status_text : ℕ → List ℕ
status_text result =
    if result == 0x01
    then codes "Parameter out of range"
    else if result == 0x02
    then codes "Address mark not found"
    else if result == 0x04
    then codes "Sector not found/read error"
    else if result == 0x05
    then codes "Reset failure"
    else if result == 0x06
    then codes "Disk changed"
    else if result == 0x07
    then codes "Drive parameter activity failed"
    else codes "Unknown error"

abbrev pub get_status : ℕ → List ℕ
get_status result = literal (status_text result)

abbrev pub disk_log_id : List ℕ
disk_log_id = b'd' ∷ b'i' ∷ b's' ∷ b'k' ∷ 0 ∷ 0 ∷ 0 ∷ 0 ∷ []

-- A cylinder, a head and a sector.
pub record Chs : Type 0 where
  pub cylinder : ℕ
  pub head : ℕ
  pub sector : ℕ

-- The registers that `diskRead16` fills.
pub read_call : ℕ → Chs → ℕ → ReadCall
read_call drive a count = record {
  drive = u8 drive;
  ch = u8 a.cylinder;
  cl = bit_or (u8 (u8 (a.cylinder / 2 ^ 8) * 2 ^ 6)) (bit_and (u8 a.sector) 0x3F);
  dh = u8 a.head;
  count = u8 count;
}

module _ {W : Type 0} where
  -- A division by zero is a fault of the processor.
  pub lba2chs : Disk → ℕ → Step (Io W) Chs
  lba2chs disk lba =
      if disk.sectors == 0 || disk.heads == 0
      then fault
      else pure (record {
        cylinder = u16 (lba / disk.sectors / disk.heads);
        head = u16 (lba / disk.sectors % disk.heads);
        sector = u16 (lba % disk.sectors + 1);
      })

module _ {W : Type 0} (bios : Bios W) where
  pub disk_read16 : ℕ → Chs → ℕ → Step (Io W) ReadReply
  disk_read16 drive a count io =
      let (reply, w) = bios.read (read_call drive a count) io.world in
      pure (record reply { status = u8 reply.status }) (record io { world = w })

  pub disk_reset16 : Step (Io W) ℕ
  disk_reset16 io = let (r, w) = bios.reset io.world in pure r (record io { world = w })

  -- 0 and the geometry, or 1.
  pub disk_get_drive_params16 : ℕ → Step (Io W) (ℕ × Chs)
  disk_get_drive_params16 drive io =
      let (r, w) = bios.params (u8 drive) io.world in
      pure
        (
          r.failed,
          record {
            cylinder = u16 (r.ch + r.cl / 2 ^ 6 * 2 ^ 8 + 1);
            head = u16 (r.dh + 1);
            sector = bit_and r.cl 0x3F;
          },
        )
        (record io { world = w })

  -- The disk is written only if the result is 0.
  pub init : Disk → ℕ → Step (Io W) (ℕ × Disk)
  init disk drive_number = do
    (result, geometry) ← disk_get_drive_params16 drive_number
    if result == 0
        then (do
          log normal disk_log_id (literal (codes "Disk geometry: \"C: %i | H: %i | S: %i\""))
              (num geometry.cylinder ∷ num geometry.head ∷ num geometry.sector ∷ [])
          pure (
            0,
            record {
              id = drive_number;
              cylinders = geometry.cylinder;
              heads = geometry.head;
              sectors = geometry.sector;
            },
          ))
        else (do
          log critical disk_log_id
              (literal (codes "Failed to init disk! Failed to get drive parameters. %s"))
              (ptr (get_status result) ∷ [])
          pure (result, disk))

  pub reset : Disk → Step (Io W) ℕ
  reset disk = do
    r ← disk_reset16
    if r == 1
        then (do log error disk_log_id (literal (codes "Failed to reset disk!")) []; pure 1)
        else pure 0

  -- The rounds left, with the result and the bytes at the buffer so far.
  pub attempts : Disk → Chs → ℕ → ℕ → ReadReply → Step (Io W) ReadReply
  attempts disk a count zero last = do
    log error disk_log_id (literal (codes "Exhausted all three attempts.")) []
    pure last
  attempts disk a count (suc left) last = do
    reply ← disk_read16 disk.id a count
    let again = attempts disk a count left reply
    if reply.status == 0 then pure reply else (do
      log error disk_log_id (literal (codes "Failed to read disk! (%s)"))
          (ptr (get_status reply.status) ∷ [])
      r ← reset disk
      if r == 1 then pure (record reply { status = 1 }) else again)

  pub read_sectors : Disk → ℕ → ℕ → Step (Io W) ReadReply
  read_sectors disk lba count = do
    a ← lba2chs disk lba
    attempts disk a count 3 (record { status = 0; bytes = [] })
