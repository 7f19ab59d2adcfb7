-- ===== src/Boot/Disk/Geometry.antt =====
-- Linear addresses, cylinders, heads and sectors, and the registers that carry them.
use native.Mathlib.Nat.{mod-lt, div-add-mod', div-lt_iff_lt-mul}
use netclover.Prelude.{
  ℕ, ◌+◌, ◌-◌, ◌*◌, ◌/◌, ◌%◌, ◌^◌, ◌≤◌, ◌<◌, ◌≡◌, refl, ap, ◌∙◌, arith, some, bit_and, bit_or, u8,
  u16, false, ◌==◌,
}
use netclover.Prelude.Bits.{bit_or-shifted, bit_and-low}
use netclover.Boot.Io.{Io}
use netclover.Boot.Disk.{Disk, Chs, ReadCall, read_call, lba2chs}

-- The cylinder, the head and the sector that the BIOS reads from the registers.
abbrev pub decoded : ReadCall → Chs
decoded call = record {
  cylinder = call.ch + call.cl / 64 * 256;
  head = call.dh;
  sector = call.cl % 64;
}

-- The place of a sector on a drive of so many heads and sectors, sectors counting from 1.
abbrev pub place : Disk → Chs → ℕ
place disk a = (a.cylinder * disk.heads + a.head) * disk.sectors + a.sector - 1

-- The fields fit in the registers: 10, 8 and 6 bits.
abbrev pub Fits : Chs → Type 0
Fits a = (a.cylinder < 1024) × (a.head < 256) × (a.sector < 64)

low_register :
    (c s : ℕ)
    → c < 1024
    → s < 64
    → bit_or (u8 (u8 (c / 2 ^ 8) * 2 ^ 6)) (bit_and (u8 s) 0x3F) ≡ c / 256 * 64 + s
low_register c s hc hs =
    let high : u8 (u8 (c / 2 ^ 8) * 2 ^ 6) ≡ c / 256 * 2 ^ 6 = omega arith in
    let low : bit_and (u8 s) 0x3F ≡ s = omega (arith, bit_and-low 6 (u8 s)) in
    rw (high, low) (bit_or-shifted 6 (c / 256) s hs)

-- An address that fits in the registers is the one that the BIOS reads from them.
pub read_call-decoded : (drive count : ℕ) (a : Chs) → Fits a → decoded (read_call drive a count) ≡ a
unfolding read_call
read_call-decoded drive count a (hc, hh, hs) =
    let cl = low_register a.cylinder a.sector hc hs in
    let c : u8 a.cylinder + (a.cylinder / 256 * 64 + a.sector) / 64 * 256 ≡ a.cylinder =
      omega arith in
    let h : u8 a.head ≡ a.head = omega arith in
    let s : (a.cylinder / 256 * 64 + a.sector) % 64 ≡ a.sector = omega arith in
    rw (cl, c, h, s) refl

-- A geometry that the registers can address.
abbrev pub IsGeometry : Disk → Type 0
IsGeometry disk = (0 < disk.heads) × (disk.heads ≤ 256) × (0 < disk.sectors) × (disk.sectors < 64)

abbrev pub capacity : Disk → ℕ
capacity disk = 1024 * disk.heads * disk.sectors

-- What `lba2chs` computes for such an address.
abbrev pub chs_of : Disk → ℕ → Chs
chs_of disk lba = record {
  cylinder = lba / disk.sectors / disk.heads;
  head = lba / disk.sectors % disk.heads;
  sector = lba % disk.sectors + 1;
}

module _ (disk : Disk) (lba : ℕ) (g : IsGeometry disk) (inside : lba < capacity disk) where
  pub chs_of-Fits : Fits (chs_of disk lba)
  chs_of-Fits =
      let track : lba / disk.sectors < 1024 * disk.heads = (div-lt_iff_lt-mul g.2).1 inside in
      let head : lba / disk.sectors % disk.heads < disk.heads = mod-lt (lba / disk.sectors) g.0 in
      let sector : lba % disk.sectors < disk.sectors = mod-lt lba g.2 in
      ((div-lt_iff_lt-mul g.0).1 track, omega arith, omega arith)

  pub place-chs_of : place disk (chs_of disk lba) ≡ lba
  place-chs_of =
      rw (div-add-mod' (lba / disk.sectors) disk.heads)
        (omega (arith, div-add-mod' lba disk.sectors))

  pub lba2chs-chs_of : {W : Type 0} (io : Io W) → lba2chs disk lba io ≡ some (chs_of disk lba, io)
  unfolding lba2chs
  lba2chs-chs_of io =
      let (hc, hh, hs) = chs_of-Fits in
      let c : u16 (lba / disk.sectors / disk.heads) ≡ lba / disk.sectors / disk.heads =
        omega arith in
      let h : u16 (lba / disk.sectors % disk.heads) ≡ lba / disk.sectors % disk.heads =
        omega arith in
      let s : u16 (lba % disk.sectors + 1) ≡ lba % disk.sectors + 1 = omega arith in
      let sectors : (disk.sectors == 0) ≡ false = ground arith in
      let heads : (disk.heads == 0) ≡ false = ground arith in rw (sectors, heads, c, h, s) refl

  -- For a linear address inside a drive of a geometry that the registers can address,
  -- `DISK_LBA2CHS` returns a head and a sector of its geometry, and from the registers that
  -- `diskRead16` makes of the cylinder, the head and the sector the BIOS reads the place of
  -- that very address.
  pub lba2chs-read_call :
      {W : Type 0} (io : Io W) (count : ℕ)
      → (a : Chs) × (lba2chs disk lba io ≡ some (a, io))
        × (a.head < disk.heads)
        × (0 < a.sector)
        × (a.sector ≤ disk.sectors)
        × (place disk (decoded (read_call disk.id a count)) ≡ lba)
  lba2chs-read_call io count =
      let head : lba / disk.sectors % disk.heads < disk.heads = mod-lt (lba / disk.sectors) g.0 in
      let sector : lba % disk.sectors < disk.sectors = mod-lt lba g.2 in
      (
        chs_of disk lba,
        lba2chs-chs_of io,
        head,
        omega arith,
        omega arith,
        ap (place disk) (read_call-decoded disk.id count (chs_of disk lba) chs_of-Fits)
            ∙ place-chs_of,
      )
