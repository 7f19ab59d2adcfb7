-- ===== src/Boot/Disk/Starting.antt =====
-- `DISK_Init` takes over the geometry that the BIOS reports.
use netclover.Prelude.{
  ℕ, ◌+◌, ◌*◌, ◌/◌, ◌^◌, ◌<◌, ◌≡◌, ◌∙◌, refl, ap, arith, true, some, List, [], ◌∷◌, ◌++◌, codes,
  map, u8, u16, u32, bit_and, sign_extend, ◌==◌,
}
use netclover.Libc.Arch.{i686}
use netclover.Libc.Console.{putc_all}
use netclover.Libc.Printf.{Args, num, default, va_int, read_number}
use netclover.Libc.Printf.Signed.{printf_signed-IsSignedText}
use netclover.Libc.Printf.Directives.{
  Directive, plain, conversion, render, render_all, render_number,
}
use netclover.Boot.Io.{Io, ◌>>=◌, ◌>>◌}
use netclover.Boot.Logger.{normal, literal, log}
use netclover.Boot.Logger.Returns.{
  OnlyPrints, Renders, Renders-nil, Renders-plain, vprintf-Returns, log-OnlyPrints,
}
use netclover.Boot.Disk.{Disk, ParamsReply, Bios, disk_log_id, disk_get_drive_params16, init}

-- The geometry in a reply of the BIOS: its numbers are those of the last cylinder and head.
abbrev pub geometry_of : ℕ → ParamsReply → Disk
geometry_of id r = record {
  id = id;
  cylinders = u16 (r.ch + r.cl / 2 ^ 6 * 2 ^ 8 + 1);
  heads = u16 (r.dh + 1);
  sectors = bit_and r.cl 0x3F;
}

Renders-int :
    (n : ℕ) (ds : List Directive) (args : Args)
    → Renders ds args
    → Renders (conversion default b'i' ∷ ds) (num n ∷ args)
unfolding render_all render render_number read_number va_int
Renders-int n ds args h c =
    let small : sign_extend (u32 n) < 2 ^ 64 = ground arith in
    let (text, e, signed) = printf_signed-IsSignedText i686 (sign_extend (u32 n)) c small in
    let (out, rest) = h (putc_all i686 text c) in (out, rw e rest)

abbrev geometry_format : List Directive
geometry_format =
    map plain (codes "Disk geometry: \"C: ")
    ++ (conversion default b'i'
        ∷ (map plain (codes " | H: ")
            ++ (conversion default b'i'
                ∷ (map plain (codes " | S: ") ++ (conversion default b'i' ∷ (plain b'"' ∷ []))))))

module _ {W : Type 0} where
  geometry_log :
      (c h s : ℕ) (io : Io W)
      → OnlyPrints
          (log normal disk_log_id
            (literal (codes "Disk geometry: \"C: %i | H: %i | S: %i\""))
            (num c ∷ num h ∷ num s ∷ []))
          io
  geometry_log c h s = log-OnlyPrints normal disk_log_id _ _ (omega arith) (
      vprintf-Returns geometry_format (num c ∷ num h ∷ num s ∷ []) (omega arith) (
        Renders-plain (codes "Disk geometry: \"C: ") _ _ (
          Renders-int c _ _ (
            Renders-plain (codes " | H: ") _ _ (
              Renders-int h _ _ (
                Renders-plain (codes " | S: ") _ _
                  (Renders-int s _ _ (Renders-plain (b'"' ∷ []) [] [] (Renders-nil [])))))))))

  reported-init :
      (bios : Bios W) (disk : Disk) (drive_number : ℕ) (io io' : Io W)
      → (bios.params (u8 drive_number) io.world).0.failed ≡ 0
      → log normal disk_log_id
          (literal (codes "Disk geometry: \"C: %i | H: %i | S: %i\""))
          (num (geometry_of drive_number (bios.params (u8 drive_number) io.world).0).cylinders
            ∷ num (geometry_of drive_number (bios.params (u8 drive_number) io.world).0).heads
            ∷ num (geometry_of drive_number (bios.params (u8 drive_number) io.world).0).sectors
            ∷ [])
          (record io { world = (bios.params (u8 drive_number) io.world).1 })
        ≡ some (tt, io')
      → init bios disk drive_number io
        ≡ some ((0, geometry_of drive_number (bios.params (u8 drive_number) io.world).0), io')
  unfolding init disk_get_drive_params16
  reported-init bios disk drive_number io io' worked printed =
      let zero_status : ((bios.params (u8 drive_number) io.world).0.failed == 0) ≡ true =
        ground arith in
      rw (◌>>=◌, zero_status, ◌>>◌, printed) refl

  -- If the BIOS reports the parameters of the drive, `DISK_Init` returns 0 with its geometry.
  pub init-geometry_of :
      (bios : Bios W) (disk : Disk) (drive_number : ℕ) (r : ParamsReply) (io : Io W)
      → (bios.params (u8 drive_number) io.world).0 ≡ r
      → r.failed ≡ 0
      → (io' : Io W) × (init bios disk drive_number io
          ≡ some ((0, geometry_of drive_number r), io'))
  init-geometry_of bios disk drive_number r io reported worked =
      let answer : ParamsReply = (bios.params (u8 drive_number) io.world).0 in
      let d : Disk = geometry_of drive_number answer in
      let (io', printed, same) =
        geometry_log d.cylinders d.heads d.sectors
          (record io { world = (bios.params (u8 drive_number) io.world).1 }) in
      (
        io',
        reported-init bios disk drive_number io io' (ap (λ a. a.failed) reported ∙ worked) printed
            ∙ ap (λ a. some ((0, geometry_of drive_number a), io')) reported,
      )
