-- ===== src/Boot/Fat/Kept.antt =====
-- The loop of `FAT_Read` keeps the handle of its file, and whether it is open.
use netclover.Prelude.{
  ℕ, zero, suc, ◌+◌, ◌-◌, ◌%◌, ◌≡◌, ◌∙◌, arith, true, false, some, Option-cases, Bool-cases, Bool,
  inl, inr, ◌==◌, if◌then◌else◌, ◌++◌, u32,
}
use netclover.Libc.Minmax.{min}
use netclover.Boot.Io.{Io, Step, pure}
use netclover.Boot.Disk.{Disk, Bios}
use netclover.Boot.Fat.{
  FileData, FatData, Reading, Outcome, goes_on, stops, next_root_sector, advanced, read_next_sector,
  next_file_sector, root_directory_handle, round, read_loop, copied,
}

abbrev pub Same : FileData → FileData → Type 0
Same fd fd' = (fd'.handle ≡ fd.handle) × (fd'.opened ≡ fd.opened)

abbrev left_by : Outcome → FileData
left_by (goes_on s) = s.fd
left_by (stops s) = s.fd

abbrev SameAfter : FileData → Outcome → Type 0
SameAfter fd o = Same fd (left_by o)

module _ {W : Type 0} (bios : Bios W) (disk : Disk) (f : FatData) where
  next_root_sector-Same :
      (s : Reading) (o : Outcome) (io io' : Io W)
      → next_root_sector bios disk f s io ≡ some (o, io')
      → SameAfter s.fd o
  unfolding next_root_sector
  next_root_sector-Same s (goes_on s') io io' e = ground arith
  next_root_sector-Same s (stops s') io io' e = ground arith

  read_next_sector-Same :
      (s : Reading) (o : Outcome) (io io' : Io W)
      → read_next_sector bios disk f s io ≡ some (o, io')
      → SameAfter s.fd o
  unfolding read_next_sector
  read_next_sector-Same s (goes_on s') io io' e = ground arith
  read_next_sector-Same s (stops s') io io' e = ground arith

  advanced-Same : (fd fd' : FileData) → advanced bios disk f fd ≡ some fd' → Same fd fd'
  unfolding advanced
  advanced-Same fd fd' e = ground arith

  next_file_sector-Same :
      (s : Reading) (o : Outcome) (io io' : Io W)
      → next_file_sector bios disk f s io ≡ some (o, io')
      → SameAfter s.fd o
  unfolding next_file_sector
  next_file_sector-Same s (goes_on s') io io' e = elim (Option-cases (advanced bios disk f s.fd)) [
    | inl none_there ↦ absurd (ground arith)
    | inr (fd, there) ↦
        let kept = advanced-Same s.fd fd there in
        let e' = read_next_sector-Same (record s { fd = fd }) (goes_on s') io io' in
        ground (arith, kept, e')
  ]
  next_file_sector-Same s (stops s') io io' e = elim (Option-cases (advanced bios disk f s.fd)) [
    | inl none_there ↦ absurd (ground arith)
    | inr (fd, there) ↦
        let kept = advanced-Same s.fd fd there in
        let e' = read_next_sector-Same (record s { fd = fd }) (stops s') io io' in
        ground (arith, kept, e')
  ]

  ended :
      (s : Reading) (o : Outcome) (io io' : Io W)
      → (next_root_sector bios disk f s io ≡ some (o, io') → SameAfter s.fd o)
      → (next_file_sector bios disk f s io ≡ some (o, io') → SameAfter s.fd o)
      → (b : Bool)
      → (if b then next_root_sector bios disk f s else next_file_sector bios disk f s) io
        ≡ some (o, io')
      → SameAfter s.fd o
  ended s o io io' by_root by_chain true e = by_root e
  ended s o io io' by_root by_chain false e = by_chain e

  round-Same :
      (s : Reading) (o : Outcome) (io io' : Io W)
      → round bios disk f s io ≡ some (o, io')
      → SameAfter s.fd o
  unfolding round
  round-Same s o io io' e =
      let left = 512 - s.fd.position % 512 in
      elim (Option-cases (copied s.fd.buffer (s.fd.position % 512) (min s.byte_count left))) [
        | inl none_there ↦ absurd (ground arith)
        | inr (bytes, there) ↦
            let s' = record s {
              fd = record s.fd { position = u32 (s.fd.position + min s.byte_count left) };
              out = s.out ++ bytes;
              byte_count = s.byte_count - min s.byte_count left;
            } in
            let by_root = next_root_sector-Same s' o io io' in
            let by_chain = next_file_sector-Same s' o io io' in
            elim (Bool-cases (left == min s.byte_count left)) [
              | inl whole ↦
                  ended s' o io io' by_root by_chain (s'.fd.handle == root_directory_handle)
                    (ground arith)
              | inr part ↦ ground arith
            ]
      ]

  abbrev carry_on : ℕ → Outcome → Step (Io W) Reading
  carry_on rounds (goes_on s) = read_loop bios disk f rounds s
  carry_on rounds (stops s) = pure s

  module _ (rounds : ℕ)
      (known : (s s' : Reading) (io io' : Io W)
        → read_loop bios disk f rounds s io ≡ some (s', io')
        → Same s.fd s'.fd) where
    rest_of-Same :
        (fd : FileData) (o : Outcome) (s' : Reading) (io io' : Io W)
        → SameAfter fd o
        → carry_on rounds o io ≡ some (s', io')
        → Same fd s'.fd
    rest_of-Same fd (goes_on s) s' io io' (h, p) e =
        let (h', p') = known s s' io io' e in (h' ∙ h, p' ∙ p)
    rest_of-Same fd (stops s) s' io io' h e = ground (arith, h)

  pub read_loop-Same :
      (rounds : ℕ) (s s' : Reading) (io io' : Io W)
      → read_loop bios disk f rounds s io ≡ some (s', io')
      → Same s.fd s'.fd
  unfolding read_loop
  read_loop-Same zero s s' io io' e = ground arith
  read_loop-Same (suc rounds) s s' io io' e = elim (Bool-cases (s.byte_count == 0)) [
    | inl done ↦ ground arith
    | inr more ↦ elim (Option-cases (round bios disk f s io)) [
      | inl none_there ↦ absurd (ground arith)
      | inr ((o, io₁), there) ↦
          rest_of-Same rounds (read_loop-Same rounds) s.fd o s' io₁ io'
            (round-Same s o io io₁ there) (ground arith)
    ]
  ]
