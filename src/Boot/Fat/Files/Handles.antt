-- ===== src/Boot/Fat/Files/Handles.antt =====
-- Which handles the files carry, over all orders of `FAT_OpenEntry`, `FAT_Close` and `FAT_Read`.
use netclover.Prelude.{
  ℕ, ◌<◌, ◌≡◌, inl, inr, refl, arith, true, false, some, Option-cases, Bool-cases, List, [], ◌==◌,
  length, get_elem?, set,
}
use netclover.Boot.Disk.{Disk, Bios, read_sectors}
use netclover.Boot.Fat.{DirectoryEntry, root_directory_handle, read_loop, overwrite, cluster_to_lba}
use netclover.Boot.Fat.Kept.{read_loop-Same}
use netclover.Boot.Fat.Files.{
  File, Session, pointee, put_pointee, data_of, put_data, clamped, free_handle, close, read,
  entry_file, open_entry,
}
use netclover.Boot.Fat.Files.Numbered.{
  WellFormed, carried, set-WellFormed, put_data-WellFormed, rewound_root-WellFormed,
  rewound-WellFormed, free_handle_lt, placed-WellFormed,
}

module _ {W : Type 0} where
  pub close-WellFormed :
      (file : File) (s s' : Session W) (u : Unit {0})
      → WellFormed s.fat_data
      → close file s ≡ some (u, s')
      → WellFormed s'.fat_data
  unfolding close pointee put_pointee
  close-WellFormed file s s' u w e =
      let f = s.fat_data in
      elim (Option-cases (pointee f file)) [
        | inl no_file ↦ absurd (ground arith)
        | inr (public, at_file) ↦ elim (Bool-cases (public.handle == root_directory_handle)) [
          | inl is_root ↦
              let f' = put_pointee file (record public { position = 0 }) f in
              let after : s'.fat_data ≡ record f' {
                root_directory = record f'.root_directory {
                  current_cluster = f'.root_directory.first_cluster;
                };
              } =
                ground arith in
              carried after (
                rewound-WellFormed f' f'.root_directory.first_cluster
                  (rewound_root-WellFormed f file public w at_file))
          | inr is_opened ↦ elim (Option-cases (get_elem? f.opened_files public.handle)) [
            | inl no_data ↦ absurd (ground arith)
            | inr (fd, at_data) ↦
                let after : s'.fat_data ≡ record f {
                  opened_files = set f.opened_files public.handle (record fd { opened = false });
                } =
                  ground arith in
                carried after
                  (set-WellFormed f public.handle (record fd { opened = false }) w (inl refl))
          ]
        ]
      ]

module _ {W : Type 0} (bios : Bios W) (disk : Disk) where
  pub read-WellFormed :
      (file : File) (byte_count : ℕ) (s s' : Session W) (bytes : List ℕ)
      → WellFormed s.fat_data
      → read bios disk file byte_count s ≡ some (bytes, s')
      → WellFormed s'.fat_data
  unfolding read
  read-WellFormed file byte_count s s' bytes w e =
      let f = s.fat_data in
      elim (Option-cases (pointee f file)) [
        | inl no_file ↦ absurd (ground arith)
        | inr (public, at_file) ↦ elim (Option-cases (data_of f public.handle)) [
          | inl no_data ↦ absurd (ground arith)
          | inr (fd, at_data) ↦
              let count = clamped fd byte_count in
              elim (Option-cases (
                read_loop bios disk f count
                  (record { fd = fd; out = []; byte_count = count; max_sector = 0 }) s.io)) [
                    | inl stuck ↦ absurd (ground arith)
                    | inr ((r, io'), ran) ↦
                        let kept =
                          read_loop-Same bios disk f count
                            (record { fd = fd; out = []; byte_count = count; max_sector = 0 }) r
                            s.io io' ran in
                        let after : s'.fat_data ≡ put_data public.handle r.fd f = ground arith in
                        carried after (put_data-WellFormed f public.handle fd r.fd w at_data kept)
                  ]
        ]
      ]

  pub open_entry-WellFormed :
      (entry : DirectoryEntry) (s s' : Session W) (file : File)
      → WellFormed s.fat_data
      → open_entry bios disk entry s ≡ some (file, s')
      → WellFormed s'.fat_data
  unfolding open_entry entry_file
  open_entry-WellFormed entry s s' file w e =
      let f = s.fat_data in
      elim (Option-cases (free_handle 0 f.opened_files)) [
        | inl no_handle ↦ let after : s'.fat_data ≡ f = ground arith in carried after w
        | inr (handle, free) ↦ elim (Option-cases (get_elem? f.opened_files handle)) [
          | inl no_data ↦ absurd (ground arith)
          | inr (old, at_data) ↦
              let fd = entry_file bios disk handle entry old in
              elim (Option-cases
                (read_sectors bios disk (cluster_to_lba f fd.current_cluster) 1 s.io)) [
                  | inl stuck ↦ absurd (ground arith)
                  | inr ((reply, io'), answered) ↦
                      let fd' = record fd { buffer = overwrite fd.buffer reply.bytes } in
                      let inside : handle < length f.opened_files =
                        omega (arith, free_handle_lt 0 handle f.opened_files free) in
                      elim (Bool-cases (reply.status == 0)) [
                        | inl good ↦
                            let after : s'.fat_data
                                ≡ put_data handle (record fd' { opened = true }) f =
                              ground arith in
                            carried after (
                              placed-WellFormed f handle (record fd' { opened = true }) w inside
                                refl)
                        | inr bad ↦
                            let after : s'.fat_data ≡ put_data handle fd' f = ground arith in
                            carried after (placed-WellFormed f handle fd' w inside refl)
                      ]
                ]
        ]
      ]

  -- One call, from the state before it to the state behind it.
  pub data Called : Session W → Session W → Type 0 where
    opens :
        {s s' : Session W} (entry : DirectoryEntry) (file : File)
        → open_entry bios disk entry s ≡ some (file, s')
        → Called s s'
    reads :
        {s s' : Session W} (file : File) (byte_count : ℕ) (bytes : List ℕ)
        → read bios disk file byte_count s ≡ some (bytes, s')
        → Called s s'
    closes : {s s' : Session W} (file : File) → close file s ≡ some (tt, s') → Called s s'

  pub data Reach (start : Session W) : Session W → Type 0 where
    here : Reach start start
    after : {s s' : Session W} → Reach start s → Called s s' → Reach start s'

  Called-WellFormed :
      (s s' : Session W) → Called s s' → WellFormed s.fat_data → WellFormed s'.fat_data
  Called-WellFormed s s' (opens entry file e) w = open_entry-WellFormed entry s s' file w e
  Called-WellFormed s s' (reads file byte_count bytes e) w =
      read-WellFormed file byte_count s s' bytes w e
  Called-WellFormed s s' (closes file e) w = close-WellFormed file s s' tt w e

  -- Whatever calls of FAT_OpenEntry, FAT_Read and FAT_Close come one after the other, each through
  -- any pointer and with any result that is defined, the memory of the file system stays well
  -- formed: the root directory carries its own handle, there are ten files, and every open file
  -- carries its index as its handle.
  pub Reach-WellFormed :
      (start s : Session W) → Reach start s → WellFormed start.fat_data → WellFormed s.fat_data
  Reach-WellFormed start s here w = w
  Reach-WellFormed start s (after {s = t} calls call) w =
      Called-WellFormed t s call (Reach-WellFormed start t calls w)
