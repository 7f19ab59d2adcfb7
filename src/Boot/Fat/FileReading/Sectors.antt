-- ===== src/Boot/Fat/FileReading/Sectors.antt =====
-- The next sector of a file, along the chain of its clusters.
use native.Mathlib.Nat.{mod-lt, mul-le-mul}
use netclover.Prelude.{
  ℕ, ◌+◌, ◌-◌, ◌*◌, ◌/◌, ◌%◌, ◌^◌, ◌≤◌, ◌<◌, sub32, ◌≡◌, ◌∙◌, refl, ap, arith, true, false, some,
  List, u32, leb, ◌==◌, if◌then◌else◌,
}
use netclover.Libc.Console.{putchr}
use netclover.Boot.Logger.Returns.{on_console-OnlyPrints}
use netclover.Boot.Io.{Io, ◌>>=◌, ◌>>◌}
use netclover.Boot.Disk.{Disk, Bios}
use netclover.Boot.Disk.Geometry.{IsGeometry, capacity}
use netclover.Boot.Disk.Reading.{IsFaithful, IsReliable, read_sectors-reliable}
use netclover.Boot.Fat.{
  FileData, FatData, goes_on, stops, overwrite, loading_bar, cluster_to_lba, read_next_sector,
  next_file_sector,
}
use netclover.Boot.Fat.RootReading.{sectors_of}
use netclover.Boot.Fat.Slices.{slice, overwrite-slice}
use netclover.Boot.Fat.FileReading.{
  cluster_start, per_cluster, IsChain, sector_lba, holding, file_reading,
}
use netclover.Boot.Fat.FileReading.Places.{advanced_lem, cluster-inside, cluster-end}

pub capacity-bound : (disk : Disk) → IsGeometry disk → capacity disk < 2 ^ 32
capacity-bound disk (_, heads, _, sectors) =
    let wide : 1024 * disk.heads ≤ 1024 * 256 = omega (arith, heads) in
    let most : 1024 * disk.heads * disk.sectors ≤ 1024 * 256 * 63 =
      mul-le-mul {m₂ = 63} wide (omega arith) in
    omega (arith, most)

-- Where the code finds a cluster, if its sectors have addresses of 32 bits.
pub cluster_to_lba-cluster_start :
    (f : FatData) (c : ℕ)
    → 2 ≤ c
    → c < 2 ^ 32
    → cluster_start f c < 2 ^ 32
    → cluster_to_lba f c ≡ cluster_start f c
unfolding cluster_to_lba
cluster_to_lba-cluster_start f c low high fits =
    let counted : sub32 c 2 ≡ c - 2 = omega arith in
    ap (λ n. u32 (f.data_section_lba + n * per_cluster f)) counted ∙ omega arith

-- `max_sector` once it is set.
abbrev pub bar_total : ℕ → ℕ → ℕ
bar_total max_sector left = if max_sector == 0 then left / 512 else max_sector

module _ {W : Type 0} (bios : Bios W) (disk : Disk) (f : FatData) (chain : ℕ → ℕ) (clusters : ℕ)
    (h : IsChain disk f chain clusters) (bytes : ℕ → ℕ) (g : IsGeometry disk)
    (drive : disk.id < 256) (faithful : IsFaithful bios disk (sectors_of bytes))
    (reliable : IsReliable bios disk) where
  loading_bar-draws :
      (total left : ℕ) (io : Io W)
      → 0 < total
      → (io' : Io W) × (loading_bar bios disk f total left io ≡ some (tt, io'))
  unfolding loading_bar
  loading_bar-draws total left io some_sector =
      let no_fault : (total == 0) ≡ false = ground arith in
      let (io', e, same) =
        on_console-OnlyPrints
          (λ c. some (putchr (u32 (79 * sub32 total (left / 512)) / total) 24 0xDB c))
          (λ c. (_, refl)) io in
      (io', rw no_fault e)

  -- The buffer behind the read of sector `s` of the file.
  read_next_sector_lem :
      (fd : FileData) (a s n m : ℕ) (out : List ℕ) (io : Io W)
      → fd.buffer ≡ slice bytes a 512
      → u32 (cluster_to_lba f fd.current_cluster + fd.current_sector) ≡ sector_lba f chain s
      → sector_lba f chain s < capacity disk
      → 0 < bar_total m n
      → (io' : Io W) × (read_next_sector bios disk f (file_reading fd out n m) io
          ≡ some (
            goes_on (
                file_reading
                  (record fd { buffer = slice bytes (512 * sector_lba f chain s) 512 })
                  out
                  n
                  (bar_total m n)),
            io',
          ))
  unfolding read_next_sector
  read_next_sector_lem fd a s n m out io held place inside some_sector =
      let (reply, next, e, zeroed, brought) =
        read_sectors-reliable bios disk (sector_lba f chain s) 1 (sectors_of bytes) io g inside
          drive (omega arith) faithful reliable in
      let worked : (reply.status == 0) ≡ true = ground arith in
      let filled : overwrite fd.buffer reply.bytes ≡ slice bytes (512 * sector_lba f chain s) 512 =
        rw (held, brought) (overwrite-slice bytes a (512 * sector_lba f chain s) 512) in
      let (io', drawn) = loading_bar-draws (bar_total m n) n next some_sector in
      (io', rw (read_next_sector, place, ◌>>=◌, e, worked, ◌>>◌, drawn, filled) refl)

  pub sector-inside : (s : ℕ) → s < clusters * per_cluster f → sector_lba f chain s < capacity disk
  sector-inside s within =
      h.inside (s / per_cluster f) (s % per_cluster f)
        (cluster-inside bios disk f chain clusters h s within) (mod-lt s h.some_sectors)

  pub sector-placed :
      (s : ℕ)
      → s < clusters * per_cluster f
      → u32 (cluster_to_lba f (chain (s / per_cluster f)) + s % per_cluster f)
        ≡ sector_lba f chain s
  sector-placed s within =
      let small = capacity-bound disk g in
      let held = sector-inside s within in
      let cluster : s / per_cluster f < clusters =
        cluster-inside bios disk f chain clusters h s within in
      let inner = h.inner (s / per_cluster f) cluster in
      let start =
        cluster_to_lba-cluster_start f (chain (s / per_cluster f))
          (h.numbered (s / per_cluster f) cluster) (omega (arith, inner))
          (omega (arith, small, held)) in
      ap (λ n. u32 (n + s % per_cluster f)) start ∙ omega (arith, small, held)

  pub next_file_sector_lem :
      (fd : FileData) (s p a n m : ℕ) (out : List ℕ) (io : Io W)
      → s + 1 < clusters * per_cluster f
      → fd.buffer ≡ slice bytes a 512
      → fd.current_cluster ≡ chain (s / per_cluster f)
      → fd.current_sector ≡ s % per_cluster f
      → p / 512 ≡ s + 1
      → 0 < bar_total m n
      → (io' : Io W) × (next_file_sector bios disk f
            (file_reading (record fd { position = p }) out n m)
            io
          ≡ some (
            goes_on (file_reading (holding f chain bytes fd (s + 1) p) out n (bar_total m n)),
            io',
          ))
  unfolding next_file_sector
  next_file_sector_lem fd s p a n m out io within held at_cluster at_sector at_p some_sector =
      let advance =
        advanced_lem bios disk f chain clusters h (record fd { position = p }) s (omega arith)
          at_cluster at_sector in
      let in_chain : leb 0xFF8 (chain ((s + 1) / per_cluster f)) ≡ false = ground (
        arith,
        h.inner ((s + 1) / per_cluster f)
            (cluster-inside bios disk f chain clusters h (s + 1) within),
      ) in
      let (io', e) =
        read_next_sector_lem
          (record fd {
            position = p;
            current_cluster = chain ((s + 1) / per_cluster f);
            current_sector = (s + 1) % per_cluster f;
          })
          a (s + 1) n m out io held (sector-placed (s + 1) within) (sector-inside (s + 1) within)
          some_sector in
      (io', rw (next_file_sector, advance, in_chain, at_p) e)

  pub next_file_sector-end :
      (fd : FileData) (s n m : ℕ) (out : List ℕ) (io : Io W)
      → s + 1 ≡ clusters * per_cluster f
      → fd.current_cluster ≡ chain (s / per_cluster f)
      → fd.current_sector ≡ s % per_cluster f
      → next_file_sector bios disk f (file_reading fd out n m) io
        ≡ some (
          stops (
              file_reading
                (record fd {
                  size = fd.position;
                  current_cluster = chain ((s + 1) / per_cluster f);
                  current_sector = (s + 1) % per_cluster f;
                })
                out
                n
                m),
          io,
        )
  unfolding next_file_sector
  next_file_sector-end fd s n m out io last at_cluster at_sector =
      let advance =
        advanced_lem bios disk f chain clusters h fd s (omega arith) at_cluster at_sector in
      let behind : (s + 1) / per_cluster f ≡ clusters =
        ap (λ t. t / per_cluster f) last ∙ cluster-end bios disk f chain clusters h in
      let ended : leb 0xFF8 (chain ((s + 1) / per_cluster f)) ≡ true =
        rw behind (ground (arith, h.ended)) in
      rw (next_file_sector, advance, ended) refl
