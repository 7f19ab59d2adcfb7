-- ===== src/Boot/Fat/FileReading/Loop.antt =====
-- The loop of `FAT_Read` on a file.
use mathlib.Core.List.{append-nil, append_assoc}
use netclover.Prelude.{
  ℕ, zero, suc, ◌+◌, ◌-◌, ◌*◌, ◌/◌, ◌%◌, ◌^◌, ◌≤◌, ◌<◌, ◌≡◌, ◌∙◌, ◌⊎◌, inl, inr, refl, ap, arith,
  true, false, Option, some, List, ◌++◌, ltb, ◌==◌, Bool-cases,
}
use netclover.Boot.Io.{Io}
use netclover.Boot.Disk.{Disk, Bios}
use netclover.Boot.Disk.Geometry.{IsGeometry}
use netclover.Boot.Disk.Reading.{IsFaithful, IsReliable}
use netclover.Boot.Fat.{
  FileData, FatData, Reading, root_directory_handle, goes_on, round, read_loop,
}
use netclover.Boot.Fat.RootReading.{sectors_of}
use netclover.Boot.Fat.RootReading.Loop.{loop_stops, loop_goes_on, loop_breaks}
use netclover.Boot.Fat.Slices.{slice, slice-append}
use netclover.Boot.Fat.FileReading.{per_cluster, IsChain, file_byte, holding, file_at, file_reading}
use netclover.Boot.Fat.FileReading.Sectors.{bar_total}
use netclover.Boot.Fat.FileReading.Rounds.{file_round_inside, file_round_across, file_round_end}

-- A read of `n` bytes from `p` on does not cross into another sector, or has at least a sector left
-- behind the one that it begins in, or begins in the last one of the chain.
abbrev pub IsSafe : ℕ → ℕ → ℕ → Type 0
IsSafe total p n = (n < 512 - p % 512) ⊎ ((512 ≤ n - (512 - p % 512)) ⊎ (p / 512 + 1 ≡ total))

-- The loading bar can be drawn: `max_sector` is set, or the read is safe.
abbrev pub Draws : ℕ → ℕ → ℕ → ℕ → Type 0
Draws total m p n = (0 < m) ⊎ IsSafe total p n

Draws-bar_total :
    (total m p n : ℕ)
    → Draws total m p n
    → 512 - p % 512 ≤ n
    → p / 512 + 1 < total
    → 0 < bar_total m (n - (512 - p % 512))
Draws-bar_total total m p n draws across within = elim (Bool-cases (m == 0)) [
  | inl unset ↦ elim draws [
    | inl set ↦ absurd (ground arith)
    | inr (inl inside) ↦ absurd (omega arith)
    | inr (inr (inl enough)) ↦ rw unset (omega arith)
    | inr (inr (inr last)) ↦ absurd (omega arith)
  ]
  | inr set ↦ rw set (ground arith)
]

joined :
    (byte : ℕ → ℕ) (p n left : ℕ) (out : List ℕ)
    → left ≤ n
    → (out ++ slice byte p left) ++ slice byte (p + left) (n - left) ≡ out ++ slice byte p n
joined byte p n left out h =
    let whole : left + (n - left) ≡ n = omega arith in
    append_assoc out (slice byte p left) _
    ∙ ap (λ t. out ++ t) (slice-append byte p left (n - left) ∙ ap (slice byte p) whole)

module _ {W : Type 0} (bios : Bios W) (disk : Disk) (f : FatData) (chain : ℕ → ℕ) (clusters : ℕ)
    (h : IsChain disk f chain clusters) (bytes : ℕ → ℕ) (fd : FileData)
    (a_file : (fd.handle == root_directory_handle) ≡ false)
    (fits : fd.size ≤ 512 * (clusters * per_cluster f)) (g : IsGeometry disk)
    (drive : disk.id < 256) (faithful : IsFaithful bios disk (sectors_of bytes))
    (reliable : IsReliable bios disk) where
  abbrev here : ℕ → FileData
  here p = file_at f chain clusters bytes fd p

  here-inside :
      (p : ℕ) → p / 512 < clusters * per_cluster f → here p ≡ holding f chain bytes fd (p / 512) p
  here-inside p within =
      let inside : ltb (p / 512) (clusters * per_cluster f) ≡ true = ground arith in rw inside refl

  here-end :
      (p s : ℕ)
      → p ≡ fd.size
      → p / 512 ≡ s + 1
      → s + 1 ≡ clusters * per_cluster f
      → record (holding f chain bytes fd s p) { size = p } ≡ here p
  here-end p s e next last =
      let outside : ltb (p / 512) (clusters * per_cluster f) ≡ false = ground arith in
      let sector : clusters * per_cluster f - 1 ≡ s = omega arith in
      rw (outside, sector) (λ i. record (holding f chain bytes fd s p) { size = e i })

  ends :
      (p p' : ℕ) (out out' : List ℕ) (m : ℕ) (io : Io W)
      → p ≡ p'
      → out ≡ out'
      → Path
          (Option (Reading × Io W))
          (some (file_reading (here p) out 0 m, io))
          (some (file_reading (here p') out' 0 m, io))
  ends p p' out out' m io e e' =
      ap (λ q. some (file_reading (here q) out 0 m, io)) e
      ∙ ap (λ o. some (file_reading (here p') o 0 m, io)) e'

  -- The loop behind a round that has read the next sector.
  continued :
      (rounds p n m left : ℕ) (out : List ℕ) (io next : Io W)
      → 0 < n
      → p / 512 < clusters * per_cluster f
      → p / 512 + 1 < clusters * per_cluster f
      → 512 - p % 512 ≡ left
      → round bios disk f (file_reading (holding f chain bytes fd (p / 512) p) out n m) io
        ≡ some (
          goes_on (
              file_reading
                (holding f chain bytes fd ((p + left) / 512) (p + left))
                (out ++ slice (file_byte f chain bytes) p left)
                (n - left)
                (bar_total m (n - left))),
          next,
        )
      → read_loop bios disk f (suc rounds) (file_reading (here p) out n m) io
        ≡ read_loop bios disk f rounds
            (file_reading
              (here (p + left))
              (out ++ slice (file_byte f chain bytes) p left)
              (n - left)
              (bar_total m (n - left)))
            next
  continued rounds p n m left out io next more within further e e' =
      let still : (p + left) / 512 < clusters * per_cluster f = omega arith in
      rw (here-inside p within, here-inside (p + left) still)
        (loop_goes_on bios disk f rounds _ _ io next more e')

  -- The loop at the end of the chain.
  broken :
      (rounds p n m : ℕ) (out : List ℕ) (io : Io W)
      → 0 < n
      → p + n < 2 ^ 31
      → p + n ≤ fd.size
      → 512 - p % 512 ≡ n
      → p / 512 < clusters * per_cluster f
      → p / 512 + 1 ≡ clusters * per_cluster f
      → read_loop bios disk f (suc rounds) (file_reading (here p) out n m) io
        ≡ some (file_reading (here (p + n)) (out ++ slice (file_byte f chain bytes) p n) 0 m, io)
  broken rounds p n m out io more bound inside all within last =
      let next : (p + n) / 512 ≡ p / 512 + 1 = omega arith in
      let whole : p + n ≡ fd.size = omega arith in
      let none_left : n - n ≡ 0 = omega arith in
      let e =
        file_round_end bios disk f chain clusters h bytes g drive faithful reliable fd p n m n out
          io a_file bound all (omega arith) last in
      rw (here-inside p within) (
        loop_breaks bios disk f rounds _ _ io io more e
        ∙ ap
            (λ left. some (
              file_reading (record (holding f chain bytes fd (p / 512) (p + n)) { size = p + n })
                  (out ++ slice (file_byte f chain bytes) p n) left m,
              io,
            ))
            none_left
        ∙ ap (λ fd'. some (file_reading fd' (out ++ slice (file_byte f chain bytes) p n) 0 m, io))
            (here-end (p + n) (p / 512) whole next last))

  -- The loop at a round that ends inside the buffer.
  finished :
      (rounds p n m : ℕ) (out : List ℕ) (io : Io W)
      → 0 < n
      → p + n < 2 ^ 31
      → n < 512 - p % 512
      → p / 512 < clusters * per_cluster f
      → read_loop bios disk f (suc rounds) (file_reading (here p) out n m) io
        ≡ some (file_reading (here (p + n)) (out ++ slice (file_byte f chain bytes) p n) 0 m, io)
  finished rounds p n m out io more bound less within =
      let still : (p + n) / 512 < clusters * per_cluster f = omega arith in
      let e =
        file_round_inside bios disk f chain clusters h bytes g drive faithful reliable fd p n m out
          io (omega arith) less in
      rw (here-inside p within, here-inside (p + n) still)
        (loop_goes_on bios disk f rounds _ _ io io more e ∙ loop_stops bios disk f rounds _ _ m io)

  -- The loop, with as many rounds as bytes.
  pub read_loop-file :
      (rounds p n m : ℕ) (out : List ℕ) (io : Io W)
      → n ≤ rounds
      → p + n < 2 ^ 31
      → p + n ≤ fd.size
      → Draws (clusters * per_cluster f) m p n
      → (m' : ℕ) × (io' : Io W) × (read_loop bios disk f rounds (file_reading (here p) out n m) io
          ≡ some
              (file_reading (here (p + n)) (out ++ slice (file_byte f chain bytes) p n) 0 m', io'))
  read_loop-file rounds p zero m out io fuel bound inside draws =
      let same : p + 0 ≡ p = omega arith in
      (m, io, rw (same, append-nil out) (loop_stops bios disk f rounds (here p) out m io))
  read_loop-file zero p (suc n) m out io fuel bound inside draws = absurd (omega arith)
  read_loop-file (suc rounds) p (suc n) m out io fuel bound inside draws =
      let left : ℕ = 512 - p % 512 in
      let within : p / 512 < clusters * per_cluster f = omega arith in
      elim (Bool-cases (ltb (suc n) left)) [
        | inl less ↦
            (m, io, finished rounds p (suc n) m out io (omega arith) bound (ground arith) within)
        | inr more ↦
            let across : left ≤ suc n = ground arith in
            elim (Bool-cases (ltb (p / 512 + 1) (clusters * per_cluster f))) [
              | inl another ↦
                  let further : p / 512 + 1 < clusters * per_cluster f = ground arith in
                  let some_sector = Draws-bar_total _ m p (suc n) draws across further in
                  let (next, e) =
                    file_round_across bios disk f chain clusters h bytes g drive faithful reliable
                      fd p (suc n) m left out io a_file bound refl across further some_sector in
                  let ahead : p + left + (suc n - left) ≡ p + suc n = omega arith in
                  let (m', io', e') =
                    read_loop-file rounds (p + left) (suc n - left) (bar_total m (suc n - left))
                      (out ++ slice (file_byte f chain bytes) p left) next (omega arith)
                      (rw ahead bound) (rw ahead inside) (inl some_sector) in
                  (
                    m',
                    io',
                    continued rounds p (suc n) m left out io next (omega arith) within further refl
                          e
                        ∙ e'
                        ∙ ends (p + left + (suc n - left)) (p + suc n) _ _ m' io' ahead
                            (joined (file_byte f chain bytes) p (suc n) left out across),
                  )
              | inr no_other ↦
                  let last : p / 512 + 1 ≡ clusters * per_cluster f = ground (arith, within) in
                  let all : 512 - p % 512 ≡ suc n = omega arith in
                  (
                    m,
                    io,
                    broken rounds p (suc n) m out io (omega arith) bound inside all within last,
                  )
            ]
      ]
