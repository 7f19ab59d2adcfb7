-- ===== src/Boot/Fat/RootReading/Loop.antt =====
-- The loop of `FAT_Read` on the root directory.
use mathlib.Core.List.{append-nil, append_assoc}
use netclover.Prelude.{
  ℕ, zero, suc, ◌+◌, ◌-◌, ◌*◌, ◌/◌, ◌%◌, ◌^◌, ◌≤◌, ◌<◌, ◌≡◌, ◌∙◌, inl, inr, refl, ap, arith, false,
  Option, none, some, List, ◌++◌, ◌==◌, Bool-cases, ltb,
}
use netclover.Boot.Io.{Io, ◌>>=◌}
use netclover.Boot.Disk.{Disk, Bios}
use netclover.Boot.Disk.Geometry.{IsGeometry, capacity}
use netclover.Boot.Disk.Reading.{IsFaithful, IsReliable}
use netclover.Boot.Fat.{FileData, FatData, Reading, goes_on, stops, round, read_loop}
use netclover.Boot.Fat.Slices.{slice, slice-append}
use netclover.Boot.Fat.RootReading.{sectors_of, root_at, reading, round_inside, round_across}

abbrev nothing_left : FileData → List ℕ → ℕ → Reading
nothing_left fd out max_sector = record {
  fd = fd;
  out = out;
  byte_count = 0;
  max_sector = max_sector;
}

module _ {W : Type 0} (bios : Bios W) (disk : Disk) (f : FatData) where
  pub loop_stops :
      (rounds : ℕ) (fd' : FileData) (out : List ℕ) (m : ℕ) (io : Io W)
      → read_loop bios disk f rounds (nothing_left fd' out m) io ≡ some (nothing_left fd' out m, io)
  unfolding read_loop
  loop_stops zero fd' out m io = refl
  loop_stops (suc rounds) fd' out m io = refl

  pub loop_goes_on :
      (rounds : ℕ) (s next : Reading) (io io' : Io W)
      → 0 < s.byte_count
      → round bios disk f s io ≡ some (goes_on next, io')
      → read_loop bios disk f (suc rounds) s io ≡ read_loop bios disk f rounds next io'
  unfolding read_loop
  loop_goes_on rounds s next io io' more e =
      let going : (s.byte_count == 0) ≡ false = ground arith in rw (read_loop, going, ◌>>=◌, e) refl

  pub loop_faults :
      (rounds : ℕ) (s : Reading) (io : Io W)
      → 0 < s.byte_count
      → round bios disk f s io ≡ none
      → read_loop bios disk f (suc rounds) s io ≡ none
  unfolding read_loop
  loop_faults rounds s io more e =
      let going : (s.byte_count == 0) ≡ false = ground arith in rw (read_loop, going, ◌>>=◌, e) refl

  pub loop_breaks :
      (rounds : ℕ) (s last : Reading) (io io' : Io W)
      → 0 < s.byte_count
      → round bios disk f s io ≡ some (stops last, io')
      → read_loop bios disk f (suc rounds) s io ≡ some (last, io')
  unfolding read_loop
  loop_breaks rounds s last io io' more e =
      let going : (s.byte_count == 0) ≡ false = ground arith in rw (read_loop, going, ◌>>=◌, e) refl

module _ {W : Type 0} (bios : Bios W) (disk : Disk) (f : FatData) (bytes : ℕ → ℕ) (fd : FileData)
    (g : IsGeometry disk) (drive : disk.id < 256)
    (faithful : IsFaithful bios disk (sectors_of bytes)) (reliable : IsReliable bios disk) where
  joined :
      (p n left : ℕ) (out : List ℕ)
      → left ≤ n
      → (out ++ slice bytes (512 * fd.first_cluster + p) left)
          ++ slice bytes (512 * fd.first_cluster + (p + left)) (n - left)
        ≡ out ++ slice bytes (512 * fd.first_cluster + p) n
  joined p n left out h =
      let place : 512 * fd.first_cluster + (p + left) ≡ 512 * fd.first_cluster + p + left =
        omega arith in
      let whole : left + (n - left) ≡ n = omega arith in
      append_assoc out (slice bytes (512 * fd.first_cluster + p) left) _
      ∙ ap (λ t. out ++ t)
          (ap (λ a. slice bytes (512 * fd.first_cluster + p) left ++ slice bytes a (n - left)) place
            ∙ slice-append bytes (512 * fd.first_cluster + p) left (n - left)
            ∙ ap (slice bytes (512 * fd.first_cluster + p)) whole)

  ends :
      (p p' : ℕ) (out out' : List ℕ) (io : Io W)
      → p ≡ p'
      → out ≡ out'
      → Path
          (Option (Reading × Io W))
          (some (reading (root_at bytes fd p) out 0, io))
          (some (reading (root_at bytes fd p') out' 0, io))
  ends p p' out out' io e e' =
      ap (λ q. some (reading (root_at bytes fd q) out 0, io)) e
      ∙ ap (λ o. some (reading (root_at bytes fd p') o 0, io)) e'

  -- The loop, with as many rounds as bytes.
  pub read_loop-root :
      (rounds p n : ℕ) (out : List ℕ) (io : Io W)
      → n ≤ rounds
      → p + n < 2 ^ 31
      → fd.first_cluster + (p + n) / 512 < capacity disk
      → fd.first_cluster < 2 ^ 31
      → (io' : Io W) × (read_loop bios disk f rounds (reading (root_at bytes fd p) out n) io
          ≡ some (
            reading
                (root_at bytes fd (p + n))
                (out ++ slice bytes (512 * fd.first_cluster + p) n)
                0,
            io',
          ))
  read_loop-root rounds p zero out io fuel bound inside small =
      let same : p + 0 ≡ p = omega arith in
      (io, rw (same, append-nil out) (loop_stops bios disk f rounds (root_at bytes fd p) out 0 io))
  read_loop-root zero p (suc n) out io fuel bound inside small = absurd (omega arith)
  read_loop-root (suc rounds) p (suc n) out io fuel bound inside small =
      let left : ℕ = 512 - p % 512 in
      elim (Bool-cases (ltb (suc n) left)) [
        | inl less ↦
            let here =
              round_inside bios disk f bytes fd g drive faithful reliable p (suc n) out io
                (omega arith) (ground arith) in
            (
              io,
              loop_goes_on bios disk f rounds _ _ io io (omega arith) here
                  ∙ loop_stops bios disk f rounds (root_at bytes fd (p + suc n)) _ 0 io,
            )
        | inr more ↦
            let across : left ≤ suc n = ground arith in
            let (next, here) =
              round_across bios disk f bytes fd g drive faithful reliable p (suc n) left out io
                bound inside small refl across in
            let ahead : p + left + (suc n - left) ≡ p + suc n = omega arith in
            let (io', e) =
              read_loop-root rounds (p + left) (suc n - left)
                (out ++ slice bytes (512 * fd.first_cluster + p) left) next (omega arith)
                (rw ahead bound) (rw ahead inside) small in
            (
              io',
              loop_goes_on bios disk f rounds _ _ io next (omega arith) here
                  ∙ e
                  ∙ ends (p + left + (suc n - left)) (p + suc n) _ _ io' ahead
                      (joined p (suc n) left out across),
            )
      ]
