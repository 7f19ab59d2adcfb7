-- ===== src/Boot/Disk/Attempts.antt =====
-- The rounds of `DISK_ReadSectors`: a read, and behind a failure a message and a reset.
use netclover.Prelude.{
  ℕ, zero, suc, ◌<◌, ◌≡◌, ◌∙◌, refl, ap, arith, Bool, true, false, Bool-cases, inl, inr, some, List,
  [], ◌∷◌, codes, u8, ◌==◌, if◌then◌else◌,
}
use netclover.Libc.Console.Terminal.Text.{IsString}
use netclover.Libc.Printf.{ptr}
use netclover.Boot.Io.{Io, ◌>>=◌, ◌>>◌}
use netclover.Boot.Logger.{error, literal, log}
use netclover.Boot.Logger.Returns.{OnlyPrints, text_message-OnlyPrints, message-OnlyPrints}
use netclover.Boot.Disk.{
  Disk, Chs, ReadReply, Bios, status_text, get_status, disk_log_id, read_call, disk_read16,
  disk_reset16, reset, attempts,
}

if-IsString : (b : Bool) (x y : List ℕ) → IsString x → IsString y → IsString (if b then x else y)
if-IsString true x y hx hy = hx
if-IsString false x y hx hy = hy

status_text-IsString : (n : ℕ) → IsString (status_text n)
unfolding status_text
status_text-IsString n = if-IsString (n == 1) _ _ (omega arith) (
    if-IsString (n == 2) _ _ (omega arith) (
      if-IsString (n == 4) _ _ (omega arith) (
        if-IsString (n == 5) _ _ (omega arith) (
          if-IsString (n == 6) _ _ (omega arith)
            (if-IsString (n == 7) _ _ (omega arith) (omega arith))))))

module _ {W : Type 0} (bios : Bios W) where
  status_log :
      (n : ℕ) (io : Io W)
      → OnlyPrints
          (log error disk_log_id
            (literal (codes "Failed to read disk! (%s)"))
            (ptr (get_status n) ∷ []))
          io
  status_log n =
      text_message-OnlyPrints error disk_log_id (codes "Failed to read disk! (") (b')' ∷ [])
        (status_text n) [] (omega arith) (omega arith) (status_text-IsString n)

  reset_log :
      (io : Io W)
      → OnlyPrints (log error disk_log_id (literal (codes "Failed to reset disk!")) []) io
  reset_log =
      message-OnlyPrints error disk_log_id (codes "Failed to reset disk!") (omega arith)
        (omega arith)

  exhausted_log :
      (io : Io W)
      → OnlyPrints (log error disk_log_id (literal (codes "Exhausted all three attempts.")) []) io
  exhausted_log =
      message-OnlyPrints error disk_log_id (codes "Exhausted all three attempts.") (omega arith)
        (omega arith)

  -- What a reset leaves: its result is 1 or 0, and 0 if the drive's is.
  abbrev ResetTo : Disk → Io W → ℕ → Io W → Type 0
  ResetTo disk io r io' =
      (reset bios disk io ≡ some (r, io'))
      × (io'.world ≡ (bios.reset io.world).1)
      × ((bios.reset io.world).0 ≡ 0 → r ≡ 0)

  reset-returns : (disk : Disk) (io : Io W) → (r : ℕ) × (io' : Io W) × ResetTo disk io r io'
  unfolding reset disk_reset16
  reset-returns disk io =
      let after : Io W = record io { world = (bios.reset io.world).1 } in
      elim (Bool-cases ((bios.reset io.world).0 == 1)) [
        | inl failed ↦
            let (io', e, same) = reset_log after in
            (1, io', (rw (failed, ◌>>◌, ◌>>=◌, e) refl, same, λ h. absurd (ground arith)))
        | inr worked ↦ (0, after, (rw worked refl, refl, λ _. refl))
      ]

  module _ (disk : Disk) (a : Chs) (count : ℕ) where
    abbrev pub the_read : W → ReadReply × W
    the_read w =
        let (reply, w') = bios.read (read_call disk.id a count) w in
        (record reply { status = u8 reply.status }, w')

    -- The drive behind some rounds of a read that fails and a reset.
    abbrev pub after_rounds : ℕ → W → W
    after_rounds zero w = w
    after_rounds (suc k) w = after_rounds k (bios.reset (the_read w).1).1

    -- A round in which the read fails goes on behind the reset, or ends with 1.
    attempts-failed :
        (left : ℕ) (last : ReadReply) (io : Io W)
        → ((the_read io.world).0.status == 0) ≡ false
        → (r : ℕ) × (io' : Io W) × (io'.world ≡ (bios.reset (the_read io.world).1).1)
          × ((bios.reset (the_read io.world).1).0 ≡ 0 → r ≡ 0)
          × (attempts bios disk a count (suc left) last io ≡ (
              if r == 1
              then some (record (the_read io.world).0 { status = 1 }, io')
              else attempts bios disk a count left (the_read io.world).0 io'))
    unfolding attempts disk_read16
    attempts-failed left last io failed =
        let read : Io W = record io { world = (the_read io.world).1 } in
        let (logged, e, same) = status_log (the_read io.world).0.status read in
        let (r, io', (e', moved, works)) = reset-returns disk logged in
        let moved' : io'.world ≡ (bios.reset (the_read io.world).1).1 =
          moved ∙ ap (λ w. (bios.reset w).1) same in
        let works' : (bios.reset (the_read io.world).1).0 ≡ 0 → r ≡ 0 =
          λ h. works (ap (λ w. (bios.reset w).0) same ∙ h) in
        elim (Bool-cases (r == 1)) [
          | inl stop ↦ (r, io', moved', works', rw (failed, ◌>>◌, ◌>>=◌, e, e', stop) refl)
          | inr go ↦ (r, io', moved', works', rw (failed, ◌>>◌, ◌>>=◌, e, e', go) refl)
        ]

    pub attempts-worked :
        (left : ℕ) (last : ReadReply) (io : Io W)
        → ((the_read io.world).0.status == 0) ≡ true
        → attempts bios disk a count (suc left) last io
          ≡ some ((the_read io.world).0, record io { world = (the_read io.world).1 })
    unfolding attempts disk_read16
    attempts-worked left last io worked = rw worked refl

    attempts-exhausted :
        (last : ReadReply) (io : Io W)
        → (io' : Io W) × (attempts bios disk a count zero last io ≡ some (last, io'))
    unfolding attempts
    attempts-exhausted last io =
        let (io', e, _) = exhausted_log io in (io', rw (◌>>◌, ◌>>=◌, e) refl)

    -- A property that every reply has, and keeps when its status becomes 1, is one of the result.
    pub attempts-returns :
        (P : ReadReply → Type 0)
        → ((w : W) → P (the_read w).0)
        → ((r : ReadReply) → P r → P (record r { status = 1 }))
        → (left : ℕ) (last : ReadReply) (io : Io W) → P last
        → (r : ReadReply) × (io' : Io W) × (attempts bios disk a count left last io ≡ some (r, io'))
          × P r
    attempts-returns P each one zero last io h =
        let (io', e) = attempts-exhausted last io in (last, io', e, h)
    attempts-returns P each one (suc left) last io h =
        elim (Bool-cases ((the_read io.world).0.status == 0)) [
          | inl worked ↦ (_, _, attempts-worked left last io worked, each io.world)
          | inr failed ↦
              let (r, next, _, _, e) = attempts-failed left last io failed in
              elim (Bool-cases (r == 1)) [
                | inl stop ↦ (
                  record (the_read io.world).0 { status = 1 },
                  next,
                  rw (e, stop) refl,
                  one (the_read io.world).0 (each io.world),
                )
                | inr go ↦
                    let (result, io', e', h') =
                      attempts-returns P each one left (the_read io.world).0 next (each io.world) in
                    (result, io', rw (e, go) e', h')
              ]
        ]

    -- A drive whose resets work, and that reads after `k` failures at most, is read.
    pub attempts-recover :
        ((w : W) → (bios.reset w).0 ≡ 0)
        → (left k : ℕ) (last : ReadReply) (io : Io W) → k < left
        → (the_read (after_rounds k io.world)).0.status ≡ 0
        → (r : ReadReply) × (io' : Io W) × (attempts bios disk a count left last io ≡ some (r, io'))
          × (r.status ≡ 0)
    attempts-recover resets zero k last io h worked = absurd (omega arith)
    attempts-recover resets (suc left) zero last io h worked =
        (_, _, attempts-worked left last io (ground arith), worked)
    attempts-recover resets (suc left) (suc k) last io h worked =
        elim (Bool-cases ((the_read io.world).0.status == 0)) [
          | inl now ↦ (_, _, attempts-worked left last io now, ground arith)
          | inr failed ↦
              let (r, next, moved, works, e) = attempts-failed left last io failed in
              let go : (r == 1) ≡ false = ground (arith, works (resets (the_read io.world).1)) in
              let (result, io', e', zeroed) =
                attempts-recover resets left k (the_read io.world).0 next (omega arith)
                  (rw moved worked) in
              (result, io', rw (e, go) e', zeroed)
        ]
