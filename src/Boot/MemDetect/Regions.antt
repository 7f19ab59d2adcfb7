-- ===== src/Boot/MemDetect/Regions.antt =====
-- Which blocks of the BIOS `MemDetect` records.
use netclover.Prelude.{
  ℕ, ◌⊎◌, inl, inr, ◌&&◌, slt32, zero, suc, ◌+◌, ◌*◌, ◌/◌, ◌%◌, ◌^◌, ◌≤◌, ◌<◌, ◌≡◌, ◌∙◌, refl, ap,
  arith, true, false, some, List, [], ◌∷◌, ◌++◌, codes, literal, length, length-append, leb, u32,
  ◌==◌, map,
}
use mathlib.Core.Bool.{not}
use mathlib.Core.List.{append_assoc, append-nil}
use netclover.Libc.Arch.{i686}
use netclover.Libc.Vprintf.{vprintf}
use netclover.Libc.Console.{putc_all}
use netclover.Libc.Printf.{Args, num, default, long_long, va_int, va_long_long, read_number}
use netclover.Libc.Printf.Digits.{printf_unsigned_lem}
use netclover.Libc.Printf.Directives.{
  Directive, plain, conversion, render, render_all, render_number,
}
use netclover.Boot.Io.{Io, ◌>>=◌}
use netclover.Boot.Logger.{normal}
use netclover.Boot.Logger.Returns.{
  Returns, Renders, Renders-nil, Renders-plain, vprintf-Returns, log-OnlyPrints, message-OnlyPrints,
}
use netclover.Boot.MemDetect.{
  E820Block, MemoryMap, mem_log_id, max_e820_regions, block_args, next_block, detect_loop,
  mem_detect,
}

Renders-hex :
    (n : ℕ) (ds : List Directive) (args : Args)
    → Renders ds args
    → Renders (conversion default b'x' ∷ ds) (num n ∷ args)
unfolding render_all render render_number read_number va_int
Renders-hex n ds args h c =
    let (text, e, numeral) =
      printf_unsigned_lem i686 (u32 n) 16 7 c (omega arith) (omega arith) (omega arith)
        (omega arith) (omega arith) in
    let (out, rest) = h (putc_all i686 text c) in (out, rw e rest)

Renders-long_hex :
    (low high : ℕ) (ds : List Directive) (args : Args)
    → Renders ds args
    → Renders (conversion long_long b'x' ∷ ds) (num low ∷ num high ∷ args)
unfolding render_all render render_number read_number va_long_long
Renders-long_hex low high ds args h c =
    let (text, e, numeral) =
      printf_unsigned_lem i686 (u32 low + u32 high * 2 ^ 32) 16 15 c (omega arith) (omega arith)
        (omega arith) (omega arith) (omega arith) in
    let (out, rest) = h (putc_all i686 text c) in (out, rw e rest)

abbrev block_format : List Directive
block_format =
    map plain (codes "E820: base=0x")
    ++ (conversion long_long b'x'
        ∷ (map plain (codes " | length=0x")
            ++ (conversion long_long b'x'
                ∷ (map plain (codes " | type=0x") ++ (conversion default b'x' ∷ [])))))

block-Returns :
    (block : E820Block)
    → Returns (
        vprintf i686
          (literal (codes "E820: base=0x%llx | length=0x%llx | type=0x%x"))
          (block_args block))
block-Returns block = vprintf-Returns block_format (block_args block) (omega arith) (
    Renders-plain (codes "E820: base=0x") _ (block_args block) (
      Renders-long_hex (block.base % 2 ^ 32) (block.base / 2 ^ 32) _ _ (
        Renders-plain (codes " | length=0x") _ _ (
          Renders-long_hex (block.length % 2 ^ 32) (block.length / 2 ^ 32) _ _ (
            Renders-plain (codes " | type=0x") _ _
              (Renders-hex block.type [] [] (Renders-nil [])))))))

module _ {W : Type 0} (bios : MemoryMap W) where
  -- A call with this continuation, in this state of the BIOS, and the calls behind it, each with the
  -- continuation that the one before left, hand out these blocks, of some bytes each and with a
  -- continuation that is not 0, and then an answer that fails or has the continuation 0.
  abbrev pub HandsOut : ℕ → W → List E820Block → Type 0
  HandsOut continuation w [] =
      let reply = (bios.next continuation w).0 in
      (slt32 0 reply.ret ≡ false) ⊎ (reply.continuation ≡ 0)
  HandsOut continuation w (b ∷ blocks) =
      let reply = (bios.next continuation w).0 in
      (slt32 0 reply.ret ≡ true)
      × (0 < reply.continuation)
      × (reply.block ≡ b)
      × HandsOut reply.continuation (bios.next continuation w).1 blocks

  detect_loop-handed :
      (rounds continuation : ℕ) (before rest : List E820Block) (w : W) (io : Io W)
      → HandsOut continuation w rest
      → length before + length rest ≤ max_e820_regions
      → length rest < rounds
      → io.world ≡ (bios.next continuation w).1
      → (io' : Io W) × (detect_loop bios rounds (bios.next continuation w).0 before io
          ≡ some (before ++ rest, io'))
  unfolding detect_loop next_block
  detect_loop-handed zero continuation before rest w io hands room few at = absurd (omega arith)
  detect_loop-handed (suc rounds) continuation before [] w io (inl failed) room few at =
      (io, rw (detect_loop, failed, append-nil) refl)
  detect_loop-handed (suc rounds) continuation before [] w io (inr ended) room few at =
      let reply = (bios.next continuation w).0 in
      let stops : (slt32 0 reply.ret && not (reply.continuation == 0)) ≡ false =
        ground (arith, ended) in
      (io, rw (detect_loop, stops, append-nil) refl)
  detect_loop-handed (suc rounds) continuation before (b ∷ rest) w io (positive, more, block, hands)
        room few at =
      let reply = (bios.next continuation w).0 in
      let goes_on : (slt32 0 reply.ret && not (reply.continuation == 0)) ≡ true =
        ground (arith, positive, more) in
      let in_array : leb max_e820_regions (length before) ≡ false = ground (arith, room) in
      let (io₁, printed, same) =
        log-OnlyPrints normal mem_log_id
          (literal (codes "E820: base=0x%llx | length=0x%llx | type=0x%x")) (block_args reply.block)
          (omega arith) (block-Returns reply.block) io in
      let world : io₁.world ≡ (bios.next continuation w).1 = same ∙ at in
      let longer : length (before ++ reply.block ∷ []) ≡ length before + 1 =
        length-append before (reply.block ∷ []) in
      let io₂ : Io W = record io₁ {
        world = (bios.next reply.continuation (bios.next continuation w).1).1;
      } in
      let (io', done) =
        detect_loop-handed rounds reply.continuation (before ++ reply.block ∷ []) rest
          (bios.next continuation w).1 io₂ hands (omega (arith, room, longer)) (omega arith) refl in
      (
        io',
        rw (detect_loop, goes_on, in_array, ◌>>=◌, printed, next_block, world)
            (done
              ∙ ap (λ bs. some (bs, io')) (append_assoc before (reply.block ∷ []) rest)
              ∙ ap (λ c. some (before ++ c ∷ rest, io')) block),
      )

  -- The BIOS, in any state, hands out at most 256 blocks, each of some bytes and with a continuation
  -- that is not 0, for which it is asked next, and then fails or gives the continuation 0. Then
  -- `MemDetect` returns, and its array has held exactly these blocks, in order, without the block
  -- that comes with the continuation 0. `RegionCount` is their number, and `Regions` the address of
  -- the array, which is gone.
  pub mem_detect-all_but_last :
      (all : List E820Block) (io : Io W)
      → ((w : W) → HandsOut 0 w all)
      → length all ≤ max_e820_regions
      → (io' : Io W) × (mem_detect bios io
          ≡ some ((record { region_count = length all; regions = bios.mem_regions }, all), io'))
  unfolding mem_detect next_block
  mem_detect-all_but_last all io hands room =
      let (io₁, printed, same) =
        message-OnlyPrints normal mem_log_id (codes "Getting memory map...") (omega arith)
          (omega arith) io in
      let io₂ : Io W = record io₁ { world = (bios.next 0 io₁.world).1 } in
      let (io', done) =
        detect_loop-handed 257 0 [] all io₁.world io₂ (hands io₁.world) (omega (arith, room))
          (omega arith) refl in
      (io', rw (mem_detect, ◌>>=◌, printed, next_block, done) refl)
