-- ===== src/Boot/MemDetect.antt =====
-- src/boot/stage2/libs/memdetect.c: the memory map that the BIOS hands out
pub mod Regions
mod Tests
use mathlib.Core.Bool.{not}
use netclover.Prelude.{
  some, ℕ, zero, suc, ◌+◌, ◌-◌, ◌*◌, ◌/◌, ◌%◌, ◌^◌, ◌&&◌, List, [], ◌∷◌, ◌++◌, codes, literal,
  length, leb, slt32, u32, ◌==◌, if◌then◌else◌,
}
use netclover.Libc.Printf.{Args, num}
use netclover.Boot.Io.{Io, Step, pure, fault, ◌>>=◌, ◌>>◌}
use netclover.Boot.Logger.{normal, log}

abbrev pub mem_log_id : List ℕ
mem_log_id = codes "mapper" ++ (0 ∷ 0 ∷ [])

abbrev pub max_e820_regions : ℕ
max_e820_regions = 256

-- `E820BlockStruct`
pub record E820Block : Type 0 where
  pub base : ℕ
  pub length : ℕ
  pub type : ℕ
  pub acpi : ℕ

-- What `E820NextBlock` returns and leaves in `block` and `continuation`, where all of it, `ACPI`
-- too, keeps its old bytes if the BIOS writes fewer: the int as its bit pattern.
pub record BlockReply : Type 0 where
  pub ret : ℕ
  pub block : E820Block
  pub continuation : ℕ

-- `memInfoStruct`: `Regions` as the address that it holds.
pub record MemInfo : Type 0 where
  pub region_count : ℕ
  pub regions : ℕ

-- The service of the BIOS, by the continuation, and the address of the local array `memRegions`.
pub record MemoryMap (W : Type 0) : Type 0 where
  pub next : ℕ → W → BlockReply × W
  pub mem_regions : ℕ

-- A number of 64 bits takes two slots.
abbrev pub block_args : E820Block → Args
block_args block =
    num (block.base % 2 ^ 32)
    ∷ num (block.base / 2 ^ 32)
    ∷ num (block.length % 2 ^ 32)
    ∷ num (block.length / 2 ^ 32)
    ∷ num block.type
    ∷ []

module _ {W : Type 0} (bios : MemoryMap W) where
  pub next_block : ℕ → Step (Io W) BlockReply
  next_block continuation io =
      let (reply, w) = bios.next continuation io.world in some (reply, record io { world = w })

  -- The loop, with so many rounds at most: the regions so far, and the last reply. A write behind the
  -- array is undefined, so that more than 256 rounds are never needed.
  pub detect_loop : ℕ → BlockReply → List E820Block → Step (Io W) (List E820Block)
  detect_loop zero reply regions = fault
  detect_loop (suc rounds) reply regions =
      if slt32 0 reply.ret && not (reply.continuation == 0)
      then (if leb max_e820_regions (length regions) then fault else (do
        log normal mem_log_id (literal (codes "E820: base=0x%llx | length=0x%llx | type=0x%x"))
            (block_args reply.block)
        reply' ← next_block reply.continuation
        detect_loop rounds reply' (regions ++ (reply.block ∷ []))))
      else pure regions

  -- What `memInfo` holds behind the call, and the array that its pointer leads to as the call ends,
  -- with which the array is gone.
  pub mem_detect : Step (Io W) (MemInfo × List E820Block)
  mem_detect = do
    log normal mem_log_id (literal (codes "Getting memory map...")) []
    first ← next_block 0
    regions ← detect_loop (max_e820_regions + 1) first []
    pure (record { region_count = length regions; regions = bios.mem_regions }, regions)
