-- ===== src/Boot/MemDetect/Tests.antt =====
-- A BIOS with three blocks.
use netclover.Prelude.{
  ℕ, ◌+◌, ◌/◌, ◌≡◌, inr, refl, arith, some, [], ◌∷◌, ◌==◌, if◌then◌else◌, get_or,
}
use netclover.Boot.Io.{Io}
use netclover.Boot.MemDetect.{E820Block, MemoryMap, mem_detect}
use netclover.Boot.MemDetect.Regions.{HandsOut, mem_detect-all_but_last}

abbrev block_at : ℕ → E820Block
block_at base = record { base = base; length = 0x1000; type = 1; acpi = 1 }

abbrev three_blocks : MemoryMap ℕ
three_blocks = record {
  next = λ k w. (
    record {
      ret = 20;
      block =
          get_or (block_at 0 ∷ block_at 0x1000 ∷ block_at 0x2000 ∷ []) (k / 24) (block_at 0x2000);
      continuation = if k == 48 then 0 else k + 24;
    },
    w + 1,
  );
  mem_regions = 0x7000;
}

abbrev start : Io ℕ
start = record {
  world = 0;
  console = record { screen_buffer = λ _. 0; screen_x = 0; screen_y = 0; ports = [] };
}

three_blocks-HandsOut : (w : ℕ) → HandsOut three_blocks 0 w (block_at 0 ∷ block_at 0x1000 ∷ [])
three_blocks-HandsOut w = (refl, omega arith, refl, (refl, omega arith, refl, inr refl))

mem_detect-all_but_last_example :
    (io' : Io ℕ) × (mem_detect three_blocks start
      ≡ some
          ((record { region_count = 2; regions = 0x7000 }, block_at 0 ∷ block_at 0x1000 ∷ []), io'))
mem_detect-all_but_last_example =
    mem_detect-all_but_last three_blocks (block_at 0 ∷ block_at 0x1000 ∷ []) start
      three_blocks-HandsOut (omega arith)
