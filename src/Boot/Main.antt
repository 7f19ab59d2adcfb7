-- ===== src/Boot/Main.antt =====
-- src/boot/stage2/main.c: the second stage, up to its jump to the kernel
pub mod Load
pub mod Prologue
pub mod KernelFile
pub mod Booting
pub mod Whole
pub mod Floppy
mod Tests
use netclover.Prelude.{
  ℕ, zero, suc, ◌+◌, ◌*◌, ◌^◌, Bool, true, false, Option, none, some, List, [], ◌∷◌, ◌++◌, codes,
  length, store, u8, u32, ◌==◌, if◌then◌else◌,
}
use netclover.Libc.Arch.{i686}
use netclover.Libc.Console.{clrscr}
use netclover.Libc.Printf.{ptr}
use netclover.Libc.Strings.{Memory, memcpy}
use netclover.Boot.Io.{Io, Step, pure, fault, ◌>>=◌, ◌>>◌}
use netclover.Boot.Logger.{normal, critical, literal, on_console, log}
use netclover.Boot.Disk.{Disk, Bios, init}
use netclover.Boot.MemDetect.{MemInfo, MemoryMap, mem_detect}
use netclover.Boot.Fat.Files.{File, Session, on_io, read, close}
use netclover.Boot.Fat.Mount.{initialize}
use netclover.Boot.Fat.Lookup.{open_path}

-- `logid`
abbrev pub stage2_log_id : List ℕ
stage2_log_id = codes "stage2" ++ (0 ∷ 0 ∷ [])

abbrev pub memory_load_kernel : ℕ
memory_load_kernel = 0x30000

abbrev pub memory_load_size : ℕ
memory_load_size = 0x10000

abbrev pub memory_kernel_addr : ℕ
memory_kernel_addr = 0x100000

-- What `bootParams` holds.
pub record BootParams : Type 0 where
  pub memory : MemInfo
  pub boot_device : ℕ

-- How `cmain` ends: it returns 1, or jumps to the kernel in this memory with these parameters.
pub data Ending : Type 0 where
  returns_1 : Ending
  starts_kernel : Memory → BootParams → Ending

-- The memory here is that of the kernel, of the buffer for loading and of the texts. `FAT_Data` at
-- 0x20000, the screen at 0xB8000 and the local variables are objects of their own.

-- The bytes that a read puts at `dataOut`.
abbrev pub put_bytes : ℕ → List ℕ → Memory → Memory
put_bytes p [] m = m
put_bytes p (b ∷ bytes) m = put_bytes (p + 1) bytes (store m p b)

-- The body of the loop that loads the kernel.
abbrev pub moved : ℕ → List ℕ → Memory → Memory
moved mem_buffer bytes m =
    memcpy mem_buffer memory_load_kernel (length bytes) (put_bytes memory_load_kernel bytes m)

module _ {W : Type 0} (bios : Bios W) (disk : Disk) where
  -- The loop that loads the kernel, with so many rounds at most: the memory behind it. `none` is a
  -- fault as well as no rounds left.
  pub load_loop : ℕ → File → ℕ → Memory → Step (Session W) Memory
  load_loop zero kernelfd mem_buffer m = fault
  load_loop (suc rounds) kernelfd mem_buffer m = do
    bytes ← read bios disk kernelfd memory_load_size
    let rest =
        load_loop rounds kernelfd (u32 (mem_buffer + length bytes)) (moved mem_buffer bytes m)
    if length bytes == 0 then pure m else rest

-- `path` is where "/kernel.bin" stands in the memory, `name` is the address of the local buffer of
-- `FAT_Open`; the loops over texts, directory and file have so many rounds at most.
module _ {W : Type 0} (bios : Bios W) (blocks : MemoryMap W) (rounds path name : ℕ) where
  -- Behind the start of the file system.
  pub load_kernel : Disk → ℕ → Memory → Step (Session W) Ending
  load_kernel disk boot_drive m = do
    (mem_info, _) ← on_io (mem_detect blocks)
    kernelfd ← open_path bios disk rounds path name m
    m' ← load_loop bios disk rounds kernelfd memory_kernel_addr m
    close kernelfd
    pure (starts_kernel m' (record { memory = mem_info; boot_device = u8 boot_drive }))

  -- Behind `DISK_Init`.
  pub start_fat : Disk → ℕ → Memory → Step (Session W) Ending
  start_fat disk boot_drive m = do
    on_io (log normal stage2_log_id (literal (codes "Initialized disk!")) [])
    result ← initialize bios disk
    if result == 0
        then (do
          on_io (log normal stage2_log_id (literal (codes "Initialized FAT!")) [])
          load_kernel disk boot_drive m)
        else (do
          on_io (log critical stage2_log_id (literal (codes "Failed to initialize FAT.")) [])
          pure returns_1)

  -- `vendorid` is what the processor reports, and `disk` what the local variable holds before it is
  -- filled.
  pub cmain : List ℕ → Disk → ℕ → Memory → Step (Session W) Ending
  cmain vendorid disk boot_drive m = do
    on_io (on_console (λ c. some (clrscr i686 c)))
    on_io (log normal stage2_log_id (literal (codes "Venderid: %s")) (ptr (literal vendorid) ∷ []))
    on_io (log normal stage2_log_id (literal (codes "Loading kernel...")) [])
    (result, disk') ← on_io (init bios disk (u8 boot_drive))
    if result == 0 then start_fat disk' boot_drive m else (do
      on_io (log critical stage2_log_id (literal (codes "Failed to initialize disk.")) [])
      pure returns_1)
