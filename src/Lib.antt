-- ===== src/Lib.antt =====
-- Netclover: a model of a hobby operating system in C, and what holds of it.
--
-- The program has a boot sector, a second stage of the bootloader (src/boot/stage2) that runs in 32
-- bits, reads a FAT12 floppy through the BIOS and loads the kernel, a 64-bit kernel (src/kernel), and
-- a libc that both are linked with (src/libc). The parts modelled here are the libc's text screen,
-- its formatted output and its memory functions, the second stage with its log, disk, file system and
-- memory map, and the kernel.
--
-- Libc: src/libc
--   Libc/Arch: the two builds, x86_64 and i686, by which SCREEN_HEIGHT and the division differ.
--   Libc/Ctype: ctype/*.c. Libc/Minmax: netclover/minmax/*.c.
--   Libc/Division: `__udivdi3` and `__umoddi3` of stdio/printf.c, 64 rounds each as in the source.
--   Libc/Console: stdio/putchr.c, putcolor.c, getchr.c, getcolor.c, setcursor.c, clrscr.c, putc.c,
--     puts.c. The state `Console` is the memory at screenBuffer as a function from offsets to bytes,
--     screenX and screenY as bit patterns of ints, and the bytes written to the cursor's ports. Its
--     child Terminal is the abstract screen, a grid of characters and a place, without a buffer.
--   Libc/Strings: string/*.c over a memory; Strings/Runs and Strings/Texts prove them.
--   Libc/Printf: `printf` of stdio/printf.c with its state machine; Printf/Directives is what a
--     format means, directive by directive. Libc/Vprintf: stdio/vprintf.c, which calls `printf`.
--
-- Boot: src/boot/stage2, with its libs
--   Boot/Io: what all parts work on, the screen and the state of the BIOS; a step gives a result and
--     the next state, or none for undefined behaviour and faults of the processor.
--   Boot/Logger: logger.c. Boot/Disk: disk.c, and the routines of x86.asm that it calls as far as
--     they fill registers. The BIOS is a parameter (`Bios`): functions from the registers of int 13h
--     to a reply. What theorems rely on of it are the hypotheses `IsFaithful` (a read that replies
--     AH = 0 has brought the sectors that it was asked for) and `IsReliable` (every read does).
--   Boot/Fat: fat.c. `FatData` is the memory at MEMORY_FAT_ADDR, `FileData` one of its files. The
--     functions over pointers to files stand in Fat/Files, the packed FAT in Fat/Chain, reads of the
--     root directory in Fat/RootReading and Fat/Files/RootFile, `FAT_Initialize` in Fat/Mount,
--     `FAT_FindFile` and `FAT_Open` in Fat/Lookup. Fat/Files/Numbered is the invariant of the
--     handles, which Fat/Files/Handles keeps over a step relation of the calls.
--   Boot/Fat/FileReading: reads of a file along the chain of its clusters, a function from the places
--     in it to cluster numbers (`IsChain`), with the places of the clusters in ordinary arithmetic; Fat/Files/ChainFile is `FAT_Read` of an open file.
--   Boot/Main: src/boot/stage2/main.c. `cmain` ends by a return of 1 or by the jump to the kernel, with
--     the memory and the boot parameters that it has then. Main/Load is the loop that loads the kernel,
--     Main/Prologue all before it, Main/Booting the load from the root directory, Main/Whole the
--     composition. What the processor reports as its vendor is a parameter, and so are the addresses of
--     the path of the kernel and of the local buffer of `FAT_Open`.
--     The memory of the kernel, `FatData`, the screen and the local variables are objects of their own;
--     the theorems on the load say that their areas do not overlap.
--   Boot/MemDetect: memdetect.c, over the service of the BIOS that hands out blocks, a parameter. The
--     local array whose address the boot parameters keep is gone when the function returns, so that
--     only its address and the number of its blocks are handed on.
--
-- Kernel: src/kernel
--   Kernel/Machine: the state that the parts share: screen and ports, the tables of the processor, the
--     variables of the drivers. The devices behind the ports are a parameter (`Devices`): what a port
--     answers may depend on all that was written. Hypotheses on it say what one port answers.
--   Kernel/Segments: x86/gdt.c and gdt.h. Kernel/Gates and Kernel/Interrupts: x86/idt.c and idt.h; the
--     routines of idt.asm are known by their addresses, `stub`. Interrupts/Dispatch is the table of
--     routines by the changes made to it.
--   Kernel/Keyboard: drivers/keyboard; Keyboard/Keys has the US layout that it is compared with.
--   Kernel/Timer: drivers/pit. Kernel/Paging: memory/pager.c; Paging/Walk is the processor's walk over
--     the tables, by its manual. Kernel/Main: main.c, which composes the others.
--
-- Numbers are natural numbers. An unsigned word wraps at its width where it is computed; an int is
-- its bit pattern below 2 ^ 32, so that comparisons of ints with unsigned numbers are the unsigned
-- ones that C makes, and `slt32` is the signed one. A text is the list of bytes from its pointer on,
-- with its terminator; a read behind the list is none. A vararg list is a list of numbers and texts.
--
-- Fuel: the tab loop of `putc` has 8 rounds, and its limit is never above 7; `collect` of
-- `printf_unsigned` has the 32 bytes of the source's buffer, and 22 digits are the most that a number
-- of 64 bits has; the loop of `FAT_Read` has as many rounds as bytes are to be read, and each round
-- reads one at least. The loops of `strlen`, `strchr` and `strcpy` take their rounds as an argument:
-- one more than the text has characters is enough. The loops of `FAT_FindFile` and `FAT_Open` take
-- theirs as an argument too: more than the directory has entries, and the path has names. The loop
-- of `MemDetect` has one more than the array has places: a write behind it is undefined.
--
-- The loop of `cmain` that loads the kernel has one more than the file has chunks of 64 KiB.
--
-- Not modelled: the boot sector, the switches of the processor's mode and the stubs of the vectors,
-- which are assembly; the kernel's run as a continuation of `cmain`, which ends at the jump to it;
-- devices behind the ports. What `FAT_Open` writes in its local buffer for a name is not kept behind
-- the call. A write behind the screen's buffer is a write at its offset, and the negative of the
-- least number of `printf_signed` wraps, where C leaves both undefined. A result none of a function
-- that has a number of rounds as an argument is undefined behaviour or a lack of rounds: theorems
-- that give results say how many rounds are enough. The functions of memory/manager.c and `addPage` are empty.
pub mod Prelude
pub mod Kernel
pub mod Libc
pub mod Boot
