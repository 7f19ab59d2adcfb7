-- ===== src/Boot/Fat/BootSector.antt =====
-- The fields of FAT_BootSector (src/boot/stage2/libs/fat.c), by their places in the packed struct.
use netclover.Prelude.{ℕ, ◌+◌, ◌*◌, ◌^◌, List, get_or, u8}

abbrev pub byte_at : List ℕ → ℕ → ℕ
byte_at bytes i = u8 (get_or bytes i 0)

-- The least byte comes first.
abbrev pub word_at : List ℕ → ℕ → ℕ
word_at bytes i = byte_at bytes i + byte_at bytes (i + 1) * 2 ^ 8

abbrev pub bytes_per_sector : List ℕ → ℕ
bytes_per_sector boot_sector = word_at boot_sector 11

abbrev pub sectors_per_cluster : List ℕ → ℕ
sectors_per_cluster boot_sector = byte_at boot_sector 13

abbrev pub reserved_sectors : List ℕ → ℕ
reserved_sectors boot_sector = word_at boot_sector 14

abbrev pub fat_count : List ℕ → ℕ
fat_count boot_sector = byte_at boot_sector 16

abbrev pub dir_entry_count : List ℕ → ℕ
dir_entry_count boot_sector = word_at boot_sector 17

abbrev pub sectors_per_fat : List ℕ → ℕ
sectors_per_fat boot_sector = word_at boot_sector 22

abbrev pub signature : List ℕ → ℕ
signature boot_sector = byte_at boot_sector 38
