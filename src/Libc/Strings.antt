-- ===== src/Libc/Strings.antt =====
-- src/libc/string. Pointers are addresses of a memory of bytes; null is no address.
pub mod Runs
pub mod Texts
mod Tests
use netclover.Prelude.{
  ℕ, zero, suc, ◌+◌, Option, none, some, u8, sub32, ◌==◌, if◌then◌else◌, count_up, store,
}

abbrev pub Memory : Type 0
Memory = ℕ → ℕ

-- The bodies of the loops.
abbrev pub copy_byte : ℕ → ℕ → ℕ → Memory → Memory
copy_byte dest src i m = store m (dest + i) (m (src + i))

abbrev pub set_byte : ℕ → ℕ → ℕ → Memory → Memory
set_byte dest value i m = store m (dest + i) (u8 value)

-- The memory behind the call; the result is `dest`.
pub memcpy : ℕ → ℕ → ℕ → Memory → Memory
unfolding count_up
memcpy dest src n m = count_up (copy_byte dest src) n 0 m

pub memset : ℕ → ℕ → ℕ → Memory → Memory
unfolding count_up
memset dest value n m = count_up (set_byte dest value) n 0 m

-- The rounds left, and the counter. The result is the bit pattern of an int.
pub memcmp_loop : Memory → ℕ → ℕ → ℕ → ℕ → ℕ
memcmp_loop m p1 p2 zero i = 0
memcmp_loop m p1 p2 (suc left) i =
    if m (p1 + i) == m (p2 + i)
    then memcmp_loop m p1 p2 left (i + 1)
    else sub32 (m (p1 + i)) (m (p2 + i))

pub memcmp : ℕ → ℕ → ℕ → Memory → ℕ
memcmp p1 p2 n m = memcmp_loop m p1 p2 n 0

-- With so many rounds at most; none if they do not suffice.
pub strlen_loop : ℕ → Memory → ℕ → ℕ → Option ℕ
strlen_loop zero m str length = none
strlen_loop (suc rounds) m str length =
    if m (str + length) == 0 then some length else strlen_loop rounds m str (length + 1)

pub strlen : ℕ → ℕ → Memory → Option ℕ
strlen rounds str m = strlen_loop rounds m str 0

-- A pointer is an address, or null as none.
pub strchr_loop : ℕ → Memory → ℕ → ℕ → Option (Option ℕ)
strchr_loop zero m str chr = none
strchr_loop (suc rounds) m str chr =
    if m str == 0
    then some none
    else if m str == chr
    then some (some str)
    else strchr_loop rounds m (str + 1) chr

pub strchr : ℕ → Option ℕ → ℕ → Memory → Option (Option ℕ)
strchr rounds none chr m = some none
strchr rounds (some str) chr m = strchr_loop rounds m str chr

pub strcpy_loop : ℕ → ℕ → ℕ → Memory → Option Memory
strcpy_loop zero dest src m = none
strcpy_loop (suc rounds) dest src m =
    let m' = store m dest (m src) in
    if m src == 0 then some m' else strcpy_loop rounds (dest + 1) (src + 1) m'

-- The pointer that is returned, and the memory.
pub strcpy : ℕ → Option ℕ → Option ℕ → Memory → Option (Option ℕ × Memory)
strcpy rounds none src m = some (none, m)
strcpy rounds (some dest) none m = some (some dest, store m dest 0)
strcpy rounds (some dest) (some src) m = elim (strcpy_loop rounds dest src m) [
  | none ↦ none
  | some m' ↦ some (some dest, m')
]
