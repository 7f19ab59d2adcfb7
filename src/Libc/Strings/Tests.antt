-- ===== src/Libc/Strings/Tests.antt =====
-- The functions on a memory with the text "a/b" at 10.
use netclover.Prelude.{◌+◌, ◌≡◌, inl, inr, refl, arith, some, ◌++◌, get_or, codes, replicate}
use netclover.Libc.Strings.{Memory, memcpy, strcpy}
use netclover.Libc.Strings.Runs.{Run, memcpy-Run}
use netclover.Libc.Strings.Texts.{Text, strcpy-Text}

abbrev some_memory : Memory
some_memory p = get_or (replicate 10 0 ++ codes "a/b") p 0

some_memory-Text : Text some_memory 10 (codes "a/b")
some_memory-Text = (refl, omega arith, (refl, omega arith, (refl, omega arith, refl)))

memcpy-Run_example : Run some_memory 9 3 (λ i. some_memory (10 + i)) (memcpy 9 10 3 some_memory)
memcpy-Run_example = memcpy-Run 9 10 3 some_memory (inl (omega arith))

strcpy-Text_example :
    (m' : Memory) × (strcpy 4 (some 20) (some 10) some_memory ≡ some (some 20, m'))
    × Text m' 20 (codes "a/b")
strcpy-Text_example =
    strcpy-Text some_memory 20 10 4 (codes "a/b") some_memory-Text (omega arith) (inr (omega arith))
