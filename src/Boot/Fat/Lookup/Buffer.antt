-- ===== src/Boot/Fat/Lookup/Buffer.antt =====
-- The name that `FAT_Open` puts in its buffer. The terminator stands one byte behind its end, so that
-- a byte left over from before may stand between.
use netclover.Prelude.{
  ℕ, zero, suc, ◌+◌, ◌-◌, ◌≤◌, ◌<◌, ◌≡◌, ◌≢◌, ◌∙◌, ◌⊎◌, inl, inr, refl, ap, arith, true, false,
  some, List, [], ◌∷◌, ◌++◌, All, store, length, leb, ◌==◌,
}
use netclover.Libc.Strings.{Memory, memcpy}
use netclover.Libc.Strings.Runs.{Run, Run-inside, Run-outside, memcpy-Run}
use netclover.Libc.Strings.Texts.{Text, strlen-length, strchr-first_place}
use netclover.Boot.Disk.{Disk, Bios}
use netclover.Boot.Fat.Lookup.{max_path_size, bytes_from, put_name, next_name}
use netclover.Boot.Fat.Lookup.ShortNames.{first_place-none}

-- The byte left over, if it is not 0.
abbrev pub left_over : ℕ → List ℕ
left_over zero = []
left_over (suc g) = suc g ∷ []

-- The text stands again where its bytes are copied, before another one.
Text-copied :
    (m m' : Memory) (p q : ℕ) (text tail : List ℕ)
    → Text m p text
    → ((i : ℕ) → i < length text → m' (q + i) ≡ m (p + i))
    → Text m' (q + length text) tail
    → Text m' q (text ++ tail)
Text-copied m m' p q [] tail h same t = let e : q + 0 ≡ q = omega arith in rw e at t
Text-copied m m' p q (c ∷ text) tail (hc, nonzero, h) same t =
    let here : q + 0 ≡ q = omega arith in
    let here' : p + 0 ≡ p = omega arith in
    let first : m' q ≡ m p = rw (here, here') at (same 0 (omega arith)) in
    let end : q + suc (length text) ≡ q + 1 + length text = omega arith in
    (
      first ∙ hc,
      nonzero,
      Text-copied m m' (p + 1) (q + 1) text tail h
          (λ i below.
            let e : q + 1 + i ≡ q + suc i = omega arith in
            let e' : p + 1 + i ≡ p + suc i = omega arith in rw (e, e') (same (suc i) (omega arith)))
          (rw end at t),
    )

left_over-Text : (m : Memory) (p g : ℕ) → m p ≡ g → m (p + 1) ≡ 0 → Text m p (left_over g)
left_over-Text m p zero h end = h
left_over-Text m p (suc g) h end = (h, omega arith, end)

pub Text-bytes_from :
    (m : Memory) (p n : ℕ) (text : List ℕ)
    → Text m p text
    → length text < n
    → (rest : List ℕ) × (bytes_from m p n ≡ text ++ (0 ∷ rest))
Text-bytes_from m p zero text h few = absurd (omega arith)
Text-bytes_from m p (suc n) [] h few =
    (bytes_from m (p + 1) n, ap (λ c. c ∷ bytes_from m (p + 1) n) h)
Text-bytes_from m p (suc n) (c ∷ text) (hc, nonzero, h) few =
    let (rest, e) = Text-bytes_from m (p + 1) n text h (omega arith) in
    (rest, rw hc (ap (λ t. c ∷ t) e))

-- Two runs of addresses do not meet.
abbrev pub Apart : ℕ → ℕ → ℕ → ℕ → Type 0
Apart p n q k = (p + n ≤ q) ⊎ (q + k ≤ p)

module _ (m : Memory) (path name : ℕ) (text : List ℕ) (t : Text m path text)
    (short : length text < 255) (apart : Apart path (length text + 1) name max_path_size) where
  -- The memory with the name in the buffer.
  abbrev pub with_name : Memory
  with_name = store (memcpy name path (length text) m) (name + length text + 1) 0

  copied-Run : Run m name (length text) (λ i. m (path + i)) (memcpy name path (length text) m)
  copied-Run = memcpy-Run name path (length text) m (elim apart [
    | inl before ↦ inr (omega (arith, before))
    | inr behind ↦ inl (omega (arith, behind))
  ])

  with_name-inside : (i : ℕ) → i < length text → with_name (name + i) ≡ m (path + i)
  with_name-inside i below =
      let other : (name + length text + 1 == name + i) ≡ false = ground arith in
      let index : path + (name + i - name) ≡ path + i = omega arith in
      rw other (
        Run-inside m name (length text) (λ i. m (path + i)) _ copied-Run (name + i) (omega arith)
          (omega arith)
        ∙ ap m index)

  with_name-left_over : with_name (name + length text) ≡ m (name + length text)
  with_name-left_over =
      let other : (name + length text + 1 == name + length text) ≡ false = ground arith in
      rw other (
        Run-outside m name (length text) (λ i. m (path + i)) _ copied-Run (name + length text)
          (inr (omega arith)))

  -- Outside the buffer, the memory is as before.
  pub with_name-outside : (x : ℕ) → (x < name) ⊎ (name + max_path_size ≤ x) → with_name x ≡ m x
  with_name-outside x outside =
      let other : (name + length text + 1 == x) ≡ false = elim outside [
        | inl below ↦ ground (arith, below)
        | inr above ↦ ground (arith, above)
      ] in
      rw other (
        Run-outside m name (length text) (λ i. m (path + i)) _ copied-Run x
          (elim outside [ inl below ↦ inl below | inr above ↦ inr (omega (arith, above)) ]))

  pub with_name-Text : Text with_name name (text ++ left_over (m (name + length text)))
  with_name-Text =
      let here : (name + length text + 1 == name + length text + 1) ≡ true = ground arith in
      let end : with_name (name + length text + 1) ≡ 0 = rw here refl in
      Text-copied m with_name path name text (left_over (m (name + length text))) t with_name-inside
        (left_over-Text with_name (name + length text) (m (name + length text)) with_name-left_over
          end)

  -- The last name of a path.
  pub next_name-last :
      {W : Type 0} (bios : Bios W) (disk : Disk) (rounds : ℕ)
      → All (λ c. c ≢ b'/') text
      → length text < rounds
      → next_name bios disk rounds path name m ≡ some (with_name, path + length text, true)
  unfolding next_name put_name
  next_name-last bios disk rounds no_slash few =
      let found =
        strchr-first_place m path b'/' rounds text t few
        ∙ ap some (first_place-none path b'/' text no_slash) in
      let size = strlen-length m path rounds text t few in
      let inside : leb max_path_size (length text + 1) ≡ false = ground arith in
      rw (next_name, found, size, put_name, inside) refl
