-- ===== src/Libc/Strings/Texts.antt =====
-- Texts with a terminator: strlen, strchr, strcpy.
use netclover.Prelude.{
  ℕ, zero, suc, ◌+◌, ◌<◌, ◌≡◌, ◌≢◌, ◌⊎◌, inl, inr, refl, arith, true, false, Option, none, some,
  List, [], ◌∷◌, ◌==◌, if◌then◌else◌, Bool-cases, store, length, ap, ◌∙◌,
}
use netclover.Libc.Strings.{Memory, strlen_loop, strlen, strchr_loop, strchr, strcpy_loop, strcpy}

-- The text stands at `p`, and its terminator behind it.
abbrev pub Text : Memory → ℕ → List ℕ → Type 0
Text m p [] = m p ≡ 0
Text m p (c ∷ text) = (m p ≡ c) × (c ≢ 0) × Text m (p + 1) text

strlen_loop-length :
    (m : Memory) (str i rounds : ℕ) (text : List ℕ)
    → Text m (str + i) text
    → length text < rounds
    → strlen_loop rounds m str i ≡ some (i + length text)
unfolding strlen_loop
strlen_loop-length m str i zero text h few = absurd (omega arith)
strlen_loop-length m str i (suc rounds) [] h few =
    let ends : (m (str + i) == 0) ≡ true = ground arith in
    let same : i + 0 ≡ i = omega arith in rw (ends, same) refl
strlen_loop-length m str i (suc rounds) (c ∷ text) (hc, nonzero, h) few =
    let more : (m (str + i) == 0) ≡ false = ground arith in
    let next : str + i + 1 ≡ str + (i + 1) = omega arith in
    let sum : i + 1 + length text ≡ i + suc (length text) = omega arith in
    rw more
      (strlen_loop-length m str (i + 1) rounds text (rw next at h) (omega arith) ∙ ap some sum)

-- With more rounds than the text has characters, `strlen` returns its length.
pub strlen-length :
    (m : Memory) (str rounds : ℕ) (text : List ℕ)
    → Text m str text
    → length text < rounds
    → strlen rounds str m ≡ some (length text)
unfolding strlen
strlen-length m str rounds text h few =
    let start : str + 0 ≡ str = omega arith in
    strlen_loop-length m str 0 rounds text (rw start h) few ∙ ap some (omega arith)

-- The first place of a character in a text that stands at `p`.
abbrev pub first_place : ℕ → List ℕ → ℕ → Option ℕ
first_place p [] chr = none
first_place p (c ∷ text) chr = if c == chr then some p else first_place (p + 1) text chr

strchr_loop-first_place :
    (m : Memory) (chr rounds str : ℕ) (text : List ℕ)
    → Text m str text
    → length text < rounds
    → strchr_loop rounds m str chr ≡ some (first_place str text chr)
unfolding strchr_loop
strchr_loop-first_place m chr zero str text h few = absurd (omega arith)
strchr_loop-first_place m chr (suc rounds) str [] h few =
    let ends : (m str == 0) ≡ true = ground arith in rw ends refl
strchr_loop-first_place m chr (suc rounds) str (c ∷ text) (hc, nonzero, h) few =
    let more : (m str == 0) ≡ false = ground arith in
    let rest = strchr_loop-first_place m chr rounds (str + 1) text h (omega arith) in
    elim (Bool-cases (c == chr)) [
      | inl here ↦ rw (more, hc, here) refl
      | inr other ↦ rw (more, hc, other) rest
    ]

-- With more rounds than the text has characters, `strchr` returns the address of the first place of
-- the character, or null if it stands nowhere in the text; the terminator is not found.
pub strchr-first_place :
    (m : Memory) (str chr rounds : ℕ) (text : List ℕ)
    → Text m str text
    → length text < rounds
    → strchr rounds (some str) chr m ≡ some (first_place str text chr)
unfolding strchr
strchr-first_place m str chr rounds text h few = strchr_loop-first_place m chr rounds str text h few

-- A write at another place leaves a text.
Text-store :
    (m : Memory) (q v : ℕ) (text : List ℕ) (p : ℕ)
    → (q < p) ⊎ (p + length text < q)
    → Text m p text
    → Text (store m q v) p text
Text-store m q v [] p apart h =
    let other : (q == p) ≡ false = elim apart [
      | inl below ↦ ground (arith, below)
      | inr above ↦ ground (arith, above)
    ] in
    rw other h
Text-store m q v (c ∷ text) p apart (hc, nonzero, h) =
    let other : (q == p) ≡ false = elim apart [
      | inl below ↦ ground (arith, below)
      | inr above ↦ ground (arith, above)
    ] in
    let apart' : (q < p + 1) ⊎ (p + 1 + length text < q) = elim apart [
      | inl below ↦ inl (omega (arith, below))
      | inr above ↦ inr (omega (arith, above))
    ] in
    (rw other hc, nonzero, Text-store m q v text (p + 1) apart' h)

-- The loop leaves what lies before the destination.
strcpy_loop-Text :
    (rounds dest src : ℕ) (m : Memory) (text : List ℕ)
    → Text m src text
    → length text < rounds
    → (dest < src) ⊎ (src + length text < dest)
    → (m' : Memory) × (strcpy_loop rounds dest src m ≡ some m')
      × Text m' dest text
      × ((p : ℕ) → p < dest → m' p ≡ m p)
unfolding strcpy_loop
strcpy_loop-Text zero dest src m text h few apart = absurd (omega arith)
strcpy_loop-Text (suc rounds) dest src m [] h few apart =
    let ends : (m src == 0) ≡ true = ground arith in
    let at : (dest == dest) ≡ true = ground arith in
    (
      store m dest (m src),
      rw ends refl,
      rw at h,
      λ p below. let other : (dest == p) ≡ false = ground arith in rw other refl,
    )
strcpy_loop-Text (suc rounds) dest src m (c ∷ text) (hc, nonzero, h) few apart =
    let more : (m src == 0) ≡ false = ground arith in
    let m1 : Memory = store m dest (m src) in
    let at : m1 dest ≡ m src = (let here : (dest == dest) ≡ true = ground arith in rw here refl) in
    let apart' : (dest < src + 1) ⊎ (src + 1 + length text < dest) = elim apart [
      | inl below ↦ inl (omega (arith, below))
      | inr above ↦ inr (omega (arith, above))
    ] in
    let apart'' : (dest + 1 < src + 1) ⊎ (src + 1 + length text < dest + 1) = elim apart [
      | inl below ↦ inl (omega (arith, below))
      | inr above ↦ inr (omega (arith, above))
    ] in
    let kept = Text-store m dest (m src) text (src + 1) apart' h in
    let (m', e, t, before) =
      strcpy_loop-Text rounds (dest + 1) (src + 1) m1 text kept (omega arith) apart'' in
    (
      m',
      rw more e,
      (before dest (omega arith) ∙ at ∙ hc, nonzero, t),
      λ p below.
          let other : (dest == p) ≡ false = ground arith in before p (omega arith) ∙ rw other refl,
    )

-- With more rounds than the text has characters, `strcpy` of a text that ends before the destination
-- or begins behind it returns the destination, at which the text then stands.
pub strcpy-Text :
    (m : Memory) (dest src rounds : ℕ) (text : List ℕ)
    → Text m src text
    → length text < rounds
    → (dest < src) ⊎ (src + length text < dest)
    → (m' : Memory) × (strcpy rounds (some dest) (some src) m ≡ some (some dest, m'))
      × Text m' dest text
unfolding strcpy
strcpy-Text m dest src rounds text h few apart =
    let (m', e, t, _) = strcpy_loop-Text rounds dest src m text h few apart in
    (m', rw (strcpy, e) refl, t)
