-- ===== src/Boot/Fat/Lookup/ShortNames.antt =====
-- The name that `FAT_FindFile` looks for.
use netclover.Prelude.{
  ℕ, zero, suc, ◌+◌, ◌<◌, ◌≡◌, ◌≢◌, ◌∙◌, inl, inr, refl, ap, arith, true, false, Option, none, some,
  List, [], ◌∷◌, ◌++◌, All, All-append, ◌==◌, length, length-append,
}
use netclover.Libc.Ctype.{toupper, islower}
use netclover.Libc.Strings.{Memory}
use netclover.Libc.Strings.Texts.{Text, first_place, strchr-first_place}
use netclover.Boot.Fat.Lookup.{fat_name}
use netclover.Boot.Fat.Lookup.Padding.{pad, Prefix, base_bytes-pad, extension_bytes-pad}

-- A name and, if there is one, its extension behind a dot.
abbrev pub spelled : List ℕ → Option (List ℕ) → List ℕ
spelled base none = base
spelled base (some ext) = base ++ (b'.' ∷ ext)

abbrev extension : Option (List ℕ) → List ℕ
extension none = []
extension (some ext) = ext

-- The form of a directory, with a terminator.
abbrev pub short_name : List ℕ → Option (List ℕ) → List ℕ
short_name base ext = pad 8 base ++ (pad 3 (extension ext) ++ (0 ∷ []))

abbrev pub NoDot : List ℕ → Type 0
NoDot = All (λ c. c ≢ b'.')

Text-Prefix : (m : Memory) (p : ℕ) (a b : List ℕ) → Text m p (a ++ b) → Prefix m p a
Text-Prefix m p [] b h = tt
Text-Prefix m p (c ∷ a) b (hc, nonzero, h) = (hc, nonzero, Text-Prefix m (p + 1) a b h)

Text-behind : (m : Memory) (p : ℕ) (a b : List ℕ) → Text m p (a ++ b) → Text m (p + length a) b
Text-behind m p [] b h = let same : p + 0 ≡ p = omega arith in rw same h
Text-behind m p (c ∷ a) b (hc, nonzero, h) =
    let next : p + 1 + length a ≡ p + suc (length a) = omega arith in
    rw next at (Text-behind m (p + 1) a b h)

Text-Prefix_whole : (m : Memory) (p : ℕ) (a : List ℕ) → Text m p a → Prefix m p a
Text-Prefix_whole m p [] h = tt
Text-Prefix_whole m p (c ∷ a) (hc, nonzero, h) = (hc, nonzero, Text-Prefix_whole m (p + 1) a h)

pub Text-end : (m : Memory) (p : ℕ) (a : List ℕ) → Text m p a → m (p + length a) ≡ 0
Text-end m p [] h = let same : p + 0 ≡ p = omega arith in rw same h
Text-end m p (c ∷ a) (hc, nonzero, h) =
    let next : p + 1 + length a ≡ p + suc (length a) = omega arith in
    rw next at (Text-end m (p + 1) a h)

pub first_place-none :
    (p chr : ℕ) (text : List ℕ) → All (λ c. c ≢ chr) text → first_place p text chr ≡ none
first_place-none p chr [] h = refl
first_place-none p chr (c ∷ text) (hc, h) =
    let other : (c == chr) ≡ false = ground arith in rw other (first_place-none (p + 1) chr text h)

first_place-dot :
    (p : ℕ) (base ext : List ℕ)
    → NoDot base
    → first_place p (base ++ (b'.' ∷ ext)) b'.' ≡ some (p + length base)
first_place-dot p [] ext h = ap some (omega arith)
first_place-dot p (c ∷ base) ext (hc, h) =
    let other : (c == b'.') ≡ false = ground arith in
    rw other (first_place-dot (p + 1) base ext h ∙ ap some (omega arith))

length-pad : (n : ℕ) (text : List ℕ) → length (pad n text) ≡ n
length-pad zero text = refl
length-pad (suc n) [] = ap suc (length-pad n [])
length-pad (suc n) (c ∷ text) = ap suc (length-pad n text)

pad-bound : (n : ℕ) (text : List ℕ) → All (λ c. c < 256) text → All (λ c. c < 256) (pad n text)
unfolding toupper islower
pad-bound zero text h = tt
pad-bound (suc n) [] h = (omega arith, pad-bound n [] tt)
pad-bound (suc n) (c ∷ text) (hc, h) = (ground arith, pad-bound n text h)

pub length-short_name : (base : List ℕ) (ext : Option (List ℕ)) → length (short_name base ext) ≡ 12
length-short_name base ext = omega (
  arith,
  length-append (pad 8 base) (pad 3 (extension ext) ++ (0 ∷ [])),
  length-append (pad 3 (extension ext)) (0 ∷ []),
  length-pad 8 base,
  length-pad 3 (extension ext),
)

extension-bound :
    (base : List ℕ) (ext : Option (List ℕ))
    → All (λ c. c < 256) (spelled base ext)
    → All (λ c. c < 256) (extension ext)
extension-bound base none h = tt
extension-bound [] (some ext) h = h.1
extension-bound (c ∷ base) (some ext) h = extension-bound base (some ext) h.1

base-bound :
    (base : List ℕ) (ext : Option (List ℕ))
    → All (λ c. c < 256) (spelled base ext)
    → All (λ c. c < 256) base
base-bound base none h = h
base-bound [] (some ext) h = tt
base-bound (c ∷ base) (some ext) h = (h.0, base-bound base (some ext) h.1)

pub short_name-bound :
    (base : List ℕ) (ext : Option (List ℕ))
    → All (λ c. c < 256) (spelled base ext)
    → All (λ c. c < 256) (short_name base ext)
short_name-bound base ext h =
    All-append (λ c. c < 256) (pad 8 base) _ (pad-bound 8 base (base-bound base ext h))
      (All-append (λ c. c < 256) (pad 3 (extension ext)) (0 ∷ [])
        (pad-bound 3 (extension ext) (extension-bound base ext h)) (omega arith))

-- With enough rounds, `FAT_FindFile` makes of a name, with an extension behind its first dot or without
-- a dot, the form of a directory: eight and three bytes, in capitals, cut off or filled up with blanks.
-- The part before the dot has not eleven characters: then the dot is not seen.
pub fat_name-short_name :
    (m : Memory) (name rounds : ℕ) (base : List ℕ) (ext : Option (List ℕ))
    → Text m name (spelled base ext)
    → NoDot base
    → length base ≢ 11
    → length (spelled base ext) < rounds
    → fat_name rounds m name ≡ some (short_name base ext)
unfolding fat_name
fat_name-short_name m name rounds base none t no_dot not_eleven few =
    let found =
      strchr-first_place m name b'.' rounds base t few
      ∙ ap some (first_place-none name b'.' base no_dot) in
    let at_end : (name + 11 == name + 11) ≡ true = ground arith in
    let same : name + 0 ≡ name = omega arith in
    let done =
      base_bytes-pad m name (name + 11) 8 0 [] (b' ' ∷ b' ' ∷ b' ' ∷ 0 ∷ []) base refl
        (rw same (Text-Prefix_whole m name base t)) (inl (rw same (Text-end m name base t)))
        (inr (omega arith)) in
    rw (fat_name, found, at_end) (ap some done)
fat_name-short_name m name rounds base (some ext) t no_dot not_eleven few =
    let found =
      strchr-first_place m name b'.' rounds (base ++ (b'.' ∷ ext)) t few
      ∙ ap some (first_place-dot name base ext no_dot) in
    let apart : (name + length base == name + 11) ≡ false = ground arith in
    let same : name + 0 ≡ name = omega arith in
    let whole = Text-behind m name base (b'.' ∷ ext) t in
    let behind : name + length base + 0 + 1 ≡ name + length base + 1 = omega arith in
    let done =
      base_bytes-pad m name (name + length base) 8 0 [] (b' ' ∷ b' ' ∷ b' ' ∷ 0 ∷ []) base refl
        (rw same (Text-Prefix m name base (b'.' ∷ ext) t)) (inr (rw same refl))
        (inl (omega arith)) in
    let done' =
      extension_bytes-pad m (name + length base) 3 0 (pad 8 base) (0 ∷ []) ext (length-pad 8 base)
        (rw behind (Text-Prefix_whole m (name + length base + 1) ext whole.2))
        (rw behind (Text-end m (name + length base + 1) ext whole.2)) in
    rw (fat_name, found, apart, done) (ap some done')
