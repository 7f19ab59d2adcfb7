-- ===== src/Boot/Fat/Lookup/Padding.antt =====
-- Names in the form of a directory: eight and three bytes, in capitals and filled up with blanks.
use mathlib.Core.Bool.{not}
use mathlib.Core.List.{append_assoc}
use netclover.Prelude.{
  ℕ, zero, suc, ◌+◌, ◌≤◌, ◌<◌, ◌≡◌, ◌≢◌, ◌⊎◌, ◌∙◌, inl, inr, refl, ap, arith, true, false, ◌&&◌,
  List, [], ◌∷◌, ◌++◌, ◌==◌, Bool-cases, ltb, length, length-append, set, replicate,
}
use netclover.Libc.Ctype.{toupper}
use netclover.Libc.Strings.{Memory}
use netclover.Boot.Fat.Lookup.{base_bytes, extension_bytes}

-- So many bytes: the characters in capitals, cut off or filled up with blanks.
abbrev pub pad : ℕ → List ℕ → List ℕ
pad zero text = []
pad (suc n) [] = b' ' ∷ pad n []
pad (suc n) (c ∷ text) = toupper c ∷ pad n text

-- The characters stand at `p`, whatever follows.
abbrev pub Prefix : Memory → ℕ → List ℕ → Type 0
Prefix m p [] = Unit {0}
Prefix m p (c ∷ text) = (m p ≡ c) × (c ≢ 0) × Prefix m (p + 1) text

-- What stands behind the last byte is cut off.
pub pad-append : (n : ℕ) (text tail : List ℕ) → length text ≡ n → pad n (text ++ tail) ≡ pad n text
pad-append zero [] tail h = refl
pad-append zero (c ∷ text) tail h = absurd (omega arith)
pad-append (suc n) [] tail h = absurd (omega arith)
pad-append (suc n) (c ∷ text) tail h =
    ap (λ t. toupper c ∷ t) (pad-append n text tail (omega arith))

pad-replicate : (n : ℕ) → pad n [] ≡ replicate n b' '
pad-replicate zero = refl
pad-replicate (suc n) = ap (λ t. b' ' ∷ t) (pad-replicate n)

set-append :
    (pre rest : List ℕ) (i x v : ℕ)
    → length pre ≡ i
    → set (pre ++ (x ∷ rest)) i v ≡ (pre ++ (v ∷ [])) ++ rest
set-append [] rest zero x v h = refl
set-append [] rest (suc i) x v h = absurd (omega arith)
set-append (y ∷ pre) rest zero x v h = absurd (omega arith)
set-append (y ∷ pre) rest (suc i) x v h = ap (λ t. y ∷ t) (set-append pre rest i x v (omega arith))

length-snoc : (pre : List ℕ) (v i : ℕ) → length pre ≡ i → length (pre ++ (v ∷ [])) ≡ i + 1
length-snoc pre v i h = omega (arith, length-append pre (v ∷ []))

module _ (m : Memory) where
  pub base_bytes-pad :
      (name ext left i : ℕ) (pre suf text : List ℕ)
      → length pre ≡ i
      → Prefix m (name + i) text
      → (m (name + i + length text) ≡ 0) ⊎ (name + i + length text ≡ ext)
      → (name + i + length text ≤ ext) ⊎ (name + i + left ≤ ext)
      → base_bytes m name ext left i (pre ++ (replicate left b' ' ++ suf))
        ≡ pre ++ (pad left text ++ suf)
  unfolding base_bytes
  base_bytes-pad name ext zero i pre suf text h t ends bound = refl
  base_bytes-pad name ext (suc left) i pre suf [] h t ends bound =
      let same : name + i + 0 ≡ name + i = omega arith in
      let stop : (not (m (name + i) == 0) && ltb (name + i) ext) ≡ false = elim ends [
        | inl zero_there ↦ let z : m (name + i) ≡ 0 = rw same at zero_there in ground (arith, z)
        | inr at_end ↦ elim (Bool-cases (m (name + i) == 0)) [
          | inl z ↦ ground (arith, z)
          | inr nz ↦ ground (arith, nz, at_end)
        ]
      ] in
      rw (base_bytes, stop, pad-replicate left) refl
  base_bytes-pad name ext (suc left) i pre suf (c ∷ text) h (hc, nonzero, t) ends bound =
      let go : (not (m (name + i) == 0) && ltb (name + i) ext) ≡ true =
        (let inside : name + i < ext = elim bound [
          | inl b ↦ omega (arith, b)
          | inr b ↦ omega (arith, b)
        ] in
          ground (arith, hc, inside)) in
      let next : name + i + 1 ≡ name + (i + 1) = omega arith in
      let end_at : name + i + suc (length text) ≡ name + (i + 1) + length text = omega arith in
      let bound' : (name + (i + 1) + length text ≤ ext) ⊎ (name + (i + 1) + left ≤ ext) =
        elim bound [ inl b ↦ inl (omega (arith, b)) | inr b ↦ inr (omega (arith, b)) ] in
      let ih =
        base_bytes-pad name ext left (i + 1) (pre ++ (toupper c ∷ [])) suf text
          (length-snoc pre (toupper c) i h) (rw next at t) (rw end_at at ends) bound' in
      let put = set-append pre (replicate left b' ' ++ suf) i b' ' (toupper c) h in
      rw (base_bytes, go, hc, put) (ih ∙ append_assoc pre (toupper c ∷ []) (pad left text ++ suf))

  pub extension_bytes-pad :
      (ext left i : ℕ) (pre suf text : List ℕ)
      → length pre ≡ i + 8
      → Prefix m (ext + i + 1) text
      → m (ext + i + 1 + length text) ≡ 0
      → extension_bytes m ext left i (pre ++ (replicate left b' ' ++ suf))
        ≡ pre ++ (pad left text ++ suf)
  unfolding extension_bytes
  extension_bytes-pad ext zero i pre suf text h t ends = refl
  extension_bytes-pad ext (suc left) i pre suf [] h t ends =
      let same : ext + i + 1 + 0 ≡ ext + i + 1 = omega arith in
      let z : m (ext + i + 1) ≡ 0 = rw same at ends in
      rw (extension_bytes, z, pad-replicate left) refl
  extension_bytes-pad ext (suc left) i pre suf (c ∷ text) h (hc, nonzero, t) ends =
      let go : (m (ext + i + 1) == 0) ≡ false = ground arith in
      let next : ext + i + 1 + 1 ≡ ext + (i + 1) + 1 = omega arith in
      let end_at : ext + i + 1 + suc (length text) ≡ ext + (i + 1) + 1 + length text =
        omega arith in
      let shifted : i + 8 + 1 ≡ i + 1 + 8 = omega arith in
      let ih =
        extension_bytes-pad ext left (i + 1) (pre ++ (toupper c ∷ [])) suf text
          (length-snoc pre (toupper c) (i + 8) h ∙ shifted) (rw next at t) (rw end_at at ends) in
      let put = set-append pre (replicate left b' ' ++ suf) (i + 8) b' ' (toupper c) h in
      rw (extension_bytes, go, hc, put)
        (ih ∙ append_assoc pre (toupper c ∷ []) (pad left text ++ suf))
