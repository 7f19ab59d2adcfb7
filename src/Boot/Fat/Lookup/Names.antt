-- ===== src/Boot/Fat/Lookup/Names.antt =====
-- The comparison of a name with an entry of a directory.
use netclover.Prelude.{
  ℕ, zero, suc, ◌+◌, ◌≤◌, ◌<◌, ◌≡◌, ◌≢◌, ◌⊎◌, ◌∙◌, inl, inr, refl, sym, ap, arith, true, false,
  List, [], ◌∷◌, ◌++◌, All, length, get_or, take, drop, sub32,
}
use netclover.Libc.Strings.{memcmp}
use netclover.Libc.Strings.Runs.{Agree, memcmp-Compared}
use netclover.Boot.Fat.Lookup.{same_name}

get_or-append_left :
    (xs ys : List ℕ) (i : ℕ) → i < length xs → get_or (xs ++ ys) i 0 ≡ get_or xs i 0
get_or-append_left [] ys i h = absurd (omega arith)
get_or-append_left (x ∷ xs) ys zero h = refl
get_or-append_left (x ∷ xs) ys (suc i) h = get_or-append_left xs ys i (omega arith)

get_or-append_right :
    (xs ys : List ℕ) (n i : ℕ) → length xs ≡ n → get_or (xs ++ ys) (n + i) 0 ≡ get_or ys i 0
get_or-append_right [] ys n i e = let index : n + i ≡ i = omega arith in rw index refl
get_or-append_right (x ∷ xs) ys zero i e = absurd (omega arith)
get_or-append_right (x ∷ xs) ys (suc n) i e =
    let index : suc n + i ≡ suc (n + i) = omega arith in
    rw index (get_or-append_right xs ys n i (omega arith))

take-snoc :
    (n : ℕ) (xs ys : List ℕ)
    → n < length xs
    → n < length ys
    → take n xs ≡ take n ys
    → get_or xs n 0 ≡ get_or ys n 0
    → take (suc n) xs ≡ take (suc n) ys
take-snoc n [] ys hx hy e h = absurd (omega arith)
take-snoc n (x ∷ xs) [] hx hy e h = absurd (omega arith)
take-snoc zero (x ∷ xs) (y ∷ ys) hx hy e h = rw h refl
take-snoc (suc n) (x ∷ xs) (y ∷ ys) hx hy e h =
    let first : x ≡ y = ap (λ l. get_or l 0 0) e in
    let rest = take-snoc n xs ys (omega arith) (omega arith) (ap (λ l. drop 1 l) e) h in
    rw first (ap (λ t. y ∷ t) rest)

get_or-take : (n i : ℕ) (xs : List ℕ) → i < n → get_or (take n xs) i 0 ≡ get_or xs i 0
get_or-take zero i xs h = absurd (omega arith)
get_or-take (suc n) i [] h = refl
get_or-take (suc n) zero (x ∷ xs) h = refl
get_or-take (suc n) (suc i) (x ∷ xs) h = get_or-take n i xs (omega arith)

get_or-bound : (xs : List ℕ) (i : ℕ) → All (λ c. c < 256) xs → get_or xs i 0 < 256
get_or-bound [] i h = omega arith
get_or-bound (x ∷ xs) zero h = h.0
get_or-bound (x ∷ xs) (suc i) h = get_or-bound xs i h.1

-- A name of twelve bytes against an entry of 32.
module _ (wanted entry : List ℕ) (twelve : length wanted ≡ 12) (whole : length entry ≡ 32) where
  abbrev both : ℕ → ℕ
  both p = get_or (wanted ++ entry) p 0

  left_at : (i : ℕ) → i < 12 → both (0 + i) ≡ get_or wanted i 0
  left_at i h =
      let index : 0 + i ≡ i = omega arith in
      rw index (get_or-append_left wanted entry i (omega arith))

  right_at : (i : ℕ) → both (12 + i) ≡ get_or entry i 0
  right_at i = get_or-append_right wanted entry 12 i twelve

  Agree-take : (n : ℕ) → n ≤ 11 → Agree both 0 12 n → take n wanted ≡ take n entry
  Agree-take zero h a = refl
  Agree-take (suc n) h (a, e) =
      take-snoc n wanted entry (omega arith) (omega arith) (Agree-take n (omega arith) a)
        (sym (left_at n (omega arith)) ∙ e ∙ right_at n)

  differ-take : (k : ℕ) → k < 11 → both (0 + k) ≢ both (12 + k) → take 11 wanted ≢ take 11 entry
  differ-take k h d e =
      let same : get_or wanted k 0 ≡ get_or entry k 0 =
        sym (get_or-take 11 k wanted h) ∙ ap (λ l. get_or l k 0) e ∙ get_or-take 11 k entry h in
      d (left_at k (omega arith) ∙ same ∙ sym (right_at k))

  sub32-differ : (a b : ℕ) → a < 256 → b < 256 → a ≢ b → sub32 a b ≢ 0
  sub32-differ a b ha hb d e = d (omega arith)

  -- `memcmp` finds the names of bytes equal if their first eleven bytes are.
  pub same_name-take :
      All (λ c. c < 256) wanted
      → All (λ c. c < 256) entry
      → ((same_name wanted entry ≡ true) × (take 11 wanted ≡ take 11 entry))
        ⊎ ((same_name wanted entry ≡ false) × (take 11 wanted ≢ take 11 entry))
  same_name-take hw he = elim (memcmp-Compared 0 12 11 both) [
    | inl (a, e) ↦ inl (ground arith, Agree-take 11 (omega arith) a)
    | inr (k, h, a, d, e) ↦
        let l : both (0 + k) < 256 = rw (left_at k (omega arith)) (get_or-bound wanted k hw) in
        let r : both (12 + k) < 256 = rw (right_at k) (get_or-bound entry k he) in
        let nonzero : memcmp 0 12 11 both ≢ 0 = rw e (sub32-differ _ _ l r d) in
        inr (ground (arith, nonzero), differ-take k h d)
  ]
