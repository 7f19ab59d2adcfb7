-- ===== src/Boot/Fat/Slices.antt =====
-- Runs of the bytes of a disk.
use mathlib.Core.List.{append-nil}
use netclover.Prelude.{
  ℕ, zero, suc, ◌+◌, ◌-◌, ◌≤◌, ◌≡◌, ◌∙◌, refl, sym, ap, arith, true, some, List, [], ◌∷◌, ◌++◌,
  length, take, drop, leb,
}
use netclover.Boot.Fat.{copied, overwrite}

-- So many bytes from one on.
abbrev pub slice : (ℕ → ℕ) → ℕ → ℕ → List ℕ
slice bytes first zero = []
slice bytes first (suc count) = bytes first ∷ slice bytes (first + 1) count

drop-length : (xs : List ℕ) → drop (length xs) xs ≡ []
drop-length [] = refl
drop-length (x ∷ xs) = drop-length xs

module _ (bytes : ℕ → ℕ) where
  pub length-slice : (first count : ℕ) → length (slice bytes first count) ≡ count
  length-slice first zero = refl
  length-slice first (suc count) = ap suc (length-slice (first + 1) count)

  pub slice-append :
      (first m n : ℕ) → slice bytes first m ++ slice bytes (first + m) n ≡ slice bytes first (m + n)
  slice-append first zero n =
      let e : first + 0 ≡ first = omega arith in let e' : 0 + n ≡ n = omega arith in rw (e, e') refl
  slice-append first (suc m) n =
      let e : first + suc m ≡ first + 1 + m = omega arith in
      let e' : suc m + n ≡ suc (m + n) = omega arith in
      rw (e, e') (ap (λ t. bytes first ∷ t) (slice-append (first + 1) m n))

  drop-slice :
      (first skipped count : ℕ)
      → drop skipped (slice bytes first (skipped + count)) ≡ slice bytes (first + skipped) count
  drop-slice first zero count =
      let e : first + 0 ≡ first = omega arith in
      let e' : 0 + count ≡ count = omega arith in rw (e, e') refl
  drop-slice first (suc skipped) count =
      let e : suc skipped + count ≡ suc (skipped + count) = omega arith in
      let e' : first + suc skipped ≡ first + 1 + skipped = omega arith in
      rw (e, e') (drop-slice (first + 1) skipped count)

  take-slice :
      (first count rest : ℕ)
      → take count (slice bytes first (count + rest)) ≡ slice bytes first count
  take-slice first zero rest = refl
  take-slice first (suc count) rest =
      let e : suc count + rest ≡ suc (count + rest) = omega arith in
      rw e (ap (λ t. bytes first ∷ t) (take-slice (first + 1) count rest))

  pub copied-slice :
      (first size offset count : ℕ)
      → offset + count ≤ size
      → copied (slice bytes first size) offset count ≡ some (slice bytes (first + offset) count)
  unfolding copied
  copied-slice first size offset count inside =
      let split : size ≡ offset + (count + (size - (offset + count))) = omega arith in
      let fits : leb (offset + count) (length (slice bytes first size)) ≡ true =
        ground (arith, length-slice first size) in
      rw (fits) (
        ap some (
          ap (λ n. take count (drop offset (slice bytes first n))) split
          ∙ ap (take count) (drop-slice first offset (count + (size - (offset + count))))
          ∙ take-slice (first + offset) count (size - (offset + count))))

  -- As many bytes as a buffer has replace it.
  pub overwrite-full :
      (a size : ℕ) (buffer : List ℕ)
      → length buffer ≡ size
      → overwrite buffer (slice bytes a size) ≡ slice bytes a size
  overwrite-full a size buffer full =
      let whole : length (slice bytes a size) ≡ length buffer = length-slice a size ∙ sym full in
      let none_left : drop (length (slice bytes a size)) buffer ≡ [] =
        rw whole (drop-length buffer) in
      rw none_left (append-nil (slice bytes a size))

  -- A full sector replaces a full buffer.
  pub overwrite-slice :
      (a b size : ℕ) → overwrite (slice bytes a size) (slice bytes b size) ≡ slice bytes b size
  overwrite-slice a b size = overwrite-full b size (slice bytes a size) (length-slice a size)
