-- ===== src/Boot/Fat/Lookup/Named.antt =====
-- The name that `FAT_Open` looks for, with the byte that may be left over behind it.
use mathlib.Core.List.{append_assoc}
use mathlib.Core.Path.{subst}
use netclover.Prelude.{
  inl, inr, ◌∙◌, ◌==◌, ℕ, zero, suc, ◌+◌, ◌≤◌, ◌<◌, ◌≡◌, ◌≢◌, ◌∙◌, refl, sym, ap, arith, false,
  Option, some, List, [], ◌∷◌, ◌++◌, All, All-append, ◌==◌, length, length-append,
}
use netclover.Libc.Strings.{Memory}
use netclover.Libc.Strings.Texts.{Text}
use netclover.Boot.Io.{Io}
use netclover.Boot.Fat.{FileData, FatData, DirectoryEntry}
use netclover.Boot.Fat.RootReading.{root_at}
use netclover.Boot.Fat.Files.{root, pointee, put_pointee, close}
use netclover.Boot.Fat.Files.RootFile.{with_root}
use netclover.Boot.Fat.Files.RootClose.{closed_at}
use netclover.Boot.Fat.Lookup.{max_path_size}
use netclover.Boot.Fat.Lookup.Buffer.{
  with_name-outside, left_over, Apart, with_name, with_name-Text,
}
use netclover.Boot.Fat.Lookup.Padding.{pad, pad-append}
use netclover.Boot.Fat.Lookup.ShortNames.{spelled, short_name, NoDot, Text-end}
use netclover.Boot.Fat.Lookup.InRoot.{Found, exhausted, here, later}

-- There is one first entry with a name, or none.
pub Found-unique :
    (wanted : List ℕ) (entry : ℕ → List ℕ) (k n : ℕ) (r r' : Option DirectoryEntry)
    → Found wanted entry k n r
    → Found wanted entry k n r'
    → r ≡ r'
Found-unique wanted entry k zero _ _ exhausted exhausted = refl
Found-unique wanted entry k (suc n) r r' (here named e) (here named' e') = e ∙ sym e'
Found-unique wanted entry k (suc n) r r' (here named e) (later other found) = absurd (other named)
Found-unique wanted entry k (suc n) r r' (later other found) (here named e) = absurd (other named)
Found-unique wanted entry k (suc n) r r' (later other found) (later other' found') =
    Found-unique wanted entry (suc k) n r r' found found'

-- What lies behind three characters of an extension is not part of the name in a directory.
pub short_name-append :
    (base ext tail : List ℕ)
    → length ext ≡ 3
    → short_name base (some (ext ++ tail)) ≡ short_name base (some ext)
short_name-append base ext tail three =
    ap (λ t. pad 8 base ++ (t ++ (0 ∷ []))) (pad-append 3 ext tail three)

pub close-closed_at :
    {W : Type 0} (f : FatData) (bytes : ℕ → ℕ) (fd : FileData) (p : ℕ) (io : Io W)
    → close root (record { io = io; fat_data = with_root f (root_at bytes fd p) })
      ≡ some (tt, record { io = io; fat_data = with_root f (closed_at bytes fd p) })
unfolding close pointee put_pointee
close-closed_at f bytes fd p io = refl

Text-bound :
    (m : Memory) (p : ℕ) (text : List ℕ)
    → Text m p text
    → ((a : ℕ) → m a < 256)
    → All (λ c. c < 256) text
Text-bound m p [] t h = tt
Text-bound m p (c ∷ text) (hc, nonzero, t) h =
    (subst (λ v. v < 256) hc (h p), Text-bound m (p + 1) text t h)

pub Text-some :
    (m : Memory) (p : ℕ) (a b : List ℕ) → Text m p (a ++ b) → 0 < length b → (m p == 0) ≡ false
Text-some m p [] [] t h = absurd (omega arith)
Text-some m p [] (c ∷ b) (hc, nonzero, _) h = ground arith
Text-some m p (c ∷ a) b (hc, nonzero, _) h = ground arith

left_over-bound : (g : ℕ) → g < 256 → All (λ c. c < 256) (left_over g)
left_over-bound zero h = tt
left_over-bound (suc g) h = (h, tt)

left_over-length : (g : ℕ) → length (left_over g) ≤ 1
left_over-length zero = omega arith
left_over-length (suc g) = omega arith

-- The last name of a path, with an extension of three characters, and its buffer.
pub record IsPathName (m : Memory) (path name : ℕ) (base ext : List ℕ) : Type 0 where
  pub text : Text m path (spelled base (some ext))
  pub short : length (spelled base (some ext)) < 255
  pub apart : Apart path (length (spelled base (some ext)) + 1) name max_path_size
  pub no_dot : NoDot base
  pub not_eleven : length base ≢ 11
  pub three : length ext ≡ 3
  pub no_slash : All (λ c. c ≢ b'/') (spelled base (some ext))
  pub low : (a : ℕ) → m a < 256

module _ (m : Memory) (path name : ℕ) (base ext : List ℕ)
    (n : IsPathName m path name base ext) where
  abbrev letters : List ℕ
  letters = spelled base (some ext)

  abbrev pub m' : Memory
  m' = with_name m path name letters n.text n.short n.apart

  -- The name with the byte that is left over.
  abbrev pub tail : List ℕ
  tail = left_over (m (name + length letters))

  abbrev pub whole : List ℕ
  whole = spelled base (some (ext ++ tail))

  whole-append : letters ++ tail ≡ whole
  whole-append = append_assoc base (b'.' ∷ ext) tail

  pub name-Text : Text m' name whole
  name-Text =
      subst (Text m' name) whole-append (with_name-Text m path name letters n.text n.short n.apart)

  pub name-bound : All (λ c. c < 256) whole
  name-bound = subst (All (λ c. c < 256)) whole-append (
      All-append (λ c. c < 256) letters tail (Text-bound m path letters n.text n.low)
        (left_over-bound (m (name + length letters)) (n.low (name + length letters))))

  pub name-length : length whole ≤ length letters + 1
  name-length =
      subst (λ l. length l ≤ length letters + 1) whole-append
        (omega (arith, length-append letters tail, left_over-length (m (name + length letters))))

  -- The path ends behind the name.
  pub path_end : m' (path + length letters) ≡ 0
  path_end =
      with_name-outside m path name letters n.text n.short n.apart (path + length letters)
        (elim n.apart [
          | inl before ↦ inl (omega (arith, before))
          | inr behind ↦ inr (omega (arith, behind))
        ])
      ∙ Text-end m path letters n.text

  pub path_start : (m path == 0) ≡ false
  path_start = Text-some m path base (b'.' ∷ ext) n.text (omega arith)
