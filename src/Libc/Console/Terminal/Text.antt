-- ===== src/Libc/Console/Terminal/Text.antt =====
-- `puts` writes a text to the terminal.
use netclover.Prelude.{ℕ, ◌≡◌, ◌≢◌, inl, refl, arith, some, List, [], ◌∷◌, ◌++◌, All}
use netclover.Libc.Console.{Arch, Console, screen_height, putc, puts, putc_all}
use netclover.Libc.Console.Terminal.{Terminal, Shows, write_all}
use netclover.Libc.Console.Terminal.Putc.{putc-ShowsAt}

-- No end of the text inside it.
abbrev pub IsString : List ℕ → Type 0
IsString = All (λ c. c ≢ 0)

-- Nor a backspace.
abbrev pub IsText : List ℕ → Type 0
IsText = All (λ c. (c ≢ 0) × (c ≢ 8))

IsText-IsString : (text : List ℕ) → IsText text → IsString text
IsText-IsString [] h = tt
IsText-IsString (c ∷ text) ((nonzero, _), h) = (nonzero, IsText-IsString text h)

module _ (arch : Arch) where
  pub putc_all-append :
      (a b : List ℕ) (s : Console) → putc_all arch (a ++ b) s ≡ putc_all arch b (putc_all arch a s)
  unfolding putc_all
  putc_all-append [] b s = refl
  putc_all-append (c ∷ a) b s = putc_all-append a b (putc arch c s)

  pub putc_all-Shows :
      (text : List ℕ) (s : Console) (t : Terminal)
      → IsText text
      → Shows arch s t
      → Shows arch (putc_all arch text s) (write_all (screen_height arch) text t)
  unfolding putc_all write_all
  putc_all-Shows [] s t _ h = h
  putc_all-Shows (c ∷ text) s t (hc, ht) h =
      putc_all-Shows text _ _ ht (putc-ShowsAt arch c s t h (inl hc.1)).0

  pub puts-putc_all :
      (text rest : List ℕ) (s : Console)
      → IsString text
      → puts arch (text ++ (0 ∷ rest)) s ≡ some (putc_all arch text s)
  unfolding puts putc_all
  puts-putc_all [] rest s _ = refl
  puts-putc_all (c ∷ text) rest s (hc, ht) =
      ground (arith, puts-putc_all text rest (putc arch c s) ht)

  -- `puts` of a text without a backspace, up to its terminator, returns, and what the screen
  -- then shows is the terminal after the characters in order. What stands behind the
  -- terminator is not read.
  pub puts-Shows :
      (text rest : List ℕ) (s : Console) (t : Terminal)
      → IsText text
      → Shows arch s t
      → (s' : Console) × (puts arch (text ++ (0 ∷ rest)) s ≡ some s')
        × Shows arch s' (write_all (screen_height arch) text t)
  puts-Shows text rest s t ht h = (
    putc_all arch text s,
    puts-putc_all text rest s (IsText-IsString text ht),
    putc_all-Shows text s t ht h,
  )
