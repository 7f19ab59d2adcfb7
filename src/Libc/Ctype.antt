-- ===== src/Libc/Ctype.antt =====
-- src/libc/ctype: the tests and conversions of letters. A `char` is its byte: the bytes from 128
-- on, negative as `char`, fail both tests either way.
use netclover.Prelude.{ℕ, ◌+◌, ◌-◌, ◌≡◌, Bool, false, ◌&&◌, ◌||◌, arith, leb, if◌then◌else◌}

unfoldable pub islower : ℕ → Bool
islower c = leb b'a' c && leb c b'z'

unfoldable pub isupper : ℕ → Bool
isupper c = leb b'A' c && leb c b'Z'

unfoldable pub tolower : ℕ → ℕ
unfolding isupper
tolower c = if isupper c then c - b'A' + b'a' else c

unfoldable pub toupper : ℕ → ℕ
unfolding islower
toupper c = if islower c then c - b'a' + b'A' else c

-- For every character: `toupper` leaves no lower-case letter and `tolower` no upper-case one, both
-- give letters for letters and other characters for others, and each forgets what the other did.
pub toupper-tolower :
    (c : ℕ)
    → (islower (toupper c) ≡ false)
      × (isupper (tolower c) ≡ false)
      × (isupper (toupper c) ≡ (isupper c || islower c))
      × (islower (tolower c) ≡ (isupper c || islower c))
      × (toupper (tolower c) ≡ toupper c)
      × (tolower (toupper c) ≡ tolower c)
unfolding toupper tolower
toupper-tolower c =
    (ground arith, ground arith, ground arith, ground arith, ground arith, ground arith)
