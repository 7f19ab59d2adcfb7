-- ===== src/Boot/Fat/Lookup/Messages.antt =====
-- The messages of `FAT_Open` with the name in its buffer.
use netclover.Prelude.{ℕ, ◌+◌, ◌<◌, arith, List, [], ◌∷◌, length, codes}
use netclover.Libc.Strings.{Memory}
use netclover.Libc.Strings.Texts.{Text}
use netclover.Libc.Console.Terminal.Text.{IsString}
use netclover.Libc.Printf.{ptr}
use netclover.Boot.Io.{Io}
use netclover.Boot.Logger.{normal, error, literal, log}
use netclover.Boot.Logger.Returns.{OnlyPrints, text_message-OnlyPrints}
use netclover.Boot.Fat.{fat_log_id}
use netclover.Boot.Fat.Lookup.{max_path_size, bytes_from}
use netclover.Boot.Fat.Lookup.Buffer.{Text-bytes_from}

Text-IsString : (m : Memory) (p : ℕ) (text : List ℕ) → Text m p text → IsString text
Text-IsString m p [] h = tt
Text-IsString m p (c ∷ text) (hc, nonzero, h) = (nonzero, Text-IsString m (p + 1) text h)

-- The message about a file that is found, with the name in the buffer, whatever stands behind it.
pub opening_log :
    {W : Type 0} (m : Memory) (name : ℕ) (text : List ℕ) (io : Io W)
    → Text m name text
    → length text < max_path_size
    → OnlyPrints
        (log normal fat_log_id
          (literal (codes "Opening %s"))
          (ptr (bytes_from m name max_path_size) ∷ []))
        io
opening_log m name text io t short =
    let (rest, e) = Text-bytes_from m name max_path_size text t short in
    rw e (
      text_message-OnlyPrints normal fat_log_id (codes "Opening ") [] text rest (omega arith)
        (omega arith) (Text-IsString m name text t) io)

-- The message about one that is not.
pub not_found_log :
    {W : Type 0} (m : Memory) (name : ℕ) (text : List ℕ) (io : Io W)
    → Text m name text
    → length text < max_path_size
    → OnlyPrints
        (log error fat_log_id
          (literal (codes "file \"%s\" not found"))
          (ptr (bytes_from m name max_path_size) ∷ []))
        io
not_found_log m name text io t short =
    let (rest, e) = Text-bytes_from m name max_path_size text t short in
    rw e (
      text_message-OnlyPrints error fat_log_id (codes "file \"") (codes "\" not found") text rest
        (omega arith) (omega arith) (Text-IsString m name text t) io)
