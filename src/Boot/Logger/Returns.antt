-- ===== src/Boot/Logger/Returns.antt =====
-- `log` returns, and touches nothing but the screen.
use netclover.Prelude.{
  ℕ, ◌≤◌, ◌≡◌, ◌∙◌, refl, arith, true, Option, none, some, List, [], ◌∷◌, ◌++◌, length, take, leb,
  codes, All, map, if◌then◌else◌,
}
use netclover.Libc.Arch.{i686}
use netclover.Libc.Console.{Console, putc, puts, putc_all}
use netclover.Libc.Console.Terminal.Text.{IsString, puts-putc_all}
use netclover.Libc.Printf.{Args, ptr, default, va_text}
use netclover.Libc.Printf.Directives.{
  Directive, plain, conversion, spell, Output, render, render_all,
}
use netclover.Libc.Printf.Directives.Meaning.{printf-render_all}
use netclover.Libc.Vprintf.{vprintf}
use netclover.Libc.Vprintf.Agrees.{IsShared, All-shared-IsReadable, vprintf-printf}
use netclover.Boot.Io.{Io, Step, ◌>>=◌, ◌>>◌}
use netclover.Boot.Logger.{
  LogLevel, normal, warning, error, critical, literal, level_text, on_console, log,
}

-- The function returns, whatever the screen shows.
abbrev pub Returns : (Console → Option Console) → Type 0
Returns f = (c : Console) → (c' : Console) × (f c ≡ some c')

-- The step returns without a result, and leaves the BIOS alone.
abbrev pub OnlyPrints : {W : Type 0} → Step (Io W) (Unit {0}) → Io W → Type 0
OnlyPrints {W} m io = (io' : Io W) × (m io ≡ some (tt, io')) × (io'.world ≡ io.world)

puts-Returns : (text : List ℕ) → IsString text → Returns (puts i686 (literal text))
puts-Returns text h c = (_, puts-putc_all i686 text [] c h)

level_text-Returns : (level : LogLevel) → Returns (puts i686 (level_text level))
level_text-Returns normal = puts-Returns [] tt
level_text-Returns warning = puts-Returns (codes "WARNING: ") (omega arith)
level_text-Returns error = puts-Returns (codes "ERROR: ") (omega arith)
level_text-Returns critical = puts-Returns (codes "CRITICAL: ") (omega arith)

service-Returns :
    (service : List ℕ)
    → 8 ≤ length service
    → Returns
        (λ c. if leb 8 (length service) then some (putc_all i686 (take 8 service) c) else none)
service-Returns service h c =
    let long_enough : leb 8 (length service) ≡ true = ground arith in
    (putc_all i686 (take 8 service) c, rw long_enough refl)

module _ {W : Type 0} where
  pub on_console-OnlyPrints :
      (f : Console → Option Console) → Returns f → (io : Io W) → OnlyPrints (on_console f) io
  unfolding on_console
  on_console-OnlyPrints f h io =
      (record io { console = (h io.console).0 }, rw ((h io.console).1, on_console) refl, refl)

  then-OnlyPrints :
      (m k : Step (Io W) (Unit {0}))
      → ((io : Io W) → OnlyPrints m io)
      → ((io : Io W) → OnlyPrints k io)
      → (io : Io W) → OnlyPrints (m >> k) io
  then-OnlyPrints m k hm hk io =
      let (middle, e, same) = hm io in
      let (last, e', same') = hk middle in (last, rw (e, ◌>>◌, ◌>>=◌) e', same' ∙ same)

  -- With 8 bytes for the service and a format that prints, `log` returns.
  pub log-OnlyPrints :
      (level : LogLevel) (service format : List ℕ) (args : Args)
      → 8 ≤ length service
      → Returns (vprintf i686 format args)
      → (io : Io W) → OnlyPrints (log level service format args) io
  unfolding log
  log-OnlyPrints level service format args h p =
      then-OnlyPrints _ _ (on_console-OnlyPrints _ (λ c. (_, refl))) (
        then-OnlyPrints _ _ (on_console-OnlyPrints _ (service-Returns service h)) (
          then-OnlyPrints _ _ (on_console-OnlyPrints _ (puts-Returns (codes "] ") (omega arith))) (
            then-OnlyPrints _ _ (on_console-OnlyPrints _ (level_text-Returns level)) (
              then-OnlyPrints _ _ (on_console-OnlyPrints _ p)
                (on_console-OnlyPrints _ (λ c. (_, refl)))))))

-- The directives print, with these arguments.
abbrev pub Renders : List Directive → Args → Type 0
Renders ds args = (c : Console) → (out : Output) × (render_all i686 ds (args, c) ≡ some out)

pub Renders-nil : (args : Args) → Renders [] args
unfolding render_all
Renders-nil args c = ((args, c), refl)

pub Renders-plain :
    (text : List ℕ) (ds : List Directive) (args : Args)
    → Renders ds args
    → Renders (map plain text ++ ds) args
unfolding render_all render
Renders-plain [] ds args h c = h c
Renders-plain (x ∷ text) ds args h c = Renders-plain text ds args h (putc i686 x c)

pub Renders-text :
    (text rest : List ℕ) (ds : List Directive) (args : Args)
    → IsString text
    → Renders ds args
    → Renders (conversion default b's' ∷ ds) (ptr (text ++ (0 ∷ rest)) ∷ args)
unfolding render_all render va_text
Renders-text text rest ds args ht h c =
    let (out, e) = h (putc_all i686 text c) in (out, rw (puts-putc_all i686 text rest c ht) e)

pub vprintf-Returns :
    (ds : List Directive) (args : Args)
    → All IsShared ds
    → Renders ds args
    → Returns (vprintf i686 (spell ds ++ (0 ∷ [])) args)
vprintf-Returns ds args h r c =
    let (out, e) = r c in
    (
      out.1,
      vprintf-printf i686 ds [] args c h
          ∙ printf-render_all i686 ds [] args c (All-shared-IsReadable ds h)
          ∙ rw e refl,
    )

Renders-map_plain : (text : List ℕ) → Renders (map plain text) []
unfolding render_all render
Renders-map_plain [] c = (_, refl)
Renders-map_plain (x ∷ text) c = Renders-map_plain text (putc i686 x c)

module _ {W : Type 0} where
  pub message-OnlyPrints :
      (level : LogLevel) (service text : List ℕ)
      → 8 ≤ length service
      → All IsShared (map plain text)
      → (io : Io W) → OnlyPrints (log level service (spell (map plain text) ++ (0 ∷ [])) []) io
  message-OnlyPrints level service text long h =
      log-OnlyPrints level service _ [] long
        (vprintf-Returns (map plain text) [] h (Renders-map_plain text))

  -- A message with a text in it.
  pub text_message-OnlyPrints :
      (level : LogLevel) (service before after text rest : List ℕ)
      → 8 ≤ length service
      → All IsShared (map plain before ++ (conversion default b's' ∷ map plain after))
      → IsString text
      → (io : Io W)
      → OnlyPrints
          (log level service
            (spell (map plain before ++ (conversion default b's' ∷ map plain after)) ++ (0 ∷ []))
            (ptr (text ++ (0 ∷ rest)) ∷ []))
          io
  text_message-OnlyPrints level service before after text rest long h string =
      log-OnlyPrints level service _ _ long (
        vprintf-Returns (map plain before ++ (conversion default b's' ∷ map plain after)) _ h (
          Renders-plain before _ _
            (Renders-text text rest (map plain after) [] string (Renders-map_plain after))))
