-- ===== src/Libc/Printf/Directives/Meaning.antt =====
-- The state machine of `printf` does what its format means.
use netclover.Prelude.{
  ℕ, ◌≡◌, ◌≢◌, ◌∙◌, refl, ap, arith, Option, none, some, List, [], ◌∷◌, ◌++◌, All, ◌>>=◌,
}
use mathlib.Core.List.{append_assoc}
use netclover.Libc.Arch.{Arch}
use netclover.Libc.Console.{Console}
use netclover.Libc.Printf.{
  State, Length, default, short_short, short, long, long_long, Frame, enter, Args, convert,
  print_number, spec_branch, step, printf_loop, printf,
}
use netclover.Libc.Printf.Directives.{
  Directive, plain, conversion, spelling, spell, IsReadable, Output, render_number, render,
  render_all,
}

abbrev pub framed : Output → Option Frame
framed (args, s) = some (enter args s)

-- The frame in which the conversion of a directive is read.
abbrev at_spec : State → Length → Args → Console → Frame
at_spec state len args s = record (enter args s) { state = state; len = len }

spec_branch-render :
    (arch : Arch) (state : State) (len : Length) (c : ℕ) (args : Args) (s : Console)
    → spec_branch arch c (at_spec state len args s)
      ≡ (render arch (conversion len c) (args, s) >>= framed)
unfolding spec_branch convert print_number render render_number
spec_branch-render arch state len c args s = ground arith

bind_then :
    (o : Option Output) (k : Output → Option Frame) (f : Output → Option Output)
    (g : Output → Option Frame)
    → ((args : Args) (s : Console) → k (args, s) ≡ (f (args, s) >>= g))
    → (o >>= k) ≡ (o >>= f >>= g)
bind_then none k f g h = refl
bind_then (some (args, s)) k f g h = h args s

module _ (arch : Arch) where
  -- One round of the loop at a character that is not the end.
  loop_round :
      (c : ℕ) (tail : List ℕ) (f : Frame)
      → c ≢ 0
      → printf_loop arch (c ∷ tail) f ≡ (step arch f.state c f >>= printf_loop arch tail)
  unfolding printf_loop
  loop_round c tail f h = ground arith

  bind-framed :
      (o : Option Output) (tail : List ℕ)
      → ((o >>= framed) >>= printf_loop arch tail)
        ≡ (o >>= λ out. printf_loop arch tail (enter out.0 out.1))
  bind-framed none tail = refl
  bind-framed (some out) tail = refl

  -- After the conversion's character the loop goes on in the state of the start.
  loop-spec_branch :
      (state : State) (len : Length) (c : ℕ) (tail : List ℕ) (args : Args) (s : Console)
      → c ≢ 0
      → step arch state c (at_spec state len args s) ≡ spec_branch arch c (at_spec state len args s)
      → printf_loop arch (c ∷ tail) (at_spec state len args s) ≡ (
          render arch (conversion len c) (args, s) >>= λ out.
          printf_loop arch tail (enter out.0 out.1))
  loop-spec_branch state len c tail args s h e =
      loop_round c tail (at_spec state len args s) h
      ∙ ap (λ o. o >>= printf_loop arch tail) (e ∙ spec_branch-render arch state len c args s)
      ∙ bind-framed (render arch (conversion len c) (args, s)) tail

  loop-spelling :
      (d : Directive) (tail : List ℕ) (args : Args) (s : Console)
      → IsReadable d
      → printf_loop arch (spelling d ++ tail) (enter args s)
        ≡ (render arch d (args, s) >>= λ out. printf_loop arch tail (enter out.0 out.1))
  unfolding step
  loop-spelling (plain c) tail args s h =
      unfold render in rw (loop_round c tail (enter args s) h.0) (ground arith)
  loop-spelling (conversion default c) tail args s h =
      loop_round b'%' _ _ (omega arith)
      ∙ loop-spec_branch State.length default c tail args s h.0 (ground arith)
  loop-spelling (conversion short c) tail args s h =
      loop_round b'%' _ _ (omega arith)
      ∙ loop_round b'h' _ _ (omega arith)
      ∙ loop-spec_branch State.length_short short c tail args s h.0 (ground arith)
  loop-spelling (conversion long c) tail args s h =
      loop_round b'%' _ _ (omega arith)
      ∙ loop_round b'l' _ _ (omega arith)
      ∙ loop-spec_branch State.length_long long c tail args s h.0 (ground arith)
  loop-spelling (conversion short_short c) tail args s h =
      loop_round b'%' _ _ (omega arith)
      ∙ loop_round b'h' _ _ (omega arith)
      ∙ loop_round b'h' _ _ (omega arith)
      ∙ loop-spec_branch State.spec short_short c tail args s h refl
  loop-spelling (conversion long_long c) tail args s h =
      loop_round b'%' _ _ (omega arith)
      ∙ loop_round b'l' _ _ (omega arith)
      ∙ loop_round b'l' _ _ (omega arith)
      ∙ loop-spec_branch State.spec long_long c tail args s h refl

  loop-spell :
      (ds : List Directive) (rest : List ℕ) (args : Args) (s : Console)
      → All IsReadable ds
      → printf_loop arch (spell ds ++ rest) (enter args s)
        ≡ (render_all arch ds (args, s) >>= λ out. printf_loop arch rest (enter out.0 out.1))
  unfolding render_all
  loop-spell [] rest args s _ = refl
  loop-spell (d ∷ ds) rest args s (hd, hs) =
      let tail = spell ds ++ rest in
      ap (λ format. printf_loop arch format (enter args s))
        (append_assoc (spelling d) (spell ds) rest)
      ∙ loop-spelling d tail args s hd
      ∙ bind_then (render arch d (args, s)) (λ out. printf_loop arch tail (enter out.0 out.1))
          (render_all arch ds) (λ out. printf_loop arch rest (enter out.0 out.1))
          (λ a t. loop-spell ds rest a t hs)

  console-loop :
      (o : Option Output) (rest : List ℕ)
      → (o >>= (λ out. printf_loop arch rest (enter out.0 out.1)) >>= λ f. some f.console)
        ≡ (o >>= λ out. printf arch rest out.0 out.1)
  unfolding printf
  console-loop none rest = refl
  console-loop (some out) rest = refl

  -- What stands behind some directives is read as by a call of its own.
  pub printf-spell_then :
      (ds : List Directive) (rest : List ℕ) (args : Args) (s : Console)
      → All IsReadable ds
      → printf arch (spell ds ++ rest) args s
        ≡ (render_all arch ds (args, s) >>= λ out. printf arch rest out.0 out.1)
  unfolding printf
  printf-spell_then ds rest args s h =
      ap (λ o. o >>= λ f. some f.console) (loop-spell ds rest args s h)
      ∙ console-loop (render_all arch ds (args, s)) rest

  -- `printf` of the spelling of any directives that are read back as themselves, with any
  -- arguments, does what the directives mean in order, and is undefined exactly where their
  -- meaning is. What stands behind the end of the format is not read.
  pub printf-render_all :
      (ds : List Directive) (rest : List ℕ) (args : Args) (s : Console)
      → All IsReadable ds
      → printf arch (spell ds ++ (0 ∷ rest)) args s
        ≡ (render_all arch ds (args, s) >>= λ out. some out.1)
  unfolding printf printf_loop
  printf-render_all ds rest args s h = printf-spell_then ds (0 ∷ rest) args s h

  -- A format that ends behind a modifier prints nothing more.
  pub printf_unfinished :
      (args : Args) (s : Console) → printf arch (b'%' ∷ b'l' ∷ 0 ∷ []) args s ≡ some s
  unfolding printf printf_loop step
  printf_unfinished args s = refl
