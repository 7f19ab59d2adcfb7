-- ===== src/Prelude/Steps.antt =====
-- Chains of steps over a state, for the do blocks of the code that changes one.
use mathlib.Core.Option.{Option, none, some}

-- A step over a state; `none` is undefined behaviour or a fault of the processor.
abbrev pub Step : Type 0 → Type 0 → Type 0
Step S A = S → Option (A × S)

module _ {S : Type 0} where
  abbrev pub pure : {A : Type 0} → A → Step S A
  pure a s = some (a, s)

  abbrev pub fault : {A : Type 0} → Step S A
  fault s = none

  infixl 5 ◌>>=◌ ◌>>◌
  abbrev pub ◌>>=◌ : {A B : Type 0} → Step S A → (A → Step S B) → Step S B
  ◌>>=◌ m k s = elim (m s) [ none ↦ none | some (a, s') ↦ k a s' ]

  abbrev pub ◌>>◌ : {B : Type 0} → Step S (Unit {0}) → Step S B → Step S B
  m >> k = m >>= λ _. k
