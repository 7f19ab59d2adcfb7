-- ===== src/Prelude/Tables.antt =====
-- A Boolean test over a small range of numbers, checked at each of them.
use Prim.Native.Nat.{ℕ, zero, suc, ◌<◌}
use mathlib.Core.Path.{◌≡◌}
use mathlib.Core.Bool.{Bool, true, ◌&&◌}
use native.Mathlib.Omega.{arith}

module _ (test : ℕ → Bool) where
  unfoldable pub passes_below : ℕ → Bool
  passes_below zero = true
  passes_below (suc bound) = passes_below bound && test bound

  pub passes_below_sound :
      (bound : ℕ) {i : ℕ} → passes_below bound ≡ true → i < bound → test i ≡ true
  unfolding passes_below
  passes_below_sound zero table below = absurd (omega arith)
  passes_below_sound (suc bound) {i} table below = ground (arith, passes_below_sound bound {i = i})
