-- ===== src/Prelude/Loops.antt =====
-- Counted loops, and writes to a memory.
use Prim.Native.Nat.{ℕ, zero, suc, ◌+◌, ◌<◌}
use mathlib.Core.Path.{◌≡◌}
use native.Mathlib.Omega.{arith}
use netclover.Prelude.Tests.{◌==◌, if◌then◌else◌}

-- `for (k = start; k < start + rounds; k++) state = body k state`.
module _ {ℓ} {State : Type ℓ} (body : ℕ → State → State) where
  unfoldable pub count_up : ℕ → ℕ → State → State
  count_up zero start state = state
  count_up (suc rounds) start state = count_up rounds (start + 1) (body start state)

  -- A property indexed by the counter that every round carries on holds at the end.
  pub count_up_inv {κ} :
      (P : ℕ → State → Type κ) (last : ℕ)
      → ((k : ℕ) (state : State) → k < last → P k state → P (k + 1) (body k state))
      → (rounds start : ℕ) (state : State) → start + rounds ≡ last
      → P start state
      → P last (count_up rounds start state)
  unfolding count_up
  count_up_inv P last carry zero start state e h =
      let stop : last ≡ start = omega arith in rw stop h
  count_up_inv P last carry (suc rounds) start state e h =
      count_up_inv P last carry rounds (start + 1) (body start state) (omega arith)
        (carry start state (omega arith) h)

-- A memory is a function from addresses to bytes.
abbrev pub store : (ℕ → ℕ) → ℕ → ℕ → ℕ → ℕ
store m p v q = if p == q then v else m q
