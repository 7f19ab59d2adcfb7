-- ===== src/Kernel/Interrupts/Vectors.antt =====
-- Which vectors `initIDT` gives a gate.
use netclover.Prelude.{
  ℕ, zero, suc, ◌<◌, ◌≡◌, refl, sym, arith, Bool, true, false, ◌||◌, Option, some, List, [], ◌∷◌,
  ◌++◌, get_elem?, replicate, ◌&&◌, ◌==◌, if◌then◌else◌, All, ltb,
}
use netclover.Prelude.Tables.{passes_below, passes_below_sound}
use netclover.Kernel.Interrupts.{exceptions, irqs, system_calls}

abbrev pub is_one_of : ℕ → List ℕ → Bool
is_one_of n [] = false
is_one_of n (k ∷ ks) = (k == n) || is_one_of n ks

-- The vectors with a gate.
abbrev pub has_gate : ℕ → Bool
has_gate n = ltb n 48 || (n == 127) || (n == 128)

abbrev pub vectors : List ℕ
vectors = exceptions ++ (irqs ++ system_calls)

unfoldable pub all_below : ℕ → List ℕ → Bool
all_below bound [] = true
all_below bound (n ∷ ns) = ltb n bound && all_below bound ns

pub All-all_below : (bound : ℕ) (ns : List ℕ) → all_below bound ns ≡ true → All (λ k. k < bound) ns
unfolding all_below
All-all_below bound [] e = tt
All-all_below bound (n ∷ ns) e = (ground arith, All-all_below bound ns (ground arith))

pub get_elem?-replicate :
    {A : Type 0} (n i : ℕ) (a : A) → i < n → get_elem? (replicate n a) i ≡ some a
get_elem?-replicate zero i a h = absurd (omega arith)
get_elem?-replicate (suc n) zero a h = refl
get_elem?-replicate (suc n) (suc i) a h = get_elem?-replicate n i a (omega arith)

abbrev listed : ℕ → Bool
listed n = if is_one_of n vectors then has_gate n else (if has_gate n then false else true)

same_test : (a b : Bool) → (if a then b else (if b then false else true)) ≡ true → a ≡ b
same_test true b e = ground (arith, e)
same_test false true e = ground (arith, e)
same_test false false e = refl

pub is_one_of-vectors : (n : ℕ) → n < 256 → is_one_of n vectors ≡ has_gate n
unfolding passes_below
is_one_of-vectors n small =
    same_test (is_one_of n vectors) (has_gate n) (passes_below_sound listed 256 {i = n} refl small)

pub picked :
    {A : Type 0} {o : Option A} (a b : Bool) (x y : A)
    → a ≡ b
    → o ≡ some y
    → (if a then some x else o) ≡ some (if b then x else y)
picked true b x y e _ = rw (sym e) refl
picked false b x y e there = rw (sym e) there
