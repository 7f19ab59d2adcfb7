-- ===== src/Kernel/Interrupts/Dispatch.antt =====
-- Which routine an interrupt of the controllers runs, after any changes of the table of routines.
use netclover.Prelude.{
  ℕ, zero, suc, ◌+◌, ◌-◌, ◌^◌, ◌<◌, ◌≡◌, ◌∙◌, inl, inr, refl, ap, arith, true, false, Option, none,
  some, List, [], ◌∷◌, ◌++◌, get_elem?, get_or, set, length, length-set, Bool-cases, ◌==◌,
  if◌then◌else◌, u64, All, leb, ltb,
}
use netclover.Prelude.Steps.{Step, pure, ◌>>=◌, ◌>>◌}
use netclover.Libc.Console.{outb}
use netclover.Kernel.Gates.{InterruptRegisters}
use netclover.Kernel.Machine.{Routine, Machine, with_console, write_port}
use netclover.Kernel.Interrupts.{
  irq_install_handler, irq_uninstall_handler, irq_handler, end_of_interrupt, now_routine,
  run_routine,
}

pub data Change : Type 0 where
  installs : ℕ → Routine → Change
  uninstalls : ℕ → Change

abbrev pub line : Change → ℕ
line (installs irq handler) = irq
line (uninstalls irq) = irq

abbrev pub installed : Change → Option Routine
installed (installs irq handler) = some handler
installed (uninstalls irq) = none

-- The routine of an IRQ is that of the last change of this IRQ, or what it was before.
abbrev pub routine_after : (ℕ → Option Routine) → List Change → ℕ → Option Routine
routine_after before [] irq = before irq
routine_after before (change ∷ changes) irq =
    routine_after (λ i. if line change == i then installed change else before i) changes irq

-- The interrupt is acknowledged at the master, and before that at the slave if it comes from there.
abbrev pub acknowledged : ℕ → List (ℕ × ℕ)
acknowledged irq = if leb 8 irq then (0x20, 0x20) ∷ (0xA0, 0x20) ∷ [] else (0x20, 0x20) ∷ []

-- What a table holds for an IRQ.
abbrev pub table_of : List (Option Routine) → ℕ → Option Routine
table_of routines irq = get_or routines irq none

get_elem?-table_of :
    (routines : List (Option Routine)) (irq : ℕ)
    → irq < length routines
    → get_elem? routines irq ≡ some (table_of routines irq)
get_elem?-table_of [] irq h = absurd (omega arith)
get_elem?-table_of (r ∷ routines) zero h = refl
get_elem?-table_of (r ∷ routines) (suc irq) h = get_elem?-table_of routines irq (omega arith)

table_of-set :
    (routines : List (Option Routine)) (irq i : ℕ) (r : Option Routine)
    → irq < length routines
    → table_of (set routines irq r) i ≡ (if irq == i then r else table_of routines i)
table_of-set [] irq i r h = absurd (omega arith)
table_of-set (old ∷ routines) zero zero r h = refl
table_of-set (old ∷ routines) zero (suc i) r h =
    let differ : (0 == suc i) ≡ false = ground arith in rw differ refl
table_of-set (old ∷ routines) (suc irq) zero r h =
    let differ : (suc irq == 0) ≡ false = ground arith in rw differ refl
table_of-set (old ∷ routines) (suc irq) (suc i) r h =
    let same : (suc irq == suc i) ≡ (irq == i) = ground arith in
    rw same (table_of-set routines irq i r (omega arith))

-- Only what stood there for this IRQ counts.
routine_after-here :
    (before before' : ℕ → Option Routine) (changes : List Change) (irq : ℕ)
    → before irq ≡ before' irq
    → routine_after before changes irq ≡ routine_after before' changes irq
routine_after-here before before' [] irq e = e
routine_after-here before before' (change ∷ changes) irq e =
    routine_after-here (λ i. if line change == i then installed change else before i)
      (λ i. if line change == i then installed change else before' i) changes irq
      (ap (λ r. if line change == irq then installed change else r) e)

module _ {W : Type 0} where
  pub apply : Change → Step (Machine W) (Unit {0})
  apply (installs irq handler) = irq_install_handler irq handler
  apply (uninstalls irq) = irq_uninstall_handler irq

  pub apply_all : List Change → Step (Machine W) (Unit {0})
  apply_all [] = pure tt
  apply_all (change ∷ changes) = do apply change; apply_all changes

  abbrev pub with_routines : List (Option Routine) → Machine W → Machine W
  with_routines routines m = record m { irq_routines = routines }

  apply-set :
      (change : Change) (m : Machine W)
      → line change < 16
      → apply change m
        ≡ some (tt, with_routines (set m.irq_routines (line change) (installed change)) m)
  unfolding apply irq_install_handler irq_uninstall_handler
  apply-set (installs irq handler) m h =
      let inside : ltb irq 16 ≡ true = ground arith in rw inside refl
  apply-set (uninstalls irq) m h = let inside : ltb irq 16 ≡ true = ground arith in rw inside refl

  abbrev pub acknowledging : ℕ → Step (Machine W) (Unit {0})
  acknowledging irq m =
      some (tt, with_console (record m.console { ports = acknowledged irq ++ m.console.ports }) m)

  acknowledge : (irq : ℕ) (m : Machine W) → end_of_interrupt (32 + irq) m ≡ acknowledging irq m
  unfolding end_of_interrupt write_port outb
  acknowledge irq m = elim (Bool-cases (leb 8 irq)) [
    | inl slave ↦ let high : leb 40 (32 + irq) ≡ true = ground arith in rw (slave, high) refl
    | inr master ↦ let low : leb 40 (32 + irq) ≡ false = ground arith in rw (master, low) refl
  ]

  abbrev pub served :
      (Routine → InterruptRegisters → Step (Machine W) (Unit {0}))
      → Option Routine
      → ℕ
      → InterruptRegisters
      → Step (Machine W) (Unit {0})
  served call handler irq regs = do run_routine call handler regs; acknowledging irq

  apply_all-routines :
      (changes : List Change) (m : Machine W) (irq : ℕ)
      → All (λ c. line c < 16) changes
      → length m.irq_routines ≡ 16
      → irq < 16
      → (routines : List (Option Routine)) × (apply_all changes m
          ≡ some (tt, with_routines routines m))
        × (get_elem? routines irq ≡ some (routine_after (table_of m.irq_routines) changes irq))
  unfolding apply_all
  apply_all-routines [] m irq _ full inside =
      (m.irq_routines, refl, get_elem?-table_of m.irq_routines irq (omega arith))
  apply_all-routines (change ∷ changes) m irq (low, lows) full inside =
      let next = set m.irq_routines (line change) (installed change) in
      let full' : length next ≡ 16 =
        length-set m.irq_routines (line change) (installed change) ∙ full in
      let (routines, e, found) =
        apply_all-routines changes (with_routines next m) irq lows full' inside in
      let here = table_of-set m.irq_routines (line change) irq (installed change) (omega arith) in
      let same =
        routine_after-here (table_of next)
          (λ i. if line change == i then installed change else table_of m.irq_routines i) changes
          irq here in
      (routines, rw (◌>>=◌, apply-set change m low) e, found ∙ ap some same)

  module _ (call : Routine → InterruptRegisters → Step (Machine W) (Unit {0})) where
    pub irq_handler-found :
        (m : Machine W) (irq : ℕ) (regs : InterruptRegisters) (r : Option Routine)
        → irq < 16
        → regs.int_no ≡ 32 + irq
        → get_elem? m.irq_routines irq ≡ some r
        → irq_handler call regs m ≡ served call r irq regs m
    unfolding irq_handler now_routine
    irq_handler-found m irq regs r inside vector found =
        let index : u64 (regs.int_no + 2 ^ 64 - 32) ≡ irq = omega arith in
        let acked : end_of_interrupt {W = W} (32 + irq) ≡ acknowledging irq =
          λ i s. acknowledge irq s i in
        let ending : end_of_interrupt {W = W} regs.int_no ≡ acknowledging irq =
          ap (end_of_interrupt {W = W}) vector ∙ acked in
        rw (irq_handler, ◌>>=◌, now_routine, index, found)
          (ap (λ (k : Step (Machine W) (Unit {0})). (run_routine call r regs >> k) m) ending)

    -- Any installs and uninstalls of routines, each of one of the 16 IRQs, are all done. An interrupt with
    -- the vector of an IRQ then runs the routine of the last change of that IRQ, or the one of before
    -- them if there is none of it, with the interrupt's registers, or no routine if that is null; then
    -- it is acknowledged at the master, for an IRQ from 8 on at the slave first.
    pub irq_handler-served :
        (changes : List Change) (m : Machine W) (irq : ℕ) (regs : InterruptRegisters)
        → All (λ c. line c < 16) changes
        → length m.irq_routines ≡ 16
        → irq < 16
        → regs.int_no ≡ 32 + irq
        → (m' : Machine W) × (apply_all changes m ≡ some (tt, m'))
          × (irq_handler call regs m'
              ≡ served call (routine_after (table_of m.irq_routines) changes irq) irq regs m')
    irq_handler-served changes m irq regs low full inside vector =
        let (routines, e, found) = apply_all-routines changes m irq low full inside in
        (
          with_routines routines m,
          e,
          irq_handler-found (with_routines routines m) irq regs
              (routine_after (table_of m.irq_routines) changes irq) inside vector found,
        )
