-- ===== src/Lock/Tests.antt =====
-- Two cores at the InterruptSafeLock of kernel/atomic.h: core 0 takes it, core 1 tries in vain, and
-- takes it when core 0 has released it.
use kernel_development_with.Prelude.{ℕ, ◌≡◌, refl, arith, Bool, true, false, ◌==◌, List, [], ◌∷◌}
use kernel_development_with.Lock.{inside, waiting, step_in, step, run, free_lock}
use kernel_development_with.Lock.Owner.{has_lock}
use kernel_development_with.Lock.Exclusion.{flag_in, run-exclusive, run-flag}

-- Core 0 runs with interrupts enabled, the others with interrupts disabled.
abbrev flags : ℕ → Bool
flags core = if_zero (core == 0)
  where
    if_zero : Bool → Bool
    if_zero true = false
    if_zero false = true

abbrev first : List ℕ
first = 0 ∷ 1 ∷ 0 ∷ 1 ∷ 1 ∷ 0 ∷ []

abbrev second : List ℕ
second = 0 ∷ 1 ∷ 0 ∷ 1 ∷ 1 ∷ 0 ∷ 0 ∷ 0 ∷ 0 ∷ 1 ∷ 1 ∷ 1 ∷ []

first_test : (run (free_lock flags) first).phase 0 ≡ inside false
unfolding run step step_in
first_test = refl

waiting_test : (run (free_lock flags) first).phase 1 ≡ waiting
unfolding run step step_in
waiting_test = refl

second_test : (run (free_lock flags) second).phase 1 ≡ inside true
unfolding run step step_in
second_test = refl

run-exclusive_example : has_lock ((run (free_lock flags) second).phase 0) ≡ false
unfolding run step step_in
run-exclusive_example = run-exclusive flags second 1 0 refl (omega arith)

run-flag_example :
    (run (free_lock flags) second).disabled 0
    ≡ flag_in false ((run (free_lock flags) second).phase 0)
run-flag_example = run-flag flags second 0
