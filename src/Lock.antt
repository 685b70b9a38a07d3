-- ===== src/Lock.antt =====
-- kernel/atomic.h: InterruptSafeLock, used by any number of cores. One step of a core is one access
-- of the lock's two fields or one change of the core's interrupt flag, so a list of cores is an
-- interleaving. Atomic and Interrupts are the atomic accesses and the flag.
pub mod Owner
pub mod Exclusion
mod Tests
use kernel_development_with.Prelude.{ℕ, Bool, true, false, ◌==◌, List, [], ◌∷◌}
use kernel_development_with.Threads.{put}

-- Where a core is in lock() and unlock(): `waiting` is in the loop of lock(), between two attempts,
-- with its interrupts as they were. The phases after it keep the value of `wasDisabled`. `inside`,
-- `leaving` and `released` also keep, for the statements, what lock() of this core had found.
pub data Phase : Type 0 where
  outside : Phase
  waiting : Phase
  trying : Bool → Phase
  retrying : Bool → Phase
  won : Bool → Phase
  inside : Bool → Phase
  leaving : Bool → Bool → Phase
  released : Bool → Bool → Phase

-- The lock's `taken` and `was`, and for each core its phase and whether its interrupts are disabled.
pub record System : Type 0 where
  pub taken : Bool
  pub was : Bool
  pub phase : ℕ → Phase
  pub disabled : ℕ → Bool

abbrev pub goes : System → ℕ → Phase → System
goes s core p = record s { phase = put s.phase core p }

-- Interrupts::disable()
abbrev pub disable : System → ℕ → System
disable s core = record s { disabled = put s.disabled core true }

-- Interrupts::restore(wasDisabled)
abbrev pub restore : System → ℕ → Bool → System
restore s core true = s
restore s core false = record s { disabled = put s.disabled core false }

-- taken.exchange(true): the phase after it depends on what was there.
abbrev pub exchanged : Bool → System → ℕ → Bool → System
exchanged true s core w = goes s core (retrying w)
exchanged false s core w = goes (record s { taken = true }) core (won w)

abbrev pub exchange : System → ℕ → Bool → System
exchange s core w = exchanged s.taken s core w

-- The next access of a core that is in a phase.
unfoldable pub step_in : Phase → System → ℕ → System
step_in outside s core = goes (disable s core) core (trying (s.disabled core))
step_in waiting s core = goes (disable s core) core (trying (s.disabled core))
step_in (trying w) s core = exchange s core w
step_in (retrying w) s core = goes (restore s core w) core waiting
step_in (won w) s core = goes (record s { was = w }) core (inside w)
step_in (inside w) s core = goes s core (leaving s.was w)
step_in (leaving v w) s core = goes (record s { taken = false }) core (released v w)
step_in (released v w) s core = goes (restore s core v) core outside

unfoldable pub step : System → ℕ → System
step s core = step_in (s.phase core) s core

-- An interleaving, as the core of each step.
unfoldable pub run : System → List ℕ → System
run s [] = s
run s (core ∷ cores) = run (step s core) cores

-- InterruptSafeLock(): free, with all cores outside.
abbrev pub free_lock : (ℕ → Bool) → System
free_lock flags = record { taken = false; was = false; phase = λ core. outside; disabled = flags }
