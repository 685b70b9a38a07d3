-- ===== src/Future.antt =====
-- kernel/future.h: a future, set once and got by any number of threads. A step is one access of its
-- fields or one call on its semaphore `go`, which is its count; a list of moves is an interleaving.
pub mod Values
mod Tests
use kernel_development_with.Prelude.{ℕ, zero, suc, Bool, true, false, List, [], ◌∷◌, get_or, set}

-- Where a thread is in get().
pub data Phase (A : Type 0) : Type 0 where
  outside checks waits passes reads : Phase A
  got : A → Phase A

-- Where the thread that calls set(v) is.
pub data Setting : Type 0 where
  unset wrote ready finished panicked : Setting

-- Future: its fields.
pub record Future (A : Type 0) : Type 0 where
  pub go : ℕ
  pub is_ready : Bool
  pub t : A

pub record System (A : Type 0) : Type 0 where
  pub future : Future A
  pub setting : Setting
  pub phases : List (Phase A)

pub data Move : Type 0 where
  sets : Move
  gets : ℕ → Move

module _ {A : Type 0} where
  -- Future(), where `t` has any value.
  abbrev pub make : A → Future A
  make t = record { go = 0; is_ready = false; t = t }

  -- ASSERT(!isReady), and the write of `t`.
  abbrev pub asserted : Bool → A → Future A → Setting × Future A
  asserted true v f = (panicked, f)
  asserted false v f = (wrote, record f { t = v })

  -- The next access of set(v), by its only caller.
  unfoldable pub set_step : A → Setting → Future A → Setting × Future A
  set_step v unset f = asserted f.is_ready v f
  set_step v wrote f = (ready, record f { is_ready = true })
  set_step v ready f = (finished, record f { go = suc f.go })
  set_step v finished f = (finished, f)
  set_step v panicked f = (panicked, f)

  -- if (!isReady)
  abbrev pub checked : Bool → Phase A
  checked true = reads
  checked false = waits

  -- go.down(), which waits at 0.
  abbrev pub down : ℕ → Future A → Phase A × Future A
  down zero f = (waits, f)
  down (suc count) f = (passes, record f { go = count })

  -- The next access of get().
  unfoldable pub get_step : Phase A → Future A → Phase A × Future A
  get_step outside f = (checks, f)
  get_step checks f = (checked f.is_ready, f)
  get_step waits f = down f.go f
  get_step passes f = (reads, record f { go = suc f.go })
  get_step reads f = (got f.t, f)
  get_step (got x) f = (got x, f)

  abbrev pub after_set : List (Phase A) → Setting × Future A → System A
  after_set phases r = record { future = r.1; setting = r.0; phases = phases }

  abbrev pub after_get : Setting → List (Phase A) → ℕ → Phase A × Future A → System A
  after_get setting phases i r = record {
    future = r.1;
    setting = setting;
    phases = set phases i r.0;
  }

  unfoldable pub step : A → System A → Move → System A
  step v s sets = after_set s.phases (set_step v s.setting s.future)
  step v s (gets i) = after_get s.setting s.phases i (get_step (get_or s.phases i (got v)) s.future)

  unfoldable pub run : A → System A → List Move → System A
  run v s [] = s
  run v s (m ∷ ms) = run v (step v s m) ms

  abbrev pub outsiders : ℕ → List (Phase A)
  outsiders zero = []
  outsiders (suc threads) = outside ∷ outsiders threads

  abbrev pub start : ℕ → A → System A
  start threads t = record { future = make t; setting = unset; phases = outsiders threads }
