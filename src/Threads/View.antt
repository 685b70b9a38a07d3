-- ===== src/Threads/View.antt =====
-- What the queues of a machine of kernel/threads.cc hold, and what a core runs.
use kernel_development_with.Prelude.{ℕ, ◌≡◌, ◌≢◌, false, List, [], ◌∷◌, ◌++◌, Disjoint, Apart}
use kernel_development_with.Queue.Chain.{Holds}
use kernel_development_with.Threads.{Threads, Machine, ready_state, zombie_state}

-- The ready threads and the zombies, oldest first; no thread is in both queues.
pub record Shows (m : Machine) (ready zombies : List ℕ) : Type 0 where
  pub ready_holds : Holds (ready_state m) ready
  pub zombie_holds : Holds (zombie_state m) zombies
  pub apart : Disjoint ready zombies

abbrev pub AllBusy : Threads → List ℕ → Type 0
AllBusy threads [] = Unit {0}
AllBusy threads (x ∷ xs) = (threads.is_idle x ≡ false) × AllBusy threads xs

-- The core runs a thread that is not idle and is in no queue; no idle thread is queued.
pub record Runs (threads : Threads) (core : ℕ) (m : Machine) (ready zombies : List ℕ) : Type 0 where
  pub shows : Shows m ready zombies
  pub present : m.active core ≢ 0
  pub busy : threads.is_idle (m.active core) ≡ false
  pub not_ready : Apart (m.active core) ready
  pub not_zombie : Apart (m.active core) zombies
  pub ready_busy : AllBusy threads ready

pub AllBusy-snoc :
    (threads : Threads) (xs : List ℕ) (t : ℕ)
    → AllBusy threads xs
    → threads.is_idle t ≡ false
    → AllBusy threads (xs ++ t ∷ [])
AllBusy-snoc threads [] t b h = (h, tt)
AllBusy-snoc threads (x ∷ xs) t b h = (b.0, AllBusy-snoc threads xs t b.1 h)
