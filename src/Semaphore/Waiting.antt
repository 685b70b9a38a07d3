-- ===== src/Semaphore/Waiting.antt =====
-- What the semaphore of kernel/semaphore.h promises, on lists, and when a world shows such lists.
use kernel_development_with.Prelude.{
  ℕ, ◌+◌, ◌-◌, ◌≡◌, ◌≢◌, ◌⊎◌, true, List, [], ◌∷◌, ◌++◌, Apart, Disjoint, if◌then◌else◌, ltb,
}
use kernel_development_with.Prelude.Outcome.{ok, panic, spinning}
use kernel_development_with.Queue.Chain.{Holds}
use kernel_development_with.Threads.{Threads, returned, switched, again}
use kernel_development_with.Threads.View.{Shows, AllBusy}
use kernel_development_with.Semaphore.{World, waiting_state, Down, passed, blocked, down, up}

-- The thread that the core runs, the ready and the waiting threads, and the count.
pub record View : Type 0 where
  pub running : ℕ
  pub ready : List ℕ
  pub waiting : List ℕ
  pub count : ℕ

pub data Call : Type 0 where
  downs ups : Call

-- The next thread of a core whose thread blocks, `idle` if none is ready.
abbrev pub spec_block : ℕ → View → List ℕ → View
spec_block idle v [] = record v {
  running = idle;
  ready = [];
  waiting = v.waiting ++ v.running ∷ [];
}
spec_block idle v (x ∷ xs) = record v {
  running = x;
  ready = xs;
  waiting = v.waiting ++ v.running ∷ [];
}

abbrev pub spec_up : View → List ℕ → View
spec_up v [] = record v { waiting = []; count = v.count + 1 }
spec_up v (x ∷ xs) = record v { waiting = xs; ready = v.ready ++ x ∷ [] }

abbrev pub spec_step : ℕ → View → Call → View
spec_step idle v downs =
    if ltb 0 v.count then record v { count = v.count - 1 } else spec_block idle v v.ready
spec_step idle v ups = spec_up v v.waiting

-- The world after a call; it stays as it is when the action of `down` panics.
abbrev pub world_after : World → Down → World
world_after w (passed u) = u
world_after w (blocked (returned m)) = record w { machine = m }
world_after w (blocked (switched (ok u))) = u
world_after w (blocked (switched panic)) = w
world_after w (blocked (switched spinning)) = w
world_after w (blocked (again m)) = record w { machine = m }

abbrev pub step : Threads → ℕ → World → Call → World
step threads core w downs = world_after w (down threads core w)
step threads core w ups = up threads w

-- The running thread is in no queue.
abbrev pub Outside : ℕ → List ℕ → List ℕ → List ℕ → Type 0
Outside t ready waiting zombies = (t ≢ 0) × Apart t ready × Apart t waiting × Apart t zombies

-- The world shows the view: the queues hold its lists, without a thread in two of them, nobody
-- waits while the count is positive, and the running thread is idle or outside the queues.
pub record Stands (threads : Threads) (core : ℕ) (zombies : List ℕ) (w : World) (v : View)
    : Type 0 where
  pub shows : Shows w.machine v.ready zombies
  pub waits : Holds (waiting_state w) v.waiting
  pub ready_apart : Disjoint v.ready v.waiting
  pub zombies_apart : Disjoint zombies v.waiting
  pub ready_busy : AllBusy threads v.ready
  pub waiting_busy : AllBusy threads v.waiting
  pub counts : w.sem.count ≡ v.count
  pub no_waste : (v.waiting ≡ []) ⊎ (v.count ≡ 0)
  pub runs : w.machine.active core ≡ v.running
  pub own : (threads.is_idle v.running ≡ true) ⊎ Outside v.running v.ready v.waiting zombies
