-- ===== src/Semaphore/Tests.antt =====
-- Tests of kernel/semaphore.h, and its theorems at the machine of the scheduler's tests and a
-- semaphore that starts at 1, as a `BlockingLock` does.
use kernel_development_with.Prelude.{
  ℕ, ◌+◌, ◌≡◌, refl, ◌⊎◌, inl, inr, false, ◌==◌, List, [], ◌∷◌, arith, if◌then◌else◌, length,
}
use kernel_development_with.Queue
use kernel_development_with.Queue.Chain.{Holds}
use kernel_development_with.Threads.{Threads, schedule, block}
use kernel_development_with.Semaphore.{World, make, waiting_state, down, up}
use kernel_development_with.Semaphore.Waiting.{View, downs, ups, step, spec_step, Stands}
use kernel_development_with.Semaphore.Calls.{step-refines}
use kernel_development_with.Semaphore.Balance.{calls_after, calls-balance}

abbrev threads : Threads
threads = record {
  is_idle = λ t. t == 8;
  interrupt_esp = λ t. t + 4;
  cr3 = λ t. 4096;
  idle_threads = λ c. 8;
}

abbrev world : World
world = record {
  machine = record {
    links = λ t. if t == 32 then 48 else 0;
    ready = record { first = 32; last = 48 };
    zombies = Queue.empty;
    no_preempt = λ t. false;
    active = λ c. 16;
    esp0 = λ c. 0;
    page_directory = λ c. 0;
    jiffies = 7;
  };
  sem = make 1;
}

abbrev view : View
view = record { running = 16; ready = 32 ∷ 48 ∷ []; waiting = []; count = 1 }

world-Stands : Stands threads 0 [] world view
world-Stands = record {
  shows = record {
    ready_holds = record { chain = omega arith; ends = refl; distinct = omega arith };
    zombie_holds = record { chain = refl; ends = refl; distinct = tt };
    apart = omega arith;
  };
  waits = record { chain = refl; ends = refl; distinct = tt };
  ready_apart = omega arith;
  zombies_apart = tt;
  ready_busy = (refl, (refl, tt));
  waiting_busy = tt;
  counts = refl;
  no_waste = inl refl;
  runs = refl;
  own = inr (omega arith);
}

-- Thread 16 passes, blocks on the second call, and thread 32 lets it in again.
calls_test : (calls_after threads 0 world (downs ∷ downs ∷ ups ∷ [])).machine.ready.last ≡ 16
unfolding down up block schedule Queue.add Queue.remove
calls_test = refl

step-refines_example : Stands threads 0 [] (step threads 0 world downs) (spec_step 8 view downs)
step-refines_example =
    step-refines threads 0 [] world view downs world-Stands refl (λ e. refl) (omega arith)

calls-balance_example :
    let u = calls_after threads 0 world (downs ∷ downs ∷ ups ∷ []) in
    (ws : List ℕ) × Holds (waiting_state u) ws
    × (u.sem.count + 0 + 2 ≡ 1 + length ws + 1)
    × ((ws ≡ []) ⊎ (u.sem.count ≡ 0))
calls-balance_example =
    calls-balance threads 0 [] world view (downs ∷ downs ∷ ups ∷ []) world-Stands refl
      ((λ e. refl), ((λ e. refl), ((λ e. refl), tt))) (omega arith)
