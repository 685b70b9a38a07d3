-- ===== src/Threads/Tests.antt =====
-- Tests of the scheduler of kernel/threads.cc, and its theorems at a machine whose core 0 runs
-- thread 16, with 32 and 48 ready, 64 a zombie, and 8 the idle thread.
use kernel_development_with.Prelude.{◌+◌, ◌≡◌, refl, false, ◌==◌, [], ◌∷◌, arith, if◌then◌else◌}
use kernel_development_with.Queue
use kernel_development_with.Threads.{
  Threads, Machine, after, schedule, yield_core, timer, delete_zombies,
}
use kernel_development_with.Threads.View.{Shows, Runs}
use kernel_development_with.Threads.Fair.{
  yields, yields-reach, timer-yield_alone, delete_zombies-all,
}

abbrev pub threads : Threads
threads = record {
  is_idle = λ t. t == 8;
  interrupt_esp = λ t. t + 4;
  cr3 = λ t. 4096;
  idle_threads = λ c. 8;
}

abbrev pub busy : Machine
busy = record {
  links = λ t. if t == 32 then 48 else 0;
  ready = record { first = 32; last = 48 };
  zombies = record { first = 64; last = 64 };
  no_preempt = λ t. false;
  active = λ c. 16;
  esp0 = λ c. 0;
  page_directory = λ c. 0;
  jiffies = 7;
}

abbrev lonely : Machine
lonely = record busy { ready = Queue.empty }

pub busy-Shows : Shows busy (32 ∷ 48 ∷ []) (64 ∷ [])
busy-Shows = record {
  ready_holds = record { chain = omega arith; ends = refl; distinct = omega arith };
  zombie_holds = record { chain = omega arith; ends = refl; distinct = omega arith };
  apart = omega arith;
}

busy-Runs : Runs threads 0 busy (32 ∷ 48 ∷ []) (64 ∷ [])
busy-Runs = record {
  shows = busy-Shows;
  present = omega arith;
  busy = refl;
  not_ready = omega arith;
  not_zombie = omega arith;
  ready_busy = (refl, (refl, tt));
}

lonely-Shows : Shows lonely [] (64 ∷ [])
lonely-Shows = record {
  ready_holds = record { chain = refl; ends = refl; distinct = tt };
  zombie_holds = record { chain = omega arith; ends = refl; distinct = omega arith };
  apart = tt;
}

yield_test : (after (yield_core threads 0 busy)).ready.last ≡ 16
unfolding yield_core schedule Queue.add Queue.remove
yield_test = refl

yields-reach_example : (yields threads 2 0 busy).active 0 ≡ 48
yields-reach_example = yields-reach threads 0 busy (32 ∷ []) 48 [] (64 ∷ []) busy-Runs

timer-yield_alone_example :
    let n = schedule threads (after (yield_core threads 0 lonely)) 32 in
    ((timer threads 0 n).active ≡ n.active) × ((timer threads 0 n).ready ≡ n.ready)
timer-yield_alone_example = timer-yield_alone threads 0 lonely (64 ∷ []) 32 lonely-Shows

delete_zombies-all_example :
    ((delete_zombies 2 busy).0 ≡ 1) × Shows (delete_zombies 2 busy).1 (32 ∷ 48 ∷ []) []
delete_zombies-all_example =
    delete_zombies-all 2 busy (32 ∷ 48 ∷ []) (64 ∷ []) busy-Shows (omega arith)
