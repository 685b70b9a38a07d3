-- ===== src/Semaphore.antt =====
-- kernel/semaphore.h: the counting semaphore. Each operation holds the semaphore's lock, with
-- interrupts off, from its first to its last access of the object; a thread that blocks enters
-- the waiting queue on the stack of the next thread, under the same lock. `BlockingLock`
-- (kernel/blocking_lock.h) is a semaphore that starts at 1.
pub mod Waiting
pub mod Calls
pub mod Balance
mod Tests
use kernel_development_with.Prelude.{ℕ, ◌+◌, ◌-◌, ◌%◌, ◌^◌, if◌then◌else◌, ◌==◌, ltb, not}
use kernel_development_with.Prelude.Outcome.{Outcome, ok, ◌>>◌, assert}
use kernel_development_with.Queue.{Queue, State}
use kernel_development_with.Queue
use kernel_development_with.Threads.{Threads, Machine, Pass, switched, must_block, block, schedule}

pub record Semaphore : Type 0 where
  pub count : ℕ
  pub waiting : Queue

-- The machine and the semaphore, which a blocking thread changes together.
pub record World : Type 0 where
  pub machine : Machine
  pub sem : Semaphore

-- Semaphore(const uint32_t count)
abbrev pub make : ℕ → Semaphore
make count = record { count = count; waiting = Queue.empty }

abbrev pub waiting_state : World → State
waiting_state w = record { links = w.machine.links; queue = w.sem.waiting }

abbrev pub set_waiting : World → State → World
set_waiting w s = record {
  machine = record w.machine { links = s.links };
  sem = record w.sem { waiting = s.queue };
}

-- waiting.add(me)
unfoldable pub enqueue : Semaphore → Machine → ℕ → World
enqueue sem m me =
    let w : World = record { machine = m; sem = sem } in
    set_waiting w (Queue.add (waiting_state w) me)

-- How a call of `down` goes on: it has passed, or it has blocked and another thread runs. When an
-- idle thread calls it, `block` makes another pass, or its action panics.
pub data Down : Type 0 where
  passed : World → Down
  blocked : Pass (Outcome World) → Down

module _ (threads : Threads) where
  -- The action that `down` gives to `block`.
  unfoldable pub wait_here : Semaphore → Machine → ℕ → Outcome World
  unfolding enqueue
  wait_here sem m me = assert (not (threads.is_idle me)) >> ok (enqueue sem m me)

  -- down()
  unfoldable pub down : ℕ → World → Down
  unfolding wait_here
  down core w =
      if ltb 0 w.sem.count
      then passed (record w { sem = record w.sem { count = w.sem.count - 1 } })
      else blocked (block threads must_block (wait_here w.sem) core w.machine)

  -- up()
  unfoldable pub up : World → World
  up w =
      let (next, s) = Queue.remove (waiting_state w) in
      if next == 0
      then record w { sem = record w.sem { count = (w.sem.count + 1) % 2 ^ 64 } }
      else record (set_waiting w s) { machine = schedule threads (set_waiting w s).machine next }
