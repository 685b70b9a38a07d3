-- ===== src/Threads/Fair.antt =====
-- `yield`, `stop` and the timer of kernel/threads.cc and kernel/pit.cc on a core that runs a
-- thread: who runs next, and what is lost if nobody is ready.
use kernel_development_with.Prelude.{
  ℕ, zero, suc, ◌≡◌, ◌≢◌, refl, true, false, List, [], ◌∷◌, ◌++◌, arith, Apart-snoc, length,
  append_assoc, ◌<◌, subst, ne→==, Disjoint-tail,
}
use kernel_development_with.Threads.{
  Threads, Machine, must_block, can_return, returned, switched, after, put, schedule, switch_to,
  nothing_ready, yield_core, bury, stop, timer, delete_zombies, zombie_state, set_zombies,
}
use kernel_development_with.Queue
use kernel_development_with.Queue.Fifo.{remove-Holds, remove-empty}
use kernel_development_with.Threads.View.{Shows, Runs, AllBusy-snoc}
use kernel_development_with.Threads.Block.{
  dispatched, block-ready, block-empty, schedule-Shows, bury-Shows, taken-Shows, schedule-active,
  schedule-no_preempt, bury-active,
}

-- Taking out the first zombie leaves the others.
buried-Shows :
    (m : Machine) (xs : List ℕ) (z : ℕ) (zs : List ℕ)
    → Shows m xs (z ∷ zs)
    → Shows (set_zombies m (Queue.remove (zombie_state m)).1) xs zs
buried-Shows m xs z zs s = record {
  ready_holds = rw (Queue.remove-links (zombie_state m)) s.ready_holds;
  zombie_holds = (remove-Holds (zombie_state m) z zs s.zombie_holds).1;
  apart = Disjoint-tail xs z zs s.apart;
}

module _ (threads : Threads) where
  open threads use {is_idle, idle_threads}

  yield_core-ready :
      (core : ℕ) (m : Machine) (x : ℕ) (xs zs : List ℕ)
      → Shows m (x ∷ xs) zs
      → yield_core threads core m
        ≡ switched (schedule threads (dispatched threads core x m) (m.active core))
  unfolding yield_core switch_to
  yield_core-ready core m x xs zs s =
      rw (block-ready threads can_return (schedule threads) core m x xs s.ready_holds)

  -- On a core that runs a thread t, with x first among the ready threads, yield runs x and puts t
  -- behind the ready threads; the threads of the other cores stay, and t can be preempted again.
  pub yield-rotates :
      (core : ℕ) (m : Machine) (x : ℕ) (xs zs : List ℕ)
      → Runs threads core m (x ∷ xs) zs
      → let n = after (yield_core threads core m) in
        (n.active core ≡ x)
        × Runs threads core n (xs ++ m.active core ∷ []) zs
        × (n.no_preempt (m.active core) ≡ false)
        × ((c : ℕ) → c ≢ core → n.active c ≡ m.active c)
  yield-rotates core m x xs zs r = rw (yield_core-ready core m x xs zs r.shows) (
    rw (schedule-active threads (dispatched threads core x m) (m.active core)) (ground arith),
    rotated,
    rw (schedule-no_preempt threads (dispatched threads core x m) (m.active core)) (ground arith),
    λ c e.
        rw (schedule-active threads (dispatched threads core x m) (m.active core)) (ground arith),
  )
    where
      d : Machine
      d = dispatched threads core x m

      s : Shows d xs zs
      s =
          let t = taken-Shows threads core m x xs zs r.shows in
          record { ready_holds = t.ready_holds; zombie_holds = t.zombie_holds; apart = t.apart }

      rotated : Runs threads core (schedule threads d (m.active core)) (xs ++ m.active core ∷ []) zs
      rotated = record {
        shows =
            schedule-Shows threads d xs zs (m.active core) s r.busy r.present r.not_ready.1
              r.not_zombie;
        present =
            rw (schedule-active threads d (m.active core))
              (ground (arith, r.shows.ready_holds.chain));
        busy = rw (schedule-active threads d (m.active core)) (ground (arith, r.ready_busy));
        not_ready =
            rw (schedule-active threads d (m.active core))
              (ground (arith, Apart-snoc x (m.active core) xs r.shows.ready_holds.distinct.0));
        not_zombie = rw (schedule-active threads d (m.active core)) (ground (arith, r.shows.apart));
        ready_busy = AllBusy-snoc threads xs (m.active core) r.ready_busy.1 r.busy;
      }

  -- `k` calls of `yield` in a row, by whatever thread the core runs then.
  abbrev pub yields : ℕ → ℕ → Machine → Machine
  yields zero core m = m
  yields (suc k) core m = yields k core (after (yield_core threads core m))

  -- Round robin: on a core that runs a thread, with some threads before t in the ready queue, the
  -- core runs t after one yield more than they are.
  pub yields-reach :
      (core : ℕ) (m : Machine) (xs : List ℕ) (t : ℕ) (ys zs : List ℕ)
      → Runs threads core m (xs ++ t ∷ ys) zs
      → (yields (suc (length xs)) core m).active core ≡ t
  yields-reach core m [] t ys zs r = (yield-rotates core m t ys zs r).0
  yields-reach core m (x ∷ xs) t ys zs r =
      yields-reach core (after (yield_core threads core m)) xs t (ys ++ m.active core ∷ []) zs (
        subst (λ l. Runs threads core (after (yield_core threads core m)) l zs)
          (append_assoc xs (t ∷ ys) (m.active core ∷ []))
          (yield-rotates core m x (xs ++ t ∷ ys) zs r).1)

  -- With no ready thread, `yield` returns at once, and all that it changes is that its thread can
  -- no longer be preempted.
  pub yield-alone :
      (core : ℕ) (m : Machine) (zs : List ℕ)
      → Shows m [] zs
      → yield_core threads core m
        ≡ returned (record m { no_preempt = put m.no_preempt (m.active core) true })
  unfolding yield_core nothing_ready
  yield-alone core m zs s = block-empty threads can_return (schedule threads) core m s.ready_holds

  -- The timer switches no thread that must not be preempted.
  timer-held :
      (core : ℕ) (m : Machine)
      → m.no_preempt (m.active core) ≡ true
      → ((timer threads core m).active ≡ m.active) × ((timer threads core m).ready ≡ m.ready)
  unfolding timer
  timer-held core m h = ground arith

  -- A thread whose yield finds nobody ready is not preempted afterwards: a timer interrupt that
  -- comes when another thread has been made ready leaves the running and the ready threads as
  -- they are.
  pub timer-yield_alone :
      (core : ℕ) (m : Machine) (zs : List ℕ) (t : ℕ)
      → Shows m [] zs
      → let n = schedule threads (after (yield_core threads core m)) t in
        ((timer threads core n).active ≡ n.active) × ((timer threads core n).ready ≡ n.ready)
  timer-yield_alone core m zs t s =
      timer-held core (schedule threads (after (yield_core threads core m)) t) (
        rw (yield-alone core m zs s, schedule-active threads _ t, schedule-no_preempt threads _ t)
          (ground arith))

  stop-ready :
      (core : ℕ) (m : Machine) (x : ℕ) (xs zs : List ℕ)
      → Shows m (x ∷ xs) zs
      → stop threads core m ≡ switched (bury threads (dispatched threads core x m) (m.active core))
  unfolding stop switch_to
  stop-ready core m x xs zs s =
      rw (block-ready threads must_block (bury threads) core m x xs s.ready_holds)

  -- stop on a core that runs a thread t, with x first among the ready threads, runs x and puts t
  -- behind the zombies.
  pub stop-buries :
      (core : ℕ) (m : Machine) (x : ℕ) (xs zs : List ℕ)
      → Runs threads core m (x ∷ xs) zs
      → let n = after (stop threads core m) in
        (n.active core ≡ x) × Shows n xs (zs ++ m.active core ∷ [])
  stop-buries core m x xs zs r = rw (stop-ready core m x xs zs r.shows) (
    rw (bury-active threads (dispatched threads core x m) (m.active core)) (ground arith),
    bury-Shows threads (dispatched threads core x m) xs zs (m.active core) s r.busy r.present
        r.not_ready.1 r.not_zombie,
  )
    where
      s : Shows (dispatched threads core x m) xs zs
      s =
          let t = taken-Shows threads core m x xs zs r.shows in
          record { ready_holds = t.ready_holds; zombie_holds = t.zombie_holds; apart = t.apart }

-- delete_zombies deletes every zombie and returns: with fuel above their number it has deleted
-- them all, the zombie queue is empty and the ready threads are as before.
pub delete_zombies-all :
    (fuel : ℕ) (m : Machine) (xs zs : List ℕ)
    → Shows m xs zs
    → length zs < fuel
    → ((delete_zombies fuel m).0 ≡ length zs) × Shows (delete_zombies fuel m).1 xs []
unfolding delete_zombies
delete_zombies-all zero m xs zs s h = elim h [ ]
delete_zombies-all (suc fuel) m xs [] s h =
    rw (remove-empty (zombie_state m) s.zombie_holds) (refl, s)
delete_zombies-all (suc fuel) m xs (z ∷ zs) s h =
    let r = remove-Holds (zombie_state m) z zs s.zombie_holds in
    let ih =
      delete_zombies-all fuel (set_zombies m (Queue.remove (zombie_state m)).1) xs zs
        (buried-Shows m xs z zs s) (omega arith) in
    rw (r.0, ne→== z 0 s.zombie_holds.chain.1) (omega (arith, ih.0), ih.1)
