-- ===== src/Threads/Block.antt =====
-- `block`, `yield` and `stop` of kernel/threads.h and kernel/threads.cc: which thread runs next.
use kernel_development_with.Prelude.{
  ℕ, ◌≡◌, ◌≢◌, true, false, List, [], ◌∷◌, ◌++◌, arith, Apart, Disjoint, Disjoint-snoc,
  snoc-Disjoint, Disjoint-symm, Bool-cases, inl, inr,
}
use kernel_development_with.Queue.{Queue, State}
use kernel_development_with.Queue
use kernel_development_with.Queue.Chain.{Holds}
use kernel_development_with.Queue.Fifo.{add-Holds, remove-Holds, remove-empty}
use kernel_development_with.Queue.Frame.{add-beside, beside}
use kernel_development_with.Threads.{
  Threads, Machine, BlockOption, switched, put, ready_state, zombie_state, set_ready, schedule,
  switch_to, block, nothing_ready, bury,
}
use kernel_development_with.Threads.View.{Shows}

-- The machine in which `block` leaves the ready queue before it switches.
abbrev pub taken : ℕ → Machine → Machine
taken core m =
    set_ready (record m { no_preempt = put m.no_preempt (m.active core) true })
      (Queue.remove (ready_state m)).1

module _ (threads : Threads) where
  open threads use {is_idle, idle_threads}

  -- The machine on which the action of a switch to `x` runs.
  abbrev pub dispatched : ℕ → ℕ → Machine → Machine
  dispatched core x m = record (taken core m) {
    no_preempt = put (put (put (taken core m).no_preempt x true) (m.active core) false) x false;
    active = put m.active core x;
    esp0 = put m.esp0 core (threads.interrupt_esp x);
    page_directory = put m.page_directory core (threads.cr3 x);
  }

  pub block-ready :
      {R : Type 0} (option : BlockOption) (action : Machine → ℕ → R) (core : ℕ) (m : Machine)
      (x : ℕ) (xs : List ℕ)
      → Holds (ready_state m) (x ∷ xs)
      → block threads option action core m
        ≡ switched (switch_to threads core (m.active core) x action (taken core m))
  unfolding block
  block-ready option action core m x xs h =
      let r = remove-Holds (ready_state m) x xs h in ground (arith, r.0, h.chain)

  pub block-empty :
      {R : Type 0} (option : BlockOption) (action : Machine → ℕ → R) (core : ℕ) (m : Machine)
      → Holds (ready_state m) []
      → block threads option action core m
        ≡ nothing_ready threads option action core
            (m.active core)
            (record m { no_preempt = put m.no_preempt (m.active core) true })
  unfolding block
  block-empty option action core m h = rw (remove-empty (ready_state m) h)

  -- `schedule` queues a thread that is not idle behind the ready ones.
  pub schedule-Shows :
      (m : Machine) (xs zs : List ℕ) (t : ℕ)
      → Shows m xs zs
      → is_idle t ≡ false
      → t ≢ 0
      → Apart t xs
      → Apart t zs
      → Shows (schedule threads m t) (xs ++ t ∷ []) zs
  unfolding schedule
  schedule-Shows m xs zs t s b n a z = rw b (record {
    ready_holds = add-Holds (ready_state m) xs t s.ready_holds n a;
    zombie_holds =
        add-beside (ready_state m) m.zombies xs zs t s.ready_holds s.zombie_holds z s.apart;
    apart = snoc-Disjoint xs zs t s.apart z;
  })

  pub schedule-active : (m : Machine) (t : ℕ) → (schedule threads m t).active ≡ m.active
  unfolding schedule
  schedule-active m t = ground arith

  pub schedule-no_preempt : (m : Machine) (t : ℕ) → (schedule threads m t).no_preempt ≡ m.no_preempt
  unfolding schedule
  schedule-no_preempt m t = ground arith

  pub bury-active : (m : Machine) (t : ℕ) → (bury threads m t).active ≡ m.active
  unfolding bury
  bury-active m t = ground arith

  pub schedule-beside :
      (m : Machine) (q : Queue) (xs ws : List ℕ) (t : ℕ)
      → Holds (ready_state m) xs
      → Holds (beside m.links q) ws
      → Apart t ws
      → Disjoint xs ws
      → Holds (beside (schedule threads m t).links q) ws
  unfolding schedule
  schedule-beside m q xs ws t h k a d = elim (Bool-cases (is_idle t)) [
    | inl e ↦ rw e k
    | inr e ↦ rw e (add-beside (ready_state m) q xs ws t h k a d)
  ]

  -- `bury` queues it behind the zombies.
  pub bury-Shows :
      (m : Machine) (xs zs : List ℕ) (t : ℕ)
      → Shows m xs zs
      → is_idle t ≡ false
      → t ≢ 0
      → Apart t xs
      → Apart t zs
      → Shows (bury threads m t) xs (zs ++ t ∷ [])
  unfolding bury
  bury-Shows m xs zs t s b n a z = rw b (record {
    ready_holds =
        add-beside (zombie_state m) m.ready zs xs t s.zombie_holds s.ready_holds a
          (Disjoint-symm xs zs s.apart);
    zombie_holds = add-Holds (zombie_state m) zs t s.zombie_holds n z;
    apart = Disjoint-snoc xs zs t s.apart a;
  })

  -- Taking the first ready thread leaves the others.
  pub taken-Shows :
      (core : ℕ) (m : Machine) (x : ℕ) (xs zs : List ℕ)
      → Shows m (x ∷ xs) zs
      → Shows (taken core m) xs zs
  taken-Shows core m x xs zs s = record {
    ready_holds = (remove-Holds (ready_state m) x xs s.ready_holds).1;
    zombie_holds = rw (Queue.remove-links (ready_state m)) s.zombie_holds;
    apart = s.apart.1;
  }

  pub dispatched-Shows :
      (core : ℕ) (m : Machine) (x : ℕ) (xs zs : List ℕ)
      → Shows m (x ∷ xs) zs
      → Shows (dispatched core x m) xs zs
  dispatched-Shows core m x xs zs s =
      let t = taken-Shows core m x xs zs s in
      record { ready_holds = t.ready_holds; zombie_holds = t.zombie_holds; apart = t.apart }
