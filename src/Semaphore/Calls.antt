-- ===== src/Semaphore/Calls.antt =====
-- `down` and `up` of kernel/semaphore.h do what the view promises.
use kernel_development_with.Prelude.{
  ℕ, zero, suc, ◌-◌, ◌^◌, ◌<◌, ◌≡◌, refl, sym, ap, subst, ◌∙◌, ◌⊎◌, inl, inr, true, false, List, [],
  ◌∷◌, ◌++◌, Apart, Disjoint, arith, Disjoint-snoc, snoc-Disjoint, Apart-snoc, Disjoint-symm, ne→==,
  lt→ltb, Disjoint-tail,
}
use kernel_development_with.Prelude.Outcome.{ok}
use kernel_development_with.Queue.{State, Queue}
use kernel_development_with.Queue
use kernel_development_with.Queue.Chain.{Holds}
use kernel_development_with.Queue.Fifo.{add-Holds, remove-Holds, remove-empty}
use kernel_development_with.Queue.Frame.{add-beside, beside}
use kernel_development_with.Threads.{
  Threads, Machine, must_block, switched, put, ready_state, switch_to, nothing_ready, block,
}
use kernel_development_with.Threads.View.{Shows, AllBusy, AllBusy-snoc}
use kernel_development_with.Threads.Block.{
  dispatched, block-ready, block-empty, schedule-Shows, schedule-active, schedule-beside,
  dispatched-Shows,
}
use kernel_development_with.Semaphore.{
  Semaphore, World, waiting_state, enqueue, wait_here, passed, blocked, down, up,
}
use kernel_development_with.Semaphore.Waiting.{
  View, Call, downs, ups, spec_block, spec_up, spec_step, world_after, step, Outside, Stands,
}

suc-sub_one : (k : ℕ) → suc k - 1 ≡ k
suc-sub_one k = omega arith

module _ (threads : Threads) where
  open threads use {is_idle, idle_threads}

  -- The semaphore's own queue after a thread has joined it, beside the other two.
  enqueue-Stands :
      (core : ℕ) (zs : List ℕ) (sem : Semaphore) (m : Machine) (xs ws : List ℕ) (t r : ℕ)
      → Shows m xs zs
      → Holds (waiting_state (record { machine = m; sem = sem })) ws
      → Disjoint xs ws
      → Disjoint zs ws
      → AllBusy threads xs
      → AllBusy threads ws
      → sem.count ≡ 0
      → Outside t xs ws zs
      → is_idle t ≡ false
      → m.active core ≡ r
      → (is_idle r ≡ true) ⊎ Outside r xs (ws ++ t ∷ []) zs
      → Stands threads core zs
          (enqueue sem m t)
          (record { running = r; ready = xs; waiting = ws ++ t ∷ []; count = 0 })
  unfolding enqueue
  enqueue-Stands core zs sem m xs ws t r s k dx dz bx bw c o b e own = record {
    shows = record {
      ready_holds =
          add-beside (waiting_state w) m.ready ws xs t k s.ready_holds o.1 (Disjoint-symm xs ws dx);
      zombie_holds =
          add-beside (waiting_state w) m.zombies ws zs t k s.zombie_holds o.3
            (Disjoint-symm zs ws dz);
      apart = s.apart;
    };
    waits = add-Holds (waiting_state w) ws t k o.0 o.2;
    ready_apart = Disjoint-snoc xs ws t dx o.1;
    zombies_apart = Disjoint-snoc zs ws t dz o.3;
    ready_busy = bx;
    waiting_busy = AllBusy-snoc threads ws t bw b;
    counts = c;
    no_waste = inr refl;
    runs = e;
    own = own;
  }
    where
      w : World
      w = record { machine = m; sem = sem }

  -- The machine after a switch to the idle thread of the core.
  abbrev pub idled : ℕ → Machine → Machine
  idled core m = record m {
    no_preempt =
        put
          (put (put (put m.no_preempt (m.active core) true) (idle_threads core) true)
            (m.active core) false)
          (idle_threads core) false;
    active = put m.active core (idle_threads core);
    esp0 = put m.esp0 core (threads.interrupt_esp (idle_threads core));
    page_directory = put m.page_directory core (threads.cr3 (idle_threads core));
  }

  -- A thread that is not idle joins the waiting ones.
  wait_here-joins :
      (sem : Semaphore) (m : Machine) (me : ℕ)
      → is_idle me ≡ false
      → wait_here threads sem m me ≡ ok (enqueue sem m me)
  unfolding wait_here
  wait_here-joins sem m me b = rw (wait_here, b) refl

  down-blocks :
      (core : ℕ) (w : World)
      → w.sem.count ≡ 0
      → down threads core w
        ≡ blocked (block threads must_block (wait_here threads w.sem) core w.machine)
  unfolding down
  down-blocks core w c = ground arith

  down-ready :
      (core : ℕ) (w : World) (x : ℕ) (xs : List ℕ)
      → w.sem.count ≡ 0
      → Holds (ready_state w.machine) (x ∷ xs)
      → is_idle (w.machine.active core) ≡ false
      → down threads core w
        ≡ blocked (
            switched
              (ok (enqueue w.sem (dispatched threads core x w.machine) (w.machine.active core))))
  unfolding switch_to
  down-ready core w x xs c h b =
      down-blocks core w c
      ∙ ap blocked (block-ready threads must_block (wait_here threads w.sem) core w.machine x xs h)
      ∙ ap (λ z. blocked (switched z))
          (wait_here-joins w.sem (dispatched threads core x w.machine) (w.machine.active core) b)

  nothing_ready-switches :
      (core : ℕ) (m : Machine) (sem : Semaphore)
      → is_idle (m.active core) ≡ false
      → nothing_ready threads must_block
          (wait_here threads sem)
          core
          (m.active core)
          (record m { no_preempt = put m.no_preempt (m.active core) true })
        ≡ switched (ok (enqueue sem (idled core m) (m.active core)))
  unfolding nothing_ready switch_to
  nothing_ready-switches core m sem b =
      rw b (ap switched (wait_here-joins sem (idled core m) (m.active core) b))

  down-empty :
      (core : ℕ) (w : World)
      → w.sem.count ≡ 0
      → Holds (ready_state w.machine) []
      → is_idle (w.machine.active core) ≡ false
      → down threads core w
        ≡ blocked (switched (ok (enqueue w.sem (idled core w.machine) (w.machine.active core))))
  down-empty core w c h b =
      down-blocks core w c
      ∙ ap blocked (
          block-empty threads must_block (wait_here threads w.sem) core w.machine h
          ∙ nothing_ready-switches core w.machine w.sem b)

  down-Stands :
      (core : ℕ) (zs : List ℕ) (w : World) (t : ℕ) (xs ws : List ℕ)
      → Stands threads core zs w (record { running = t; ready = xs; waiting = ws; count = 0 })
      → is_idle (idle_threads core) ≡ true
      → is_idle t ≡ false
      → Outside t xs ws zs
      → Stands threads core zs (world_after w (down threads core w)) (
          spec_block
            (idle_threads core)
            (record { running = t; ready = xs; waiting = ws; count = 0 })
            xs)
  down-Stands core zs w t [] ws s i b o =
      rw (down-empty core w s.counts s.shows.ready_holds (rw s.runs b)) (
        subst
          (λ u.
            Stands threads core zs (enqueue w.sem (idled core w.machine) u) (record {
              running = idle_threads core;
              ready = [];
              waiting = ws ++ t ∷ [];
              count = 0;
            }))
          (sym s.runs) (after_switch))
    where
      after_switch :
          Stands threads core zs
            (enqueue w.sem (idled core w.machine) t)
            (record { running = idle_threads core; ready = []; waiting = ws ++ t ∷ []; count = 0 })
      after_switch =
          enqueue-Stands core zs w.sem (idled core w.machine) [] ws t (idle_threads core)
            (record {
              ready_holds = s.shows.ready_holds;
              zombie_holds = s.shows.zombie_holds;
              apart = s.shows.apart;
            })
            s.waits s.ready_apart s.zombies_apart s.ready_busy s.waiting_busy s.counts o b
            (ground arith) (inl i)
  down-Stands core zs w t (x ∷ xs) ws s i b o =
      rw (down-ready core w x xs s.counts s.shows.ready_holds (rw s.runs b)) (
        subst
          (λ u.
            Stands threads core zs (enqueue w.sem (dispatched threads core x w.machine) u)
              (record { running = x; ready = xs; waiting = ws ++ t ∷ []; count = 0 }))
          (sym s.runs) (after_switch))
    where
      outside : Outside x xs (ws ++ t ∷ []) zs
      outside = (
        s.shows.ready_holds.chain.1,
        s.shows.ready_holds.distinct.0,
        Apart-snoc x t ws s.ready_apart.0 (λ e. o.1.0 (sym e)),
        s.shows.apart.0,
      )

      after_switch :
          Stands threads core zs
            (enqueue w.sem (dispatched threads core x w.machine) t)
            (record { running = x; ready = xs; waiting = ws ++ t ∷ []; count = 0 })
      after_switch =
          enqueue-Stands core zs w.sem (dispatched threads core x w.machine) xs ws t x
            (dispatched-Shows threads core w.machine x xs zs s.shows)
            (rw (Queue.remove-links (ready_state w.machine)) s.waits) s.ready_apart.1
            s.zombies_apart s.ready_busy.1 s.waiting_busy s.counts (o.0, o.1.1, o.2, o.3) b
            (ground arith) (inr outside)

  up-Stands :
      (core : ℕ) (zs : List ℕ) (w : World) (t : ℕ) (xs ws : List ℕ) (n : ℕ)
      → Stands threads core zs w (record { running = t; ready = xs; waiting = ws; count = n })
      → suc n < 2 ^ 64
      → Stands threads core zs
          (up threads w)
          (spec_up (record { running = t; ready = xs; waiting = ws; count = n }) ws)
  unfolding up
  up-Stands core zs w t xs [] n s lt = rw (remove-empty (waiting_state w) s.waits) (record {
    shows = s.shows;
    waits = s.waits;
    ready_apart = s.ready_apart;
    zombies_apart = s.zombies_apart;
    ready_busy = s.ready_busy;
    waiting_busy = s.waiting_busy;
    counts = omega (arith, s.counts);
    no_waste = inl refl;
    runs = s.runs;
    own = s.own;
  })
  up-Stands core zs w t xs (y ∷ ws) n s lt =
      rw (r.0, ne→== y 0 s.waits.chain.1)
        (record {
          shows =
              schedule-Shows threads m xs zs y shown s.waiting_busy.0 s.waits.chain.1 not_ready
                not_zombie;
          waits =
              schedule-beside threads m q xs ws y shown.ready_holds waits s.waits.distinct.0
                (Disjoint-tail xs y ws s.ready_apart);
          ready_apart =
              snoc-Disjoint xs ws y (Disjoint-tail xs y ws s.ready_apart) s.waits.distinct.0;
          zombies_apart = Disjoint-tail zs y ws s.zombies_apart;
          ready_busy = AllBusy-snoc threads xs y s.ready_busy s.waiting_busy.0;
          waiting_busy = s.waiting_busy.1;
          counts = s.counts;
          no_waste = ground (arith, s.no_waste);
          runs = rw (schedule-active threads m y) s.runs;
          own = own s.own;
        })
    where
      r : ((Queue.remove (waiting_state w)).0 ≡ y) × Holds (Queue.remove (waiting_state w)).1 ws
      r = remove-Holds (waiting_state w) y ws s.waits

      m : Machine
      m = record w.machine { links = (Queue.remove (waiting_state w)).1.links }

      q : Queue
      q = (Queue.remove (waiting_state w)).1.queue

      waits : Holds (beside m.links q) ws
      waits = r.1

      shown : Shows m xs zs
      shown = record {
        ready_holds = rw (Queue.remove-links (waiting_state w)) s.shows.ready_holds;
        zombie_holds = rw (Queue.remove-links (waiting_state w)) s.shows.zombie_holds;
        apart = s.shows.apart;
      }

      not_ready : Apart y xs
      not_ready = (Disjoint-symm xs (y ∷ ws) s.ready_apart).0

      not_zombie : Apart y zs
      not_zombie = (Disjoint-symm zs (y ∷ ws) s.zombies_apart).0

      own :
          (is_idle t ≡ true) ⊎ Outside t xs (y ∷ ws) zs
          → (is_idle t ≡ true) ⊎ Outside t (xs ++ y ∷ []) ws zs
      own (inl i) = inl i
      own (inr o) = inr (o.0, Apart-snoc t y xs o.1 o.2.0, o.2.1, o.3)

  down-passes :
      (core : ℕ) (w : World) (k : ℕ)
      → w.sem.count ≡ suc k
      → down threads core w ≡ passed (record w { sem = record w.sem { count = k } })
  unfolding down
  down-passes core w k e = ground arith

  down-refines :
      (core : ℕ) (zs : List ℕ) (w : World) (t : ℕ) (xs ws : List ℕ) (n : ℕ)
      → Stands threads core zs w (record { running = t; ready = xs; waiting = ws; count = n })
      → is_idle (idle_threads core) ≡ true
      → is_idle t ≡ false
      → Stands threads core zs (world_after w (down threads core w)) (
          spec_step
            (idle_threads core)
            (record { running = t; ready = xs; waiting = ws; count = n })
            downs)
  down-refines core zs w t xs ws zero s i b =
      down-Stands core zs w t xs ws s i b (ground (arith, s.own))
  down-refines core zs w t xs ws (suc k) s i b =
      rw (down-passes core w k s.counts, suc-sub_one k, lt→ltb 0 (suc k) (omega arith))
        (record {
          shows = s.shows;
          waits = s.waits;
          ready_apart = s.ready_apart;
          zombies_apart = s.zombies_apart;
          ready_busy = s.ready_busy;
          waiting_busy = s.waiting_busy;
          counts = refl;
          no_waste = ground (arith, s.no_waste);
          runs = s.runs;
          own = s.own;
        })

  -- One call of down or up by the thread that a core runs does to the ready queue, the waiting
  -- queue, the count and the running thread what the view on lists promises, and keeps the queues
  -- apart, provided that an idle thread does not call down and that the 64-bit count does not
  -- wrap.
  pub step-refines :
      (core : ℕ) (zs : List ℕ) (w : World) (v : View) (c : Call)
      → Stands threads core zs w v
      → is_idle (idle_threads core) ≡ true
      → (c ≡ downs → is_idle v.running ≡ false)
      → suc v.count < 2 ^ 64
      → Stands threads core zs (step threads core w c) (spec_step (idle_threads core) v c)
  step-refines core zs w v ups s i b lt =
      up-Stands core zs w v.running v.ready v.waiting v.count s lt
  step-refines core zs w v downs s i b lt =
      down-refines core zs w v.running v.ready v.waiting v.count s i (b refl)
