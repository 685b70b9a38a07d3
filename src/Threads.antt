-- ===== src/Threads.antt =====
-- kernel/threads.h and kernel/threads.cc: the scheduler. A thread is the address of its TCB. The
-- ready and the zombie queue are those of kernel/queue.h, over the `next` fields of all threads.
-- Interrupts are off, or a lock is held, around each access that two cores may make, so an
-- operation of one core is one step; `kernel/context.s` is read for what a switch does.
pub mod View
pub mod Block
pub mod Fair
mod Tests
use kernel_development_with.Prelude.{
  ℕ, zero, suc, ◌+◌, ◌%◌, ◌^◌, Bool, true, false, if◌then◌else◌, ◌==◌, ◌||◌,
}
use kernel_development_with.Queue.{Links, Queue, State}
use kernel_development_with.Queue

-- TCB and SaveArea: what the scheduler reads of a thread and does not change.
pub record Threads : Type 0 where
  pub is_idle : ℕ → Bool
  pub interrupt_esp : ℕ → ℕ
  pub cr3 : ℕ → ℕ
  pub idle_threads : ℕ → ℕ

-- What the scheduler changes: `next` fields, the two queues, `saveArea.no_preempt`,
-- `activeThreads`, `tss[core].esp0`, the page directory register of each core, `Pit::jiffies`.
pub record Machine : Type 0 where
  pub links : Links
  pub ready : Queue
  pub zombies : Queue
  pub no_preempt : ℕ → Bool
  pub active : ℕ → ℕ
  pub esp0 : ℕ → ℕ
  pub page_directory : ℕ → ℕ
  pub jiffies : ℕ

abbrev pub put {ℓ} : {A : Type ℓ} → (ℕ → A) → ℕ → A → ℕ → A
put f i a j = if i == j then a else f j

abbrev pub ready_state : Machine → State
ready_state m = record { links = m.links; queue = m.ready }

abbrev pub zombie_state : Machine → State
zombie_state m = record { links = m.links; queue = m.zombies }

abbrev pub set_ready : Machine → State → Machine
set_ready m s = record m { links = s.links; ready = s.queue }

abbrev pub set_zombies : Machine → State → Machine
set_zombies m s = record m { links = s.links; zombies = s.queue }

pub data BlockOption : Type 0 where
  must_block can_return : BlockOption

-- How one pass of `block` ends: it returned at once, it switched threads, or it starts again.
-- `R` is what the action of the switch leaves.
pub data Pass (R : Type 0) : Type 0 where
  returned : Machine → Pass R
  switched : R → Pass R
  again : Machine → Pass R

abbrev pub after : Pass Machine → Machine
after (returned m) = m
after (switched m) = m
after (again m) = m

module _ (threads : Threads) where
  open threads use {is_idle, interrupt_esp, cr3, idle_threads}

  -- schedule(TCB* tcb)
  unfoldable pub schedule : Machine → ℕ → Machine
  schedule m tcb = if is_idle tcb then m else set_ready m (Queue.add (ready_state m) tcb)

  -- gheith_contextSwitch(from, to, action): both flags are cleared, then the action runs.
  unfoldable pub context_switch : {R : Type 0} → ℕ → ℕ → ℕ → (Machine → ℕ → R) → Machine → R
  context_switch core from to action m =
      action
        (record m {
          no_preempt = put (put m.no_preempt from false) to false;
          page_directory = put m.page_directory core (cr3 to);
        })
        from

  -- The tail of `block`, from the choice of `next_tcb` on.
  unfoldable pub switch_to : {R : Type 0} → ℕ → ℕ → ℕ → (Machine → ℕ → R) → Machine → R
  unfolding context_switch
  switch_to core me next_tcb action m = context_switch core me next_tcb action (record m {
    no_preempt = put m.no_preempt next_tcb true;
    active = put m.active core next_tcb;
    esp0 = put m.esp0 core (interrupt_esp next_tcb);
  })

  -- The branches of `block` that find the ready queue empty.
  unfoldable pub nothing_ready :
      {R : Type 0} → BlockOption → (Machine → ℕ → R) → ℕ → ℕ → Machine → Pass R
  unfolding switch_to
  nothing_ready can_return action core me m = returned m
  nothing_ready must_block action core me m =
      if is_idle me then again m else switched (switch_to core me (idle_threads core) action m)

  -- block(option, f): one pass from `again`, on the thread that the core runs.
  unfoldable pub block : {R : Type 0} → BlockOption → (Machine → ℕ → R) → ℕ → Machine → Pass R
  unfolding switch_to nothing_ready
  block option action core m =
      let me : ℕ = m.active core in
      let held : Machine = record m { no_preempt = put m.no_preempt me true } in
      let (next_tcb, s) = Queue.remove (ready_state held) in
      if next_tcb == 0
      then nothing_ready option action core me held
      else switched (switch_to core me next_tcb action (set_ready held s))

  -- yield()
  unfoldable pub yield_core : ℕ → Machine → Pass Machine
  unfolding block
  yield_core core m = block can_return schedule core m

  -- The action of `stop`: the thread joins the zombies, unless it is an idle thread.
  unfoldable pub bury : Machine → ℕ → Machine
  bury m me = if is_idle me then m else set_zombies m (Queue.add (zombie_state m) me)

  -- stop(): one round of its loop.
  unfoldable pub stop : ℕ → Machine → Pass Machine
  unfolding block bury
  stop core m = block must_block bury core m

  -- apitHandler (kernel/pit.cc): core 0 counts the tick; then the thread yields, unless there is
  -- none, it is idle, or it must not be preempted.
  unfoldable pub timer : ℕ → Machine → Machine
  unfolding yield_core
  timer core m =
      let ticked : Machine =
        if core == 0 then record m { jiffies = (m.jiffies + 1) % 2 ^ 32 } else m in
      let me : ℕ = ticked.active core in
      if me == 0 || is_idle me || ticked.no_preempt me
      then ticked
      else after (yield_core core ticked)

-- delete_zombies(): the number of threads deleted and the state after; each round removes one,
-- so fuel above the length of the queue is enough.
unfoldable pub delete_zombies : ℕ → Machine → ℕ × Machine
delete_zombies zero m = (0, m)
delete_zombies (suc fuel) m =
    let (it, s) = Queue.remove (zombie_state m) in
    let rest : ℕ × Machine = delete_zombies fuel (set_zombies m s) in
    if it == 0 then (0, m) else (suc rest.0, rest.1)
