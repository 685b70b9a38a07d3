-- ===== src/Semaphore/Balance.antt =====
-- A sequence of calls of one semaphore of kernel/semaphore.h on one core.
use kernel_development_with.Prelude.{
  ℕ, suc, ◌+◌, ◌^◌, ◌<◌, ◌≤◌, ◌≡◌, refl, ◌⊎◌, true, false, List, [], ◌∷◌, arith, length,
  length-append,
}
use kernel_development_with.Queue.Chain.{Holds}
use kernel_development_with.Threads.{Threads}
use kernel_development_with.Semaphore.{World, waiting_state}
use kernel_development_with.Semaphore.Waiting.{
  View, Call, downs, ups, spec_block, spec_up, spec_step, step, Stands,
}
use kernel_development_with.Semaphore.Calls.{step-refines}

abbrev pub number : Call → List Call → ℕ
number c [] = 0
number downs (downs ∷ cs) = suc (number downs cs)
number downs (ups ∷ cs) = number downs cs
number ups (downs ∷ cs) = number ups cs
number ups (ups ∷ cs) = suc (number ups cs)

spec_block-counts :
    (idle : ℕ) (v : View) (xs : List ℕ)
    → ((spec_block idle v xs).count ≡ v.count)
      × (length (spec_block idle v xs).waiting ≡ suc (length v.waiting))
spec_block-counts idle v [] = (refl, omega (arith, length-append {0} v.waiting (v.running ∷ [])))
spec_block-counts idle v (x ∷ xs) =
    (refl, omega (arith, length-append {0} v.waiting (v.running ∷ [])))

spec_up-counts :
    (v : View) (ws : List ℕ)
    → ((spec_up v ws).count + length ws ≡ suc (v.count + length (spec_up v ws).waiting))
      × ((spec_up v ws).count ≤ suc v.count)
spec_up-counts v [] = omega arith
spec_up-counts v (w ∷ ws) = omega arith

-- One call keeps the balance of the count and the waiting threads.
spec_step-downs :
    (idle : ℕ) (v : View)
    → ((spec_step idle v downs).count + length v.waiting + 1
        ≡ v.count + length (spec_step idle v downs).waiting)
      × ((spec_step idle v downs).count ≤ suc v.count)
spec_step-downs idle v = ground (arith, spec_block-counts idle v v.ready)

abbrev pub spec_after : ℕ → View → List Call → View
spec_after idle v [] = v
spec_after idle v (c ∷ cs) = spec_after idle (spec_step idle v c) cs

spec_after-balance :
    (idle : ℕ) (v : View) (cs : List Call)
    → (spec_after idle v cs).count + length v.waiting + number downs cs
      ≡ v.count + length (spec_after idle v cs).waiting + number ups cs
spec_after-balance idle v [] = omega arith
spec_after-balance idle v (downs ∷ cs) =
    omega (arith, spec_step-downs idle v, spec_after-balance idle (spec_step idle v downs) cs)
spec_after-balance idle v (ups ∷ cs) =
    omega (arith, spec_up-counts v v.waiting, spec_after-balance idle (spec_step idle v ups) cs)

spec_step-count_le : (idle : ℕ) (v : View) (c : Call) → (spec_step idle v c).count ≤ suc v.count
spec_step-count_le idle v downs = (spec_step-downs idle v).1
spec_step-count_le idle v ups = (spec_up-counts v v.waiting).1

module _ (threads : Threads) where
  open threads use {is_idle, idle_threads}

  abbrev pub calls_after : ℕ → World → List Call → World
  calls_after core w [] = w
  calls_after core w (c ∷ cs) = calls_after core (step threads core w c) cs

  -- No idle thread calls `down`.
  abbrev pub Proper : ℕ → View → List Call → Type 0
  Proper idle v [] = Unit {0}
  Proper idle v (c ∷ cs) =
      (c ≡ downs → is_idle v.running ≡ false) × Proper idle (spec_step idle v c) cs

  calls-refine :
      (core : ℕ) (zs : List ℕ) (w : World) (v : View) (cs : List Call)
      → Stands threads core zs w v
      → is_idle (idle_threads core) ≡ true
      → Proper (idle_threads core) v cs
      → suc (v.count + length cs) < 2 ^ 64
      → Stands threads core zs (calls_after core w cs) (spec_after (idle_threads core) v cs)
  calls-refine core zs w v [] s i p lt = s
  calls-refine core zs w v (c ∷ cs) s i p lt =
      calls-refine core zs (step threads core w c) (spec_step (idle_threads core) v c) cs
        (step-refines threads core zs w v c s i p.0 (omega arith)) i p.1
        (omega (arith, spec_step-count_le (idle_threads core) v c))

  -- After any sequence of calls of down and up on a core, from a world that shows a view, with no
  -- call of down by an idle thread and no wrap of the 64-bit count: the new count, the old number
  -- of waiting threads and the calls of down balance the old count, the new number of waiting
  -- threads and the calls of up, and nobody waits while the count is positive.
  pub calls-balance :
      (core : ℕ) (zs : List ℕ) (w : World) (v : View) (cs : List Call)
      → Stands threads core zs w v
      → is_idle (idle_threads core) ≡ true
      → Proper (idle_threads core) v cs
      → suc (v.count + length cs) < 2 ^ 64
      → let u = calls_after core w cs in
        (ws : List ℕ) × Holds (waiting_state u) ws
        × (u.sem.count + length v.waiting + number downs cs
            ≡ w.sem.count + length ws + number ups cs)
        × ((ws ≡ []) ⊎ (u.sem.count ≡ 0))
  calls-balance core zs w v cs s i p lt =
      let r = calls-refine core zs w v cs s i p lt in
      let b = spec_after-balance (idle_threads core) v cs in
      (
        (spec_after (idle_threads core) v cs).waiting,
        r.waits,
        rw (r.counts, s.counts) b,
        rw r.counts r.no_waste,
      )
