-- ===== src/Queue/Tests.antt =====
-- Tests of the queue of kernel/queue.h, and its theorems at concrete inputs.
use kernel_development_with.Prelude.{◌≡◌, refl, List, [], ◌∷◌, arith}
use kernel_development_with.Queue.{State, empty, add, remove}
use kernel_development_with.Queue.Chain.{Holds}
use kernel_development_with.Queue.Fifo.{adds, removes, Call, results, results-refines}

abbrev idle : State
idle = record { links = λ _. 0; queue = empty }

abbrev calls : List Call
calls = adds 40 ∷ adds 16 ∷ removes ∷ adds 40 ∷ removes ∷ removes ∷ removes ∷ []

idle-Holds : Holds idle []
idle-Holds = record { chain = refl; ends = refl; distinct = tt }

results_test : results idle calls ≡ 0 ∷ 0 ∷ 40 ∷ 0 ∷ 16 ∷ 40 ∷ 0 ∷ []
unfolding add remove
results_test = refl

results-refines_example : results idle calls ≡ 0 ∷ 0 ∷ 40 ∷ 0 ∷ 16 ∷ 40 ∷ 0 ∷ []
results-refines_example = results-refines idle [] calls idle-Holds (omega arith)
