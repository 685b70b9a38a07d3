-- ===== src/Future/Tests.antt =====
-- Two threads that get a future of kernel/future.h, one before and one after it is set to 7.
use kernel_development_with.Prelude.{ℕ, ◌+◌, ◌≡◌, refl, List, [], ◌∷◌}
use kernel_development_with.Future.{
  waits, got, Move, sets, gets, set_step, get_step, step, run, start,
}
use kernel_development_with.Future.Values.{AllGot, number_passing, run-AllGot, run-wakes}

abbrev seven : ℕ
seven = 7

abbrev early : List Move
early = gets 0 ∷ gets 0 ∷ gets 0 ∷ sets ∷ sets ∷ gets 1 ∷ gets 1 ∷ gets 1 ∷ sets ∷ []

abbrev all : List Move
all =
    gets 0
    ∷ gets 0
    ∷ gets 0
    ∷ sets
    ∷ sets
    ∷ gets 1
    ∷ gets 1
    ∷ gets 1
    ∷ sets
    ∷ gets 0
    ∷ gets 0
    ∷ gets 0
    ∷ []

early_test : (run seven (start 2 0) early).phases ≡ waits ∷ got seven ∷ []
unfolding run step set_step get_step
early_test = refl

all_test : (run seven (start 2 0) all).phases ≡ got seven ∷ got seven ∷ []
unfolding run step set_step get_step
all_test = refl

run-AllGot_example : AllGot seven (run seven (start 2 0) all).phases
run-AllGot_example = run-AllGot seven 2 0 all

run-wakes_example :
    (run seven (start 2 0) early).future.go
      + number_passing seven (run seven (start 2 0) early).phases
    ≡ 1
unfolding run step set_step get_step
run-wakes_example = run-wakes seven 2 0 early refl
