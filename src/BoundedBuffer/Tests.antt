-- ===== src/BoundedBuffer/Tests.antt =====
-- Two threads at the bounded buffer of kernel/bb.h with one place.
use kernel_development_with.Prelude.{ℕ, ◌≡◌, ◌≤◌, ◌+◌, refl, arith, List, [], ◌∷◌, ◌++◌, length}
use kernel_development_with.BoundedBuffer.{
  idle, put_wants, Move, puts, gets, goes, step_in, step, run, start,
}
use kernel_development_with.BoundedBuffer.Counts.{sum, locks}
use kernel_development_with.BoundedBuffer.Order.{run-fifo, run-AllWait}

abbrev zeroes : ℕ → ℕ
zeroes i = 0

abbrev put_steps : List (Move ℕ)
put_steps = goes 0 ∷ goes 0 ∷ goes 0 ∷ goes 0 ∷ goes 0 ∷ []

-- Thread 0 puts 7, then waits with 8; thread 1 asks for an item in between.
abbrev waiting : List (Move ℕ)
waiting = puts 0 7 ∷ put_steps ++ puts 0 8 ∷ goes 0 ∷ []

abbrev traffic : List (Move ℕ)
traffic = waiting ++ gets 1 ∷ goes 1 ∷ goes 1 ∷ goes 0 ∷ goes 1 ∷ goes 1 ∷ goes 1 ∷ put_steps

waiting_test : (run (start 2 1 zeroes) waiting).phases ≡ put_wants 8 ∷ idle ∷ []
unfolding run step step_in
waiting_test = refl

traffic_test : (run (start 2 1 zeroes) traffic).buffer.has_put ≡ 7 ∷ 8 ∷ []
unfolding run step step_in
traffic_test = refl

run-fifo_example :
    (items : List ℕ) × ((run (start 2 1 zeroes) traffic).buffer.has_put
      ≡ (run (start 2 1 zeroes) traffic).buffer.has_got ++ items)
    × (length items ≡ (run (start 2 1 zeroes) traffic).buffer.n)
    × ((run (start 2 1 zeroes) traffic).buffer.n ≤ (run (start 2 1 zeroes) traffic).buffer.size)
    × (sum locks (run (start 2 1 zeroes) traffic).phases ≤ 1)
run-fifo_example = run-fifo 2 1 zeroes traffic (omega arith) (omega arith)

run-AllWait_example :
    ((run (start 2 1 zeroes) waiting).buffer.lock ≡ 1)
    × ((run (start 2 1 zeroes) waiting).buffer.n_full ≡ (run (start 2 1 zeroes) waiting).buffer.n)
    × ((run (start 2 1 zeroes) waiting).buffer.n_empty + (run (start 2 1 zeroes) waiting).buffer.n
        ≡ (run (start 2 1 zeroes) waiting).buffer.size)
unfolding run step step_in
run-AllWait_example = run-AllWait 2 1 zeroes waiting (omega arith) (omega arith) (tt, (tt, tt))
