-- ===== src/Process/Tests.antt =====
-- Examples of the handle tables of kernel/process.cc.
use kernel_development_with.Prelude.{ℕ, ◌+◌, ◌≡◌, refl, none, some, [], ◌∷◌, arith, set}
use kernel_development_with.Process.{
  minus_one, Process, sem_kind, get_semaphore_index, first_free, new_semaphore, set_file, close,
  wait, fork, no_entries,
}
use kernel_development_with.Process.Handles.{IsProcess}
use kernel_development_with.Process.Tables.{Allocates, set_file-Allocates}
use kernel_development_with.Process.Closing.{Closes, close-Closes}
use kernel_development_with.Process.Family.{Collected, fork-wait}

-- A process with a console as file 0 and a semaphore in its first entry.
abbrev shell : Process
shell = record {
  files = set no_entries 0 (some 7);
  sems = set no_entries 0 (some 5);
  children = no_entries;
  output = 3;
}

shell-IsProcess : IsProcess shell
shell-IsProcess = record { files = refl; sems = refl; children = refl }

abbrev second : ℕ × Process
second = new_semaphore shell 9

second_test : second.0 ≡ sem_kind + 1
unfolding new_semaphore first_free
second_test = refl

close_test : (close second.1 (sem_kind + 1)).0 ≡ 0
unfolding new_semaphore first_free close get_semaphore_index
close_test = refl

set_file-Allocates_example : Allocates shell (set_file shell 11).1 (set_file shell 11).0 11
set_file-Allocates_example = set_file-Allocates shell 11 shell-IsProcess (1, omega arith, refl)

close-Closes_example : Closes shell sem_kind (close shell sem_kind)
close-Closes_example = close-Closes shell sem_kind shell-IsProcess

fork-wait_example :
    Collected shell
      (fork shell 4).2
      (fork shell 4).0
      4
      (λ x. x + 1)
      (wait (fork shell 4).2 (fork shell 4).0 (λ x. x + 1))
fork-wait_example = fork-wait shell 4 (λ x. x + 1) shell-IsProcess (0, omega arith, refl)

abbrev parent : Process
parent = record shell {
  children =
      some 1 ∷ some 2 ∷ some 3 ∷ some 4 ∷ some 5 ∷ some 6 ∷ some 7 ∷ some 8 ∷ some 9 ∷ some 10 ∷ [];
}

fork_full_test : fork parent 4 ≡ (minus_one, none, parent)
unfolding fork first_free
fork_full_test = refl
