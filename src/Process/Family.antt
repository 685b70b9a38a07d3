-- ===== src/Process/Family.antt =====
-- fork and wait of kernel/process.cc and kernel/process.h, as
-- changes of the map from handles to objects.
use kernel_development_with.Prelude.{
  ℕ, ◌+◌, ◌<◌, ◌≡◌, refl, sym, ◌∙◌, Option, none, some, arith, get_or, set, ℕ_discrete, eq→==,
  ne→==, get_or-set_self,
}
use kernel_development_with.Process.{
  Process, sem_kind, proc_kind, minus_one, first_free, wait, fork, no_entries,
}
use kernel_development_with.Process.Handles.{IsProcess, child_handle, get_child_index-handle}
use kernel_development_with.Process.Objects.{
  object_at, object_at-file, object_at-child, object_at-semaphore, changed,
}
use kernel_development_with.Process.Tables.{
  Changes, Allocates, HasFree, first_free-IsFree, set_children-Changes,
}

-- The child of a fork: the parent's semaphores and files under the same handles, no children, and
-- the future that the parent has got.
pub record Inherits (p : Process) (output : ℕ) (c : Option Process) : Type 0 where
  child : Process
  is : c ≡ some child
  future : child.output ≡ output
  files : (i : ℕ) → i < 10 → object_at child i ≡ object_at p i
  semaphores : (i : ℕ) → i < 10 → object_at child (sem_kind + i) ≡ object_at p (sem_kind + i)
  childless : (i : ℕ) → i < 10 → object_at child (proc_kind + i) ≡ none

fork_at :
    (p : Process) (output j : ℕ)
    → j < 10
    → first_free p.children 0 ≡ some j
    → fork p output ≡ (
      proc_kind + j,
      some (record { files = p.files; sems = p.sems; children = no_entries; output = output }),
      record p { children = set p.children j (some output) },
    )
unfolding fork
fork_at p output j h r = rw (fork, r, child_handle j h) refl

no_entries-none : (i : ℕ) → get_or no_entries i none ≡ none
no_entries-none i = ground arith

forked-Inherits :
    (p : Process) (output : ℕ)
    → Inherits p output
        (some (record { files = p.files; sems = p.sems; children = no_entries; output = output }))
forked-Inherits p output =
    let c : Process = record {
      files = p.files;
      sems = p.sems;
      children = no_entries;
      output = output;
    } in
    record {
      child = c;
      is = refl;
      future = refl;
      files = λ i h. object_at-file c i h ∙ sym (object_at-file p i h);
      semaphores = λ i h. object_at-semaphore c i h ∙ sym (object_at-semaphore p i h);
      childless = λ i h. object_at-child c i h ∙ no_entries-none i;
    }

-- In a process with ten entries in each table, a child entry of them free, fork gives the parent
-- a handle that had no object, with the child's future behind it, and changes no other handle;
-- the child inherits semaphores and files.
pub fork-Allocates :
    (p : Process) (output : ℕ)
    → IsProcess p
    → HasFree p.children
    → Allocates p (fork p output).2 (fork p output).0 output × Inherits p output (fork p output).1
fork-Allocates p output w f =
    let (j, r, h, e) = first_free-IsFree p.children w.children f in
    rw (fork_at p output j h r) (
      record {
        handle = omega (arith, h);
        fresh = object_at-child p j h ∙ e;
        change = set_children-Changes p j (some output) w h;
      },
      forked-Inherits p output,
    )

wait_at :
    (p : Process) (i x : ℕ) (v : ℕ → ℕ)
    → i < 10
    → get_or p.children i none ≡ some x
    → wait p (proc_kind + i) v ≡ (0, some (v x), record p { children = set p.children i none })
unfolding wait
wait_at p i x v h e = rw (wait, get_child_index-handle i h, e) refl

wait-none :
    (p : Process) (i : ℕ) (v : ℕ → ℕ)
    → i < 10
    → get_or p.children i none ≡ none
    → wait p (proc_kind + i) v ≡ (minus_one, none, p)
unfolding wait
wait-none p i v h e = rw (wait, get_child_index-handle i h, e) refl

-- What follows a fork: the wait for its child answers 0 with what the child's future gives, and
-- puts back the objects of before; another wait for it fails.
pub record Collected (p q : Process) (id output : ℕ) (v : ℕ → ℕ) (r : ℕ × Option ℕ × Process)
    : Type 0 where
  answer : r.0 ≡ 0
  value : r.1 ≡ some (v output)
  objects : (other : ℕ) → object_at r.2 other ≡ object_at p other
  again : wait r.2 id v ≡ (minus_one, none, r.2)

changed_back :
    (p q : Process) (id x : ℕ)
    → object_at p id ≡ none
    → Changes p q id (some x)
    → (other : ℕ) → changed q id none other ≡ object_at p other
changed_back p q id x e c other = elim (ℕ_discrete other id) [
  | yes n ↦ rw (eq→== other id n, n, e) refl
  | no n ↦
      let d : object_at q other ≡ changed p id (some x) other = c.objects other in
      let g : changed p id (some x) other ≡ object_at p other = rw (ne→== other id n) refl in
      rw (ne→== other id n) (d ∙ g)
]

-- In a process with ten entries in each table, a child entry of them free, the wait for a forked
-- child answers 0 with the value that the child's exit gives its future, and puts back the
-- parent's objects of before the fork; a second wait for the same child fails with -1.
pub fork-wait :
    (p : Process) (output : ℕ) (v : ℕ → ℕ)
    → IsProcess p
    → HasFree p.children
    → Collected p
        (fork p output).2
        (fork p output).0
        output
        v
        (wait (fork p output).2 (fork p output).0 v)
fork-wait p output v w f =
    let (j, r, h, e) = first_free-IsFree p.children w.children f in
    let q : Process = record p { children = set p.children j (some output) } in
    let a : Changes p q (proc_kind + j) (some output) =
      set_children-Changes p j (some output) w h in
    let b = set_children-Changes q j none a.sound h in
    let n : get_or (set p.children j (some output)) j none ≡ some output =
      get_or-set_self p.children j (some output) none (omega (arith, h, w.children)) in
    let m : get_or (set q.children j none) j none ≡ none =
      get_or-set_self q.children j none none (omega (arith, h, a.sound.children)) in
    rw (fork_at p output j h r, wait_at q j output v h n)
      (record {
        answer = refl;
        value = refl;
        objects = λ other.
            b.objects other
            ∙ changed_back p q (proc_kind + j) output (object_at-child p j h ∙ e) a other;
        again = wait-none (record q { children = set q.children j none }) j v h m;
      })
