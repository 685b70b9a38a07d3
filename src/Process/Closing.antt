-- ===== src/Process/Closing.antt =====
-- close of kernel/process.cc and kernel/process.h, as
-- changes of the map from handles to objects.
use kernel_development_with.Prelude.{
  ℕ, ◌≡◌, inl, inr, refl, ◌∙◌, Option, none, some, get_or, set, ℕ_discrete, eq→==, ne→==,
  Option-cases,
}
use kernel_development_with.Process.{
  Process, minus_one, get_semaphore_index, get_child_index, get_file_index, clear_entry, close_file,
  close_child, close,
}
use kernel_development_with.Process.Handles.{
  IsProcess, get_semaphore_index-eq_some, get_child_index-eq_some, get_file_index-eq_some,
}
use kernel_development_with.Process.Objects.{
  object_at, object_at-file, object_at-child, object_at-semaphore, object_at-neither,
}
use kernel_development_with.Process.Tables.{
  Changes, set_sems-Changes, set_children-Changes, set_files-Changes,
}

-- What close answers when the handle has this object.
unfoldable pub close_result : Option ℕ → ℕ
close_result none = minus_one
close_result (some x) = 0

-- An entry that is null stays so.
no_object-Changes :
    (p : Process) (id : ℕ) → IsProcess p → object_at p id ≡ none → Changes p p id none
no_object-Changes p id w e = record {
  sound = w;
  objects = λ other. elim (ℕ_discrete other id) [
    | yes q ↦ rw (eq→== other id q, q) e
    | no n ↦ rw (ne→== other id n) refl
  ];
}

-- What close promises: -1 and no change for a handle without object, else 0 and the object gone.
pub record Closes (p : Process) (id : ℕ) (r : ℕ × Process) : Type 0 where
  pub answer : r.0 ≡ close_result (object_at p id)
  pub change : Changes p r.1 id none

no_object-Closes :
    (p : Process) (id : ℕ) → IsProcess p → object_at p id ≡ none → Closes p id (minus_one, p)
unfolding close_result
no_object-Closes p id w e = record { answer = rw e refl; change = no_object-Changes p id w e }

object-Closes :
    (p q : Process) (id x : ℕ) → object_at p id ≡ some x → Changes p q id none → Closes p id (0, q)
unfolding close_result
object-Closes p q id x e c = record { answer = rw e refl; change = c }

semaphore-Closes :
    (p : Process) (id i : ℕ)
    → IsProcess p
    → get_semaphore_index id ≡ some i
    → Closes p id (close p id)
unfolding close
semaphore-Closes p id i w s =
    let (q, h) = get_semaphore_index-eq_some id i s in
    let at : object_at p id ≡ get_or p.sems i none = rw q (object_at-semaphore p i h) in
    elim (Option-cases (get_or p.sems i none)) [
      | inl n ↦ rw (close, s, clear_entry, n) (no_object-Closes p id w (at ∙ n))
      | inr (x, n) ↦
          rw (close, s, clear_entry, n)
            (object-Closes p (record p { sems = set p.sems i none }) id x (at ∙ n)
              (rw q (set_sems-Changes p i none w h)))
    ]

child-Closes :
    (p : Process) (id i : ℕ)
    → IsProcess p
    → get_semaphore_index id ≡ none
    → get_child_index id ≡ some i
    → Closes p id (close p id)
unfolding close
child-Closes p id i w e s =
    let (q, h) = get_child_index-eq_some id i s in
    let at : object_at p id ≡ get_or p.children i none = rw q (object_at-child p i h) in
    elim (Option-cases (get_or p.children i none)) [
      | inl n ↦ rw (close, e, close_child, s, clear_entry, n) (no_object-Closes p id w (at ∙ n))
      | inr (x, n) ↦
          rw (close, e, close_child, s, clear_entry, n)
            (object-Closes p (record p { children = set p.children i none }) id x (at ∙ n)
              (rw q (set_children-Changes p i none w h)))
    ]

file-Closes :
    (p : Process) (id i : ℕ)
    → IsProcess p
    → get_semaphore_index id ≡ none
    → get_child_index id ≡ none
    → get_file_index id ≡ some i
    → Closes p id (close p id)
unfolding close
file-Closes p id i w e f s =
    let (q, h) = get_file_index-eq_some id i s in
    let at : object_at p id ≡ get_or p.files i none = rw q (object_at-file p i h) in
    elim (Option-cases (get_or p.files i none)) [
      | inl n ↦
          rw (close, e, close_child, f, close_file, s, clear_entry, n)
            (no_object-Closes p id w (at ∙ n))
      | inr (x, n) ↦
          rw (close, e, close_child, f, close_file, s, clear_entry, n)
            (object-Closes p (record p { files = set p.files i none }) id x (at ∙ n)
              (rw q (set_files-Changes p i none w h)))
    ]

-- In a process with ten entries in each table, and on every handle, close answers 0 exactly if
-- the handle has an object and -1 otherwise; after it the handle has no object, and every other
-- handle has the object it had.
pub close-Closes : (p : Process) (id : ℕ) → IsProcess p → Closes p id (close p id)
unfolding close
close-Closes p id w = elim (Option-cases (get_semaphore_index id)) [
  | inr (i, s) ↦ semaphore-Closes p id i w s
  | inl s ↦ elim (Option-cases (get_child_index id)) [
    | inr (i, c) ↦ child-Closes p id i w s c
    | inl c ↦ elim (Option-cases (get_file_index id)) [
      | inr (i, f) ↦ file-Closes p id i w s c f
      | inl f ↦
          rw (close, s, close_child, c, close_file, f)
            (no_object-Closes p id w (object_at-neither p id s c f))
    ]
  ]
]
