-- ===== src/Process/Tables.antt =====
-- newSemaphore, setFile, close, fork and wait of kernel/process.cc and kernel/process.h, as
-- changes of the map from handles to objects.
use kernel_development_with.Prelude.{
  ℕ, zero, suc, ◌+◌, ◌-◌, ◌^◌, ◌<◌, ◌≡◌, ◌≢◌, refl, ◌∙◌, if◌then◌else◌, ltb, leb, ◌&&◌, Option,
  none, some, [], ◌∷◌, arith, length, get_or, set, length-set,
}
use kernel_development_with.Process.{
  Table, Process, sem_kind, proc_kind, minus_one, get_file_index, first_free, new_semaphore,
  get_semaphore, get_file, set_file,
}
use kernel_development_with.Process.Handles.{IsProcess, semaphore_handle, first_free-eq_some}
use kernel_development_with.Process.Objects.{
  object_at, object_at-file, object_at-semaphore, changed, object_at-set_files,
  object_at-set_children, object_at-set_sems,
}

-- `q` is `p` with `x` behind the handle `id`, and nothing else changed.
pub record Changes (p q : Process) (id : ℕ) (x : Option ℕ) : Type 0 where
  pub sound : IsProcess q
  pub objects : (other : ℕ) → object_at q other ≡ changed p id x other

-- What an operation that allocates a handle does: with a free entry it hands out a handle that
-- had no object.
pub record Allocates (p q : Process) (id object : ℕ) : Type 0 where
  pub handle : id < 2 ^ 30
  pub fresh : object_at p id ≡ none
  pub change : Changes p q id (some object)

-- A free entry of a table.
abbrev pub HasFree : Table → Type 0
HasFree t = (i : ℕ) × (i < 10) × (get_or t i none ≡ none)

pub first_free-some :
    (t : Table) (i k : ℕ)
    → k < length t
    → get_or t k none ≡ none
    → (j : ℕ) × (first_free t i ≡ some j)
unfolding first_free
first_free-some [] i k h e = elim h [ ]
first_free-some (none ∷ t) i k h e = (i, refl)
first_free-some (some x ∷ t) i zero h e = cc
first_free-some (some x ∷ t) i (suc k) h e = first_free-some t (suc i) k (omega arith) e

-- The first free entry, of a table that has one.
pub first_free-IsFree :
    (t : Table)
    → length t ≡ 10
    → HasFree t
    → (j : ℕ) × (first_free t 0 ≡ some j) × (j < 10) × (get_or t j none ≡ none)
first_free-IsFree t l (i, h, e) =
    let (j, r) = first_free-some t 0 i (omega (arith, l)) e in
    let (a, b, c) = first_free-eq_some t 0 j r in
    let z : j - 0 ≡ j = omega arith in (j, r, omega (arith, l, b), rw z at c)

-- The three kinds of change of a table.
pub set_sems-Changes :
    (p : Process) (i : ℕ) (x : Option ℕ)
    → IsProcess p
    → i < 10
    → Changes p (record p { sems = set p.sems i x }) (sem_kind + i) x
set_sems-Changes p i x w h = record {
  sound = record { files = w.files; sems = length-set p.sems i x ∙ w.sems; children = w.children };
  objects = object_at-set_sems p i x w h;
}

pub set_children-Changes :
    (p : Process) (i : ℕ) (x : Option ℕ)
    → IsProcess p
    → i < 10
    → Changes p (record p { children = set p.children i x }) (proc_kind + i) x
set_children-Changes p i x w h = record {
  sound = record {
    files = w.files;
    sems = w.sems;
    children = length-set p.children i x ∙ w.children;
  };
  objects = object_at-set_children p i x w h;
}

pub set_files-Changes :
    (p : Process) (i : ℕ) (x : Option ℕ)
    → IsProcess p
    → i < 10
    → Changes p (record p { files = set p.files i x }) i x
set_files-Changes p i x w h = record {
  sound = record { files = length-set p.files i x ∙ w.files; sems = w.sems; children = w.children };
  objects = object_at-set_files p i x w h;
}

new_semaphore_at :
    (p : Process) (made j : ℕ)
    → j < 10
    → first_free p.sems 0 ≡ some j
    → new_semaphore p made ≡ (sem_kind + j, record p { sems = set p.sems j (some made) })
unfolding new_semaphore
new_semaphore_at p made j h r = rw (new_semaphore, r, semaphore_handle j h) refl

set_file_at :
    (p : Process) (file j : ℕ)
    → first_free p.files 0 ≡ some j
    → set_file p file ≡ (j, record p { files = set p.files j (some file) })
unfolding set_file
set_file_at p file j r = rw (set_file, r) refl

-- In a process with ten entries in each table, a semaphore entry of them free, newSemaphore hands
-- out a handle that had no object, puts the new semaphore behind it, and changes no other handle.
pub new_semaphore-Allocates :
    (p : Process) (made : ℕ)
    → IsProcess p
    → HasFree p.sems
    → Allocates p (new_semaphore p made).1 (new_semaphore p made).0 made
new_semaphore-Allocates p made w f =
    let (j, r, h, e) = first_free-IsFree p.sems w.sems f in
    rw (new_semaphore_at p made j h r) (record {
      handle = omega (arith, h);
      fresh = object_at-semaphore p j h ∙ e;
      change = set_sems-Changes p j (some made) w h;
    })

-- With a free file entry setFile hands out a handle that had no object, puts the file behind it, and
-- changes no other handle.
pub set_file-Allocates :
    (p : Process) (file : ℕ)
    → IsProcess p
    → HasFree p.files
    → Allocates p (set_file p file).1 (set_file p file).0 file
set_file-Allocates p file w f =
    let (j, r, h, e) = first_free-IsFree p.files w.files f in
    rw (set_file_at p file j r) (record {
      handle = omega (arith, h);
      fresh = object_at-file p j h ∙ e;
      change = set_files-Changes p j (some file) w h;
    })

pub first_free-IsFull :
    (t : Table) (i : ℕ) → ((k : ℕ) → k < length t → get_or t k none ≢ none) → first_free t i ≡ none
unfolding first_free
first_free-IsFull [] i f = refl
first_free-IsFull (none ∷ t) i f = elim (f 0 (omega arith) refl) [ ]
first_free-IsFull (some x ∷ t) i f =
    first_free-IsFull t (suc i) (λ k h. f (suc k) (omega (arith, h)))

-- A table without free entry.
abbrev pub IsFull : Table → Type 0
IsFull t = (k : ℕ) → k < length t → get_or t k none ≢ none

-- With every semaphore entry taken newSemaphore fails with -1 and changes nothing.
pub new_semaphore-IsFull :
    (p : Process) (made : ℕ) → IsFull p.sems → new_semaphore p made ≡ (minus_one, p)
unfolding new_semaphore
new_semaphore-IsFull p made f = rw (new_semaphore, first_free-IsFull p.sems 0 f) refl

-- With every file entry taken setFile fails with -1 and changes nothing.
pub set_file-IsFull : (p : Process) (file : ℕ) → IsFull p.files → set_file p file ≡ (minus_one, p)
unfolding set_file
set_file-IsFull p file f = rw (set_file, first_free-IsFull p.files 0 f) refl

get_semaphore-object :
    (p : Process) (id : ℕ)
    → get_semaphore p id
      ≡ (if leb sem_kind id && ltb id (sem_kind + 10) then object_at p id else none)
unfolding get_semaphore object_at
get_semaphore-object p id = ground arith

get_file-object :
    (p : Process) (id : ℕ) → get_file p id ≡ (if ltb id 10 then object_at p id else none)
unfolding get_file get_file_index object_at
get_file-object p id = ground arith

-- getSemaphore finds the object of a handle exactly if it is a semaphore's, and getFile exactly
-- if it is a file's.
pub lookups-object_at :
    (p : Process) (id : ℕ)
    → (get_semaphore p id
        ≡ (if leb sem_kind id && ltb id (sem_kind + 10) then object_at p id else none))
      × (get_file p id ≡ (if ltb id 10 then object_at p id else none))
lookups-object_at p id = (get_semaphore-object p id, get_file-object p id)
