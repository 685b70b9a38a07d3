-- ===== src/Process/Objects.antt =====
-- The tables of kernel/process.cc as one map from handles to objects, and what an entry's change
-- does to it.
use kernel_development_with.Prelude.{
  ℕ, ◌+◌, ◌-◌, ◌<◌, ◌≡◌, refl, sym, if◌then◌else◌, ltb, leb, ◌==◌, ◌&&◌, Option, none, arith,
  length, get_or, set, ℕ_discrete, lt→ltb, ge→ltb, le→leb, eq→==, ne→==, get_or-set_self,
  get_or-set_ne,
}
use kernel_development_with.Process.{
  Table, Process, sem_kind, proc_kind, get_semaphore_index, get_child_index, get_file_index,
}
use kernel_development_with.Process.Handles.{IsProcess}

-- The object of a handle: ten handles stand for each table.
unfoldable pub object_at : Process → ℕ → Option ℕ
object_at p id =
    if ltb id 10
    then get_or p.files id none
    else if leb proc_kind id && ltb id (proc_kind + 10)
    then get_or p.children (id - proc_kind) none
    else if leb sem_kind id && ltb id (sem_kind + 10)
    then get_or p.sems (id - sem_kind) none
    else none

pub object_at-file : (p : Process) (i : ℕ) → i < 10 → object_at p i ≡ get_or p.files i none
unfolding object_at
object_at-file p i h = rw (lt→ltb i 10 h)

pub object_at-child :
    (p : Process) (i : ℕ) → i < 10 → object_at p (proc_kind + i) ≡ get_or p.children i none
unfolding object_at
object_at-child p i h =
    let e : proc_kind + i - proc_kind ≡ i = omega arith in
    rw (
      ge→ltb (proc_kind + i) 10 (omega arith),
      le→leb proc_kind (proc_kind + i) (omega arith),
      lt→ltb (proc_kind + i) (proc_kind + 10) (omega arith),
      e,
    )

pub object_at-semaphore :
    (p : Process) (i : ℕ) → i < 10 → object_at p (sem_kind + i) ≡ get_or p.sems i none
unfolding object_at
object_at-semaphore p i h =
    let e : sem_kind + i - sem_kind ≡ i = omega arith in
    rw (
      ge→ltb (sem_kind + i) 10 (omega arith),
      ge→ltb (sem_kind + i) (proc_kind + 10) (omega arith),
      le→leb proc_kind (sem_kind + i) (omega arith),
      le→leb sem_kind (sem_kind + i) (omega arith),
      lt→ltb (sem_kind + i) (sem_kind + 10) (omega arith),
      e,
    )

-- A handle that belongs to no table has no object.
pub object_at-neither :
    (p : Process) (id : ℕ)
    → get_semaphore_index id ≡ none
    → get_child_index id ≡ none
    → get_file_index id ≡ none
    → object_at p id ≡ none
unfolding object_at get_semaphore_index get_child_index get_file_index
object_at-neither p id s c f = ground arith

-- `p` with another object behind one handle.
abbrev pub changed : Process → ℕ → Option ℕ → ℕ → Option ℕ
changed p id x other = if other == id then x else object_at p other

get_or-set :
    (t : Table) (i j : ℕ) (x : Option ℕ)
    → i < length t
    → get_or (set t i x) j none ≡ (if j == i then x else get_or t j none)
get_or-set t i j x h = elim (ℕ_discrete j i) [
  | yes e ↦ rw (e, eq→== i i refl, get_or-set_self t i x none h)
  | no n ↦ rw (ne→== j i n, get_or-set_ne t i j x none (λ e. n (sym e)))
]

pub object_at-set_files :
    (p : Process) (i : ℕ) (x : Option ℕ)
    → IsProcess p
    → i < 10
    → (other : ℕ) → object_at (record p { files = set p.files i x }) other ≡ changed p i x other
unfolding object_at
object_at-set_files p i x w h other =
    let e = get_or-set p.files i other x (omega (arith, w.files)) in ground arith

pub object_at-set_children :
    (p : Process) (i : ℕ) (x : Option ℕ)
    → IsProcess p
    → i < 10
    → (other : ℕ)
    → object_at (record p { children = set p.children i x }) other
      ≡ changed p (proc_kind + i) x other
unfolding object_at
object_at-set_children p i x w h other =
    let e = get_or-set p.children i (other - proc_kind) x (omega (arith, w.children)) in
    ground arith

pub object_at-set_sems :
    (p : Process) (i : ℕ) (x : Option ℕ)
    → IsProcess p
    → i < 10
    → (other : ℕ)
    → object_at (record p { sems = set p.sems i x }) other ≡ changed p (sem_kind + i) x other
unfolding object_at
object_at-set_sems p i x w h other =
    let e = get_or-set p.sems i (other - sem_kind) x (omega (arith, w.sems)) in ground arith
