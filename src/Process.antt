-- ===== src/Process.antt =====
-- kernel/process.h and kernel/process.cc: the handle tables of a process. A handle is a 32-bit
-- pattern: 4 bits of kind over 28 bits of index. A file, a semaphore or a child's future is its
-- address; a table entry is `none` where the source has a null reference. The tables are used
-- under the process's mutex, or by its only thread.
pub mod Handles
pub mod Objects
pub mod Tables
pub mod Closing
pub mod Family
mod Tests
use Prim.Native.Nat.{bit_or}
use kernel_development_with.Prelude.{
  ℕ, zero, suc, ◌-◌, ◌^◌, Bool, if◌then◌else◌, leb, ◌==◌, not, ◌||◌, Option, none, some, List, [],
  ◌∷◌, get_or, set, low_bits, clear_low,
}

abbrev pub table_size : ℕ
table_size = 10

-- FL, PROC and SEM.
abbrev pub fl_kind : ℕ
fl_kind = 0x00000000

abbrev pub proc_kind : ℕ
proc_kind = 0x10000000

abbrev pub sem_kind : ℕ
sem_kind = 0x20000000

abbrev pub minus_one : ℕ
minus_one = 2 ^ 32 - 1

abbrev pub Table : Type 0
Table = List (Option ℕ)

abbrev pub no_entries : Table
no_entries = none ∷ none ∷ none ∷ none ∷ none ∷ none ∷ none ∷ none ∷ none ∷ none ∷ []

-- Process: its three tables and the future that its exit sets.
pub record Process : Type 0 where
  pub files : Table
  pub sems : Table
  pub children : Table
  pub output : ℕ

-- getSemaphoreIndex, getChildIndex and getFileIndex differ in the kind; `none` is -1.
abbrev index_of : ℕ → ℕ → Option ℕ
index_of kind id =
    if not (clear_low id 28 == kind)
    then none
    else if leb table_size (low_bits id 28)
    then none
    else some (low_bits id 28)

unfoldable pub get_semaphore_index : ℕ → Option ℕ
get_semaphore_index id = index_of sem_kind id

unfoldable pub get_child_index : ℕ → Option ℕ
get_child_index id = index_of proc_kind id

unfoldable pub get_file_index : ℕ → Option ℕ
get_file_index id = index_of fl_kind id

-- The loops that look for the first free entry, from index `i` on.
unfoldable pub first_free : Table → ℕ → Option ℕ
first_free [] i = none
first_free (none ∷ t) i = some i
first_free (some x ∷ t) i = first_free t (suc i)

-- newSemaphore(init): `made` is the new semaphore.
unfoldable pub new_semaphore : Process → ℕ → ℕ × Process
new_semaphore p made = elim (first_free p.sems 0) [
  | none ↦ (minus_one, p)
  | some i ↦ (bit_or sem_kind (low_bits i 28), record p { sems = set p.sems i (some made) })
]

-- getSemaphore(id)
unfoldable pub get_semaphore : Process → ℕ → Option ℕ
get_semaphore p id =
    if leb table_size (low_bits id 28) || not (clear_low id 28 == sem_kind)
    then none
    else get_or p.sems (low_bits id 28) none

-- getFile(fd): the entry is read at `fd` itself.
unfoldable pub get_file : Process → ℕ → Option ℕ
get_file p fd = elim (get_file_index fd) [ none ↦ none | some i ↦ get_or p.files fd none ]

-- setFile(file)
unfoldable pub set_file : Process → ℕ → ℕ × Process
set_file p file = elim (first_free p.files 0) [
  | none ↦ (minus_one, p)
  | some i ↦ (i, record p { files = set p.files i (some file) })
]

-- What `close` does to the entry of one table: -1 and no change if it is null.
abbrev pub clear_entry : Table → ℕ → ℕ × Table
clear_entry t i = elim (get_or t i none) [ none ↦ (minus_one, t) | some x ↦ (0, set t i none) ]

abbrev pub close_file : Process → ℕ → ℕ × Process
close_file p id = elim (get_file_index id) [
  | none ↦ (minus_one, p)
  | some i ↦ let (r, t) = clear_entry p.files i in (r, record p { files = t })
]

abbrev pub close_child : Process → ℕ → ℕ × Process
close_child p id = elim (get_child_index id) [
  | none ↦ close_file p id
  | some i ↦ let (r, t) = clear_entry p.children i in (r, record p { children = t })
]

-- close(id)
unfoldable pub close : Process → ℕ → ℕ × Process
close p id = elim (get_semaphore_index id) [
  | none ↦ close_child p id
  | some i ↦ let (r, t) = clear_entry p.sems i in (r, record p { sems = t })
]

-- wait(id, ptr), once the child's future is set: `exit_value` is what its `get` returns. The
-- result comes with the value written through `ptr`, if one is.
unfoldable pub wait : Process → ℕ → (ℕ → ℕ) → ℕ × Option ℕ × Process
wait p id exit_value = elim (get_child_index id) [
  | none ↦ (minus_one, none, p)
  | some i ↦ elim (get_or p.children i none) [
    | none ↦ (minus_one, none, p)
    | some e ↦ (0, some (exit_value e), record p { children = set p.children i none })
  ]
]

-- fork: the child, which inherits the tables, in the entry i of the parent. `output` is its new
-- future.
abbrev pub inherited : Process → ℕ → ℕ → ℕ × Option Process × Process
inherited p output i = (
  bit_or proc_kind i,
  some (record { files = p.files; sems = p.sems; children = no_entries; output = output }),
  record p { children = set p.children i (some output) },
)

-- fork(id), less the copy of the address space. The result is the handle, the child if there is
-- one, and the parent.
unfoldable pub fork : Process → ℕ → ℕ × Option Process × Process
fork p output = elim (first_free p.children 0) [
  | none ↦ (minus_one, none, p)
  | some i ↦ inherited p output i
]
