-- ===== src/Process/Handles.antt =====
-- Handles of kernel/process.cc: each belongs to one table, and the first free entry is found.
use Prim.Native.Nat.{bit_or}
use kernel_development_with.Prelude.{
  ℕ, suc, ◌+◌, ◌-◌, ◌≤◌, ◌<◌, ◌≡◌, refl, none, some, [], ◌∷◌, arith, length, get_or, low_bits,
}
use kernel_development_with.Prelude.Bits.{bit_or_nibble}
use kernel_development_with.Process.{
  Table, Process, table_size, sem_kind, proc_kind, get_semaphore_index, get_child_index,
  get_file_index, first_free,
}

-- Every table has ten entries.
pub record IsProcess (p : Process) : Type 0 where
  pub files : length p.files ≡ table_size
  pub sems : length p.sems ≡ table_size
  pub children : length p.children ≡ table_size

pub semaphore_handle : (i : ℕ) → i < 10 → bit_or sem_kind (low_bits i 28) ≡ sem_kind + i
semaphore_handle i h =
    let e : low_bits i 28 ≡ i = omega arith in rw e (bit_or_nibble sem_kind i refl (omega arith))

pub child_handle : (i : ℕ) → i < 10 → bit_or proc_kind i ≡ proc_kind + i
child_handle i h = bit_or_nibble proc_kind i refl (omega arith)

pub get_semaphore_index-handle : (i : ℕ) → i < 10 → get_semaphore_index (sem_kind + i) ≡ some i
unfolding get_semaphore_index
get_semaphore_index-handle i h = ground arith

pub get_child_index-handle : (i : ℕ) → i < 10 → get_child_index (proc_kind + i) ≡ some i
unfolding get_child_index
get_child_index-handle i h = ground arith

pub get_file_index-handle : (i : ℕ) → i < 10 → get_file_index i ≡ some i
unfolding get_file_index
get_file_index-handle i h = ground arith

-- An index stands for one handle.
pub get_semaphore_index-eq_some :
    (id i : ℕ) → get_semaphore_index id ≡ some i → (id ≡ sem_kind + i) × (i < 10)
unfolding get_semaphore_index
get_semaphore_index-eq_some id i h = ground arith

pub get_child_index-eq_some :
    (id i : ℕ) → get_child_index id ≡ some i → (id ≡ proc_kind + i) × (i < 10)
unfolding get_child_index
get_child_index-eq_some id i h = ground arith

pub get_file_index-eq_some : (id i : ℕ) → get_file_index id ≡ some i → (id ≡ i) × (i < 10)
unfolding get_file_index
get_file_index-eq_some id i h = ground arith

pub first_free-eq_some :
    (t : Table) (i j : ℕ)
    → first_free t i ≡ some j
    → (i ≤ j) × (j < i + length t) × (get_or t (j - i) none ≡ none)
unfolding first_free
first_free-eq_some [] i j h = cc
first_free-eq_some (none ∷ t) i j h =
    let e : j - i ≡ 0 = ground arith in rw e (ground arith, ground arith, refl)
first_free-eq_some (some x ∷ t) i j h =
    let ih = first_free-eq_some t (suc i) j h in
    let e : j - i ≡ suc (j - suc i) = omega (arith, ih.0) in
    rw e (omega (arith, ih.0), omega (arith, ih.1), ih.2)
