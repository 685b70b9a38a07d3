-- ===== src/Ext2/Directory.antt =====
-- Node::entries, find and entry_count of kernel/ext2.h and kernel/ext2.cc: a directory is read as
-- any file, and its entries follow one another by their sizes.
pub mod Lookup
mod Tests
use kernel_development_with.Prelude.{
  ℕ, zero, suc, ◌+◌, ◌%◌, ◌^◌, Bool, true, false, if◌then◌else◌, ltb, List, add32,
}
use kernel_development_with.Prelude.Outcome.{Outcome, ok, spinning, ◌>>=◌, ◌>>◌, assert}
use kernel_development_with.K.{streq}
use kernel_development_with.BlockIo.{BlockDevice, read_thing}
use kernel_development_with.Ext2.{NodeData, is_dir, node_device}
use kernel_development_with.Ext2.Words.{le_number}

-- What the loop of `entries` reads of one directory entry.
pub record Entry : Type 0 where
  pub inode : ℕ
  pub total : ℕ
  pub name : List ℕ

-- The reads in one round of the loop of `entries`.
unfoldable pub read_entry : BlockDevice → ℕ → Outcome Entry
read_entry dev offset = do
  inode ← read_thing dev offset 4
  total_size ← read_thing dev (add32 offset 4) 2
  name_length ← read_thing dev (add32 offset 6) 1
  name ← read_thing dev (add32 offset 8) (le_number name_length)
  ok (record { inode = le_number inode; total = le_number total_size; name = name })

module _ (dev : BlockDevice) {S : Type 0} (work : ℕ → List ℕ → S → S) where
  -- The loop of `entries`, from `offset` on. Each round moves on by the size in the entry, which
  -- may be 0 on a damaged disk: then the loop does not end.
  unfoldable pub entries_loop : ℕ → ℕ → S → Outcome S
  entries_loop zero offset s = spinning
  entries_loop (suc fuel) offset s = elim (ltb offset dev.size_in_bytes) [
    | false ↦ ok s
    | true ↦ read_entry dev offset >>= λ e.
        entries_loop fuel (add32 offset e.total) (work e.inode e.name s)
  ]

  -- entries(work). An entry takes 8 bytes at least, so one round more than the bytes are enough.
  unfoldable pub entries : Bool → S → Outcome S
  unfolding entries_loop
  entries directory s = assert directory >> entries_loop (suc dev.size_in_bytes) 0 s

module _ (ide : BlockDevice) (block_size : ℕ) (node : NodeData) where
  -- find(name): 0 if there is no such entry. The callback keeps the last match.
  unfoldable pub find : List ℕ → Outcome ℕ
  unfolding entries
  find name =
      entries (node_device ide block_size node)
        (λ number nm out. if streq name nm then number else out) (is_dir node) 0

  -- entry_count(), in 32 bits.
  unfoldable pub entry_count : Outcome ℕ
  unfolding entries
  entry_count =
      entries (node_device ide block_size node) (λ _ _ count. (count + 1) % 2 ^ 32) (is_dir node) 0
