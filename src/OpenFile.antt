-- ===== src/OpenFile.antt =====
-- kernel/openfilestruct.h: a file opened on an ext2 node, with its own offset. `off_t`, `size_t`
-- and the results are 32-bit patterns, so -1 is 2 ^ 32 - 1.
pub mod Laws
mod Tests
use kernel_development_with.Prelude.{
  ℕ, ◌+◌, ◌-◌, ◌%◌, ◌^◌, Bool, if◌then◌else◌, ltb, ◌==◌, Option, none, some, List, [], length,
  add32,
}
use kernel_development_with.Prelude.Outcome.{Outcome, ok, ◌>>=◌}
use kernel_development_with.BlockIo.{BlockDevice, read_all}
use kernel_development_with.Ext2.{NodeData, is_file, is_dir, node_device}

abbrev pub minus_one : ℕ
minus_one = 2 ^ 32 - 1

-- OpenFileStruct: the node, as the device that it is, and the offset.
pub record OpenFile : Type 0 where
  pub node : NodeData
  pub my_offset : ℕ

-- OpenFileStruct(node)
abbrev pub open_node : NodeData → OpenFile
open_node node = record { node = node; my_offset = 0 }

-- isFile(), isDirectory(), size(), getOffset()
abbrev pub is_regular : OpenFile → Bool
is_regular f = is_file f.node

abbrev pub is_directory : OpenFile → Bool
is_directory f = is_dir f.node

abbrev pub size : OpenFile → ℕ
size f = f.node.size_low

-- seek(off_t offset): `off_t` is unsigned, so no offset is below 0.
unfoldable pub seek : OpenFile → ℕ → ℕ × OpenFile
seek f offset =
    if ltb f.node.size_low offset then (minus_one, f) else (offset, record f { my_offset = offset })

-- What `read` gives: its result, the bytes in the buffer, and the file.
pub record Reading : Type 0 where
  pub result : ℕ
  pub bytes : List ℕ
  pub file : OpenFile

-- The result of `read_all` as an `int`, and the bytes.
abbrev pub as_int : Option (List ℕ) → ℕ
as_int none = minus_one
as_int (some bytes) = length bytes % 2 ^ 32

abbrev pub delivered : Option (List ℕ) → List ℕ
delivered none = []
delivered (some bytes) = bytes

module _ (ide : BlockDevice) (block_size : ℕ) where
  -- read(void* buffer, size_t n)
  unfoldable pub read : OpenFile → ℕ → Outcome Reading
  read f n =
      if n == 0
      then ok (record { result = 0; bytes = []; file = f })
      else (read_all (node_device ide block_size f.node) f.my_offset n >>= λ reply. ok (record {
        result = as_int reply;
        bytes = delivered reply;
        file = record f { my_offset = add32 f.my_offset (as_int reply) };
      }))

-- write(void* buffer, size_t n): files are read-only.
abbrev pub write : OpenFile → ℕ
write f = minus_one
