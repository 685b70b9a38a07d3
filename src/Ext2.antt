-- ===== src/Ext2.antt =====
-- kernel/ext2.h and kernel/ext2.cc: the read-only ext2 file system. A node reads its blocks
-- through the block pointers that it finds on the device, and is a block device itself.
pub mod Words
pub mod Blocks
pub mod Contents
pub mod Directory
pub mod Volume
mod Tests
use kernel_development_with.Prelude.{
  ℕ, ◌+◌, ◌-◌, ◌*◌, ◌/◌, ◌%◌, ◌^◌, Bool, if◌then◌else◌, ltb, leb, ◌==◌, Option, none, some, List,
  length, get_or, add32, sub32, mul32, shr,
}
use kernel_development_with.Prelude.Outcome.{Outcome, ok, panic, ◌>>=◌, ◌>>◌, assert}
use kernel_development_with.BlockIo.{BlockDevice, read_all, read_thing}
use Words.{le_number}

-- NodeData: the fields that the code reads; `direct` is direct0 to direct11.
pub record NodeData : Type 0 where
  pub mode : ℕ
  pub size_low : ℕ
  pub n_links : ℕ
  pub n_sectors : ℕ
  pub direct : List ℕ
  pub indirect_1 : ℕ
  pub indirect_2 : ℕ
  pub indirect_3 : ℕ

-- NodeData::get_type, is_dir, is_file, is_symlink
abbrev pub get_type : NodeData → ℕ
get_type d = shr d.mode 12

abbrev pub is_dir : NodeData → Bool
is_dir d = get_type d == 4

abbrev pub is_file : NodeData → Bool
is_file d = get_type d == 8

abbrev pub is_symlink : NodeData → Bool
is_symlink d = get_type d == 0xa

module _ (ide : BlockDevice) where
  -- ide->read(offset, x) at a `uint32_t x`.
  unfoldable pub read_word : ℕ → Outcome ℕ
  read_word offset = read_thing ide offset 4 >>= λ bytes. ok (le_number bytes)

  -- Node::read_block: the choice of `block_index`, in the order of its tests.
  unfoldable pub find_block : ℕ → NodeData → ℕ → Outcome ℕ
  find_block block_size node index =
      let refs_per_block : ℕ = block_size / 4 in
      if ltb index 12
      then ok (get_or node.direct index 0)
      else if ltb index (add32 12 refs_per_block)
      then read_word (add32 (mul32 node.indirect_1 block_size) (mul32 (index - 12) 4))
      else if ltb index (add32 (add32 12 refs_per_block) (mul32 refs_per_block refs_per_block))
      then (let rest : ℕ = index - 12 - refs_per_block in
          read_word (add32 (mul32 node.indirect_2 block_size) (mul32 (rest / refs_per_block) 4))
          >>= λ singly_block.
              read_word (add32 (mul32 singly_block block_size) (mul32 (rest % refs_per_block) 4)))
      else if ltb index (add32 (add32 12 refs_per_block) (mul32 refs_per_block refs_per_block))
      then (let square : ℕ = mul32 refs_per_block refs_per_block in
          let rest : ℕ = sub32 (sub32 (sub32 index 12) refs_per_block) square in
          read_word (add32 (mul32 node.indirect_3 block_size) (mul32 (rest / square) 4))
          >>= λ doubly_block.
              read_word (
                add32 (mul32 doubly_block block_size)
                  (mul32 ((rest / refs_per_block) % refs_per_block) 4))
              >>= λ singly_block.
                  read_word (add32 (mul32 singly_block block_size) (rest % refs_per_block)))
      else panic

  -- Node::read_block(index, buffer)
  unfoldable pub read_block : ℕ → NodeData → ℕ → Outcome (List ℕ)
  read_block block_size node index = do
    assert (ltb index (node.n_sectors / (block_size / 512)))
    block_index ← find_block block_size node index
    read_thing ide (mul32 block_index block_size) block_size

  -- A node is a block device: Node derives from BlockIO.
  abbrev pub node_device : ℕ → NodeData → BlockDevice
  node_device block_size node = record {
    block_size = block_size;
    size_in_bytes = node.size_low;
    read_block = read_block block_size node;
  }
