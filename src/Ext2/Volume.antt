-- ===== src/Ext2/Volume.antt =====
-- The class Ext2 of kernel/ext2.h and kernel/ext2.cc: mounting, reading an i-node, and walking a
-- path. The structures are read at the offsets of their fields; `blocks_per_group` and
-- `inodes_per_group` of a file system are not 0.
pub mod Paths
pub mod Parts
pub mod Walk
pub mod Nodes
mod Tests
use kernel_development_with.Prelude.{
  ℕ, zero, suc, ◌+◌, ◌-◌, ◌*◌, ◌/◌, ◌%◌, ◌^◌, Bool, true, false, if◌then◌else◌, ltb, leb, ◌==◌,
  ◌||◌, Option, none, some, List, [], ◌∷◌, length, get_or, take, drop, add32, sub32, mul32,
}
use kernel_development_with.Prelude.Outcome.{Outcome, ok, panic, spinning, ◌>>=◌, ◌>>◌, assert}
use kernel_development_with.BlockIo.{BlockDevice, read_thing, read_all}
use kernel_development_with.Ext2.{NodeData, is_symlink, node_device}
use kernel_development_with.Ext2.Words.{le_number}
use kernel_development_with.Ext2.Directory
use Paths.{skip_slashes, at_end, read_part}

-- Ext2: the fields that mounting sets, less the root.
pub record Volume : Type 0 where
  pub block_size : ℕ
  pub number_of_nodes : ℕ
  pub number_of_blocks : ℕ
  pub inode_size : ℕ
  pub n_groups : ℕ
  pub inode_tables : List ℕ
  pub inodes_per_group : ℕ

-- A field of `size` bytes at `offset`.
abbrev pub field : List ℕ → ℕ → ℕ → ℕ
field bytes offset size = le_number (take size (drop offset bytes))

-- `count` fields of 4 bytes from `offset` on.
abbrev pub words : List ℕ → ℕ → ℕ → List ℕ
words bytes offset zero = []
words bytes offset (suc count) = field bytes offset 4 ∷ words bytes (offset + 4) count

-- NodeData, from the bytes of an i-node.
unfoldable pub node_data : List ℕ → NodeData
node_data bytes = record {
  mode = field bytes 0 2;
  size_low = field bytes 4 4;
  n_links = field bytes 26 2;
  n_sectors = field bytes 28 4;
  direct = words bytes 40 12;
  indirect_1 = field bytes 88 4;
  indirect_2 = field bytes 92 4;
  indirect_3 = field bytes 96 4;
}

-- The loop of the constructor over the block groups: `inode_table` of each.
unfoldable pub group_tables : ℕ → List ℕ → List ℕ
group_tables zero bytes = []
group_tables (suc groups) bytes = field bytes 8 4 ∷ group_tables groups (drop 32 bytes)

module _ (ide : BlockDevice) where
  -- The constructor, once the super block is read.
  unfoldable pub read_groups : List ℕ → Outcome Volume
  read_groups sb =
      let blocks_count : ℕ = field sb 4 4 in
      let per_group : ℕ = field sb 32 4 in
      let block_size : ℕ = 2 ^ (field sb 24 4 + 10) % 2 ^ 32 in
      let n_groups : ℕ = sub32 (add32 blocks_count per_group) 1 / per_group in
      assert (leb blocks_count (mul32 n_groups per_group))
      >> (read_thing ide (mul32 (add32 (1024 / block_size) 1) block_size) (mul32 32 n_groups)
          >>= λ groups. ok (record {
            block_size = block_size;
            number_of_nodes = field sb 0 4;
            number_of_blocks = blocks_count;
            inode_size = field sb 88 2;
            n_groups = n_groups;
            inode_tables = group_tables n_groups groups;
            inodes_per_group = field sb 40 4;
          }))

  -- get_node(number)
  unfoldable pub get_node : Volume → ℕ → Outcome NodeData
  get_node v number = do
    assert (ltb 0 number)
    assert (leb number v.number_of_nodes)
    assert (ltb ((number - 1) / v.inodes_per_group) v.n_groups)
    assert (leb (get_or v.inode_tables ((number - 1) / v.inodes_per_group) 0) v.number_of_blocks)
    bytes ←
        read_thing ide
          (add32 (mul32 (get_or v.inode_tables ((number - 1) / v.inodes_per_group) 0) v.block_size)
            (mul32 ((number - 1) % v.inodes_per_group) v.inode_size))
          128
    ok (node_data bytes)

  -- Ext2(ide): the volume and its root.
  unfoldable pub mount : Outcome (Volume × NodeData)
  mount = do sb ← read_thing ide 1024 140; v ← read_groups sb; root ← get_node v 2; ok (v, root)

  -- What find does with the number of the entry it has found.
  unfoldable pub enter : Volume → ℕ → Outcome (Option NodeData)
  enter v number = if number == 0 then ok none else (get_node v number >>= λ node. ok (some node))

  -- The loop of find(current, path): `none` is a null reference. Each round takes a byte of the
  -- path at least.
  unfoldable pub find_loop : Volume → ℕ → Option NodeData → List ℕ → Outcome (Option NodeData)
  find_loop v zero current path = spinning
  find_loop v (suc fuel) none path = ok none
  find_loop v (suc fuel) (some node) path =
      if at_end (skip_slashes path)
      then ok (some node)
      else (read_part 0 (skip_slashes path) >>= λ r.
          Directory.find ide v.block_size node r.0 >>= λ number.
          enter v number >>= λ next. find_loop v fuel next r.1)

  -- find(current, path)
  unfoldable pub find : Volume → NodeData → List ℕ → Outcome (Option NodeData)
  find v node path = find_loop v (suc (length path)) (some node) path

  -- get_symbol(buffer), on a node with its 60 bytes from `direct0` on.
  unfoldable pub get_symbol : Volume → List ℕ → NodeData → Outcome (List ℕ)
  get_symbol v inline node =
      assert (is_symlink node)
      >> (if leb node.size_low 60
          then ok (take node.size_low inline)
          else read_thing (node_device ide v.block_size node) 0 node.size_low)
