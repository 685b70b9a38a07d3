-- ===== src/Ext2/Volume/Nodes.antt =====
-- Ext2::get_node of kernel/ext2.cc: which bytes of the disk an i-node is, and which numbers panic.
use kernel_development_with.Prelude.{
  ℕ, ◌+◌, ◌-◌, ◌*◌, ◌/◌, ◌%◌, ◌^◌, ◌≤◌, ◌<◌, ◌≡◌, ◌⊎◌, inl, inr, ltb, gt→leb, ge→ltb, Bool-cases,
  refl, arith, get_or, add32, mul32, lt→ltb, le→leb,
}
use kernel_development_with.Prelude.Outcome.{ok, panic}
use kernel_development_with.BlockIo.{BlockDevice}
use kernel_development_with.BlockIo.Slices.{slice}
use kernel_development_with.BlockIo.Reads.{Serves, read_thing-slice}
use kernel_development_with.Ext2.Volume.{Volume, get_node, node_data}

-- Where ext2 keeps the i-node of a number: in the table of its group.
abbrev pub group_of : Volume → ℕ → ℕ
group_of v number = (number - 1) / v.inodes_per_group

abbrev pub table_of : Volume → ℕ → ℕ
table_of v number = get_or v.inode_tables (group_of v number) 0

abbrev pub place_of : Volume → ℕ → ℕ
place_of v number =
    table_of v number * v.block_size + (number - 1) % v.inodes_per_group * v.inode_size

-- A number whose i-node is on the disk.
pub record IsNumber (v : Volume) (disk number : ℕ) : Type 0 where
  pub positive : 0 < number
  pub known : number ≤ v.number_of_nodes
  pub group : group_of v number < v.n_groups
  pub table : table_of v number ≤ v.number_of_blocks
  pub inside : place_of v number + 128 ≤ disk

module _ (ide : BlockDevice) (content : ℕ → ℕ) (serves : Serves ide content) (v : Volume) where
  -- On a device of less than 2 ^ 32 bytes, for a number within the file system whose i-node is on
  -- the device, get_node returns the i-node from the 128 bytes at its place.
  pub get_node-slice :
      (number : ℕ)
      → IsNumber v ide.size_in_bytes number
      → ide.size_in_bytes < 2 ^ 32
      → get_node ide v number ≡ ok (node_data (slice content (place_of v number) 128))
  unfolding get_node
  get_node-slice number i small =
      let a : mul32 (table_of v number) v.block_size ≡ table_of v number * v.block_size =
        omega (arith, i.inside) in
      let b : mul32 ((number - 1) % v.inodes_per_group) v.inode_size
          ≡ (number - 1) % v.inodes_per_group * v.inode_size =
        omega (arith, i.inside) in
      let c : add32 (table_of v number * v.block_size)
            ((number - 1) % v.inodes_per_group * v.inode_size)
          ≡ place_of v number =
        omega (arith, i.inside) in
      rw
        (
          get_node,
          lt→ltb 0 number i.positive,
          le→leb number v.number_of_nodes i.known,
          lt→ltb (group_of v number) v.n_groups i.group,
          le→leb (table_of v number) v.number_of_blocks i.table,
          a,
          b,
          c,
          read_thing-slice ide content serves (place_of v number) 128 (omega arith) i.inside,
        )
        refl

-- The number 0 and the numbers past the last panic.
pub get_node-panic :
    (ide : BlockDevice) (v : Volume) (number : ℕ)
    → (number ≡ 0) ⊎ (v.number_of_nodes < number)
    → get_node ide v number ≡ panic
unfolding get_node
get_node-panic ide v number (inl z) = rw (get_node, ge→ltb 0 number (omega (arith, z))) refl
get_node-panic ide v number (inr h) = elim (Bool-cases (ltb 0 number)) [
  | inl p ↦ rw (get_node, p, gt→leb number v.number_of_nodes h) refl
  | inr p ↦ rw (get_node, p) refl
]
