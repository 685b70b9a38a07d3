-- ===== src/Ext2/Volume/Tests.antt =====
-- A path walk and an i-node of kernel/ext2.h on a disk that begins with a directory of "a" and "b".
use kernel_development_with.Prelude.{ℕ, ◌*◌, ◌≡◌, refl, List, [], ◌∷◌, arith, get_or}
use kernel_development_with.Prelude.Outcome.{ok}
use kernel_development_with.BlockIo.{BlockDevice}
use kernel_development_with.BlockIo.Slices.{slice}
use kernel_development_with.BlockIo.Reads.{Serves}
use kernel_development_with.Ext2.{NodeData}
use kernel_development_with.Ext2.Volume.{Volume, get_node, node_data, find}
use kernel_development_with.Ext2.Volume.Parts.{parts, segments}
use kernel_development_with.Ext2.Volume.Walk.{walk, find-walk}
use kernel_development_with.Ext2.Volume.Nodes.{IsNumber, place_of, get_node-slice}

abbrev bytes : List ℕ
bytes =
    11 ∷ 0 ∷ 0 ∷ 0 ∷ 12 ∷ 0 ∷ 1 ∷ 2 ∷ b'a' ∷ 0 ∷ 0 ∷ 0 ∷ 12 ∷ 0 ∷ 0 ∷ 0 ∷ 12 ∷ 0 ∷ 1 ∷ 2 ∷ b'b' ∷ 0
    ∷ 0 ∷ 0 ∷ []

abbrev device : BlockDevice
device = record {
  block_size = 512;
  size_in_bytes = 0x10000;
  read_block = λ b. ok (slice (λ i. get_or bytes i 0) (b * 512) 512);
}

device-Serves : Serves device (λ i. get_or bytes i 0)
device-Serves = record {
  some_block = omega arith;
  small_block = omega arith;
  fits = omega arith;
  blocks = λ b h. refl;
}

abbrev folder : NodeData
folder = record {
  mode = 0x41ed;
  size_low = 24;
  n_links = 2;
  n_sectors = 2;
  direct = 0 ∷ [];
  indirect_1 = 0;
  indirect_2 = 0;
  indirect_3 = 0;
}

abbrev volume : Volume
volume = record {
  block_size = 1024;
  number_of_nodes = 32;
  number_of_blocks = 64;
  inode_size = 128;
  n_groups = 1;
  inode_tables = 5 ∷ [];
  inodes_per_group = 32;
}

-- "/a//b/"
abbrev path : List ℕ
path = b'/' ∷ b'a' ∷ b'/' ∷ b'/' ∷ b'b' ∷ b'/' ∷ []

parts_test : parts path ≡ (b'a' ∷ []) ∷ (b'b' ∷ []) ∷ []
unfolding segments
parts_test = refl

find-walk_example : find device volume folder path ≡ walk device volume folder (parts path)
find-walk_example = find-walk device volume folder path

eleven-IsNumber : IsNumber volume 0x10000 11
eleven-IsNumber = record {
  positive = omega arith;
  known = omega arith;
  group = omega arith;
  table = omega arith;
  inside = omega arith;
}

get_node-slice_example :
    get_node device volume 11
    ≡ ok (node_data (slice (λ i. get_or bytes i 0) (place_of volume 11) 128))
get_node-slice_example =
    get_node-slice device (λ i. get_or bytes i 0) device-Serves volume 11 eleven-IsNumber
      (omega arith)
