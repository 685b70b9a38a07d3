-- ===== src/OpenFile/Tests.antt =====
-- The theorems about open files of kernel/openfilestruct.h at a file of 24 bytes in one block.
use kernel_development_with.Prelude.{ℕ, ◌+◌, ◌*◌, ◌≤◌, ◌<◌, ◌≡◌, refl, [], ◌∷◌, arith}
use kernel_development_with.Prelude.Outcome.{ok}
use kernel_development_with.BlockIo.{BlockDevice}
use kernel_development_with.BlockIo.Slices.{slice}
use kernel_development_with.BlockIo.Reads.{Serves}
use kernel_development_with.Ext2.{NodeData}
use kernel_development_with.Ext2.Blocks.{block_of}
use kernel_development_with.Ext2.Contents.{file_bytes, IsSound, node-Serves}
use kernel_development_with.OpenFile.Laws.{IsOpen, read-read, read_twice, read_once}

abbrev device : BlockDevice
device = record {
  block_size = 512;
  size_in_bytes = 0x10000;
  read_block = λ b. ok (slice (λ i. i) (b * 512) 512);
}

device-Serves : Serves device (λ i. i)
device-Serves = record {
  some_block = omega arith;
  small_block = omega arith;
  fits = omega arith;
  blocks = λ b h. refl;
}

abbrev node : NodeData
node = record {
  mode = 0x81a4;
  size_low = 24;
  n_links = 1;
  n_sectors = 2;
  direct = 2 ∷ [];
  indirect_1 = 0;
  indirect_2 = 0;
  indirect_3 = 0;
}

node-block : (b : ℕ) → b * 1024 < 24 → block_of (λ i. i) 1024 node b * 1024 + 1024 ≤ 0x10000
node-block b h = let e : b ≡ 0 = omega arith in rw e (omega arith)

node-IsSound : IsSound 0x10000 (λ i. i) 1024 node
node-IsSound = record {
  big = omega arith;
  small = omega arith;
  small_block = omega arith;
  small_file = omega arith;
  counted = λ b h. omega arith;
  reachable = λ b h. omega arith;
  placed = λ b h. record {
    single = λ k l. absurd (omega arith);
    outer = λ k. absurd (omega arith);
    inner = λ k. absurd (omega arith);
  };
  stored = node-block;
}

twenty-IsOpen : IsOpen (record { node = node; my_offset = 20 })
twenty-IsOpen = record { within = omega arith; small = omega arith }

read-read_example :
    read_twice device 1024 (record { node = node; my_offset = 20 }) 1 2
    ≡ read_once device 1024 (record { node = node; my_offset = 20 }) 3
read-read_example =
    read-read device 1024 node (file_bytes (λ i. i) 1024 node)
      (node-Serves device (λ i. i) device-Serves 1024 node node-IsSound) 20 1 2 twenty-IsOpen
      (omega arith)
