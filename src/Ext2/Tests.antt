-- ===== src/Ext2/Tests.antt =====
-- The theorems about nodes of kernel/ext2.cc at a small disk: blocks of 1024 bytes, a file of 1030
-- bytes in blocks 3 and 5, and bytes that repeat modulo 256.
use kernel_development_with.Prelude.{
  ℕ, ◌+◌, ◌*◌, ◌%◌, ◌≤◌, ◌<◌, ◌≡◌, refl, some, [], ◌∷◌, arith, dec_lt,
}
use kernel_development_with.Prelude.Outcome.{ok, panic}
use kernel_development_with.BlockIo.{BlockDevice, read_all}
use kernel_development_with.BlockIo.Slices.{slice}
use kernel_development_with.BlockIo.Reads.{Serves}
use kernel_development_with.Ext2.{NodeData, find_block, node_device}
use kernel_development_with.Ext2.Blocks.{block_of, find_block-block_of, find_block-triple}
use kernel_development_with.Ext2.Contents.{file_bytes, IsSound, read_all-file}

abbrev bytes : ℕ → ℕ
bytes i = i % 256

abbrev disk : BlockDevice
disk = record {
  block_size = 512;
  size_in_bytes = 0x10000;
  read_block = λ b. ok (slice bytes (b * 512) 512);
}

disk-Serves : Serves disk bytes
disk-Serves = record {
  some_block = omega arith;
  small_block = omega arith;
  fits = omega arith;
  blocks = λ b h. refl;
}

abbrev file : NodeData
file = record {
  mode = 0x81a4;
  size_low = 1030;
  n_links = 1;
  n_sectors = 4;
  direct = 3 ∷ 5 ∷ [];
  indirect_1 = 0;
  indirect_2 = 0;
  indirect_3 = 9;
}

file-block : (b : ℕ) → b * 1024 < 1030 → block_of bytes 1024 file b * 1024 + 1024 ≤ 0x10000
file-block b h = elim (dec_lt b 1) [
  | yes z ↦ let e : b ≡ 0 = omega arith in rw e (omega arith)
  | no o ↦ let e : b ≡ 1 = omega arith in rw e (omega arith)
]

file-IsSound : IsSound 0x10000 bytes 1024 file
file-IsSound = record {
  big = omega arith;
  small = omega arith;
  small_block = omega arith;
  small_file = omega arith;
  counted = λ b h. omega arith;
  reachable = λ b h. omega arith;
  placed = λ b h. record {
    single = λ k l. absurd (omega arith);
    outer = λ k. absurd (omega arith);
    inner = λ k. absurd (omega arith);
  };
  stored = file-block;
}

read_all-file_example :
    read_all (node_device disk 1024 file) 1022 20
    ≡ ok (some (slice (file_bytes bytes 1024 file) 1022 8))
read_all-file_example =
    read_all-file disk bytes disk-Serves 1024 file file-IsSound 1022 20 (omega arith) (omega arith)

find_block-block_of_example : find_block disk 1024 file 1 ≡ ok (block_of bytes 1024 file 1)
find_block-block_of_example =
    find_block-block_of disk bytes disk-Serves 1024 file 1 (omega arith) (omega arith)
      (file-IsSound.placed 1 (omega arith))

find_block-triple_example : find_block disk 1024 file 70000 ≡ panic
find_block-triple_example =
    find_block-triple disk bytes disk-Serves 1024 file 70000 (omega arith) (omega arith)
