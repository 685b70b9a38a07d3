-- ===== src/Ext2/Directory/Tests.antt =====
-- The theorems about directories of kernel/ext2.cc at a directory with the entries "a" and "b".
use kernel_development_with.Prelude.{ℕ, ◌+◌, ◌*◌, ◌≤◌, ◌<◌, ◌≡◌, refl, List, [], ◌∷◌, arith, get_or}
use kernel_development_with.Prelude.Outcome.{ok}
use kernel_development_with.K.{streq}
use kernel_development_with.BlockIo.{BlockDevice}
use kernel_development_with.BlockIo.Slices.{slice}
use kernel_development_with.BlockIo.Reads.{Serves}
use kernel_development_with.Ext2.{NodeData}
use kernel_development_with.Ext2.Blocks.{block_of}
use kernel_development_with.Ext2.Contents.{file_bytes, IsSound, node-Serves}
use kernel_development_with.Ext2.Directory.{Entry, find}
use kernel_development_with.Ext2.Directory.Lookup.{Directory, find-last_match}

abbrev bytes : List ℕ
bytes =
    11 ∷ 0 ∷ 0 ∷ 0 ∷ 12 ∷ 0 ∷ 1 ∷ 2 ∷ b'a' ∷ 0 ∷ 0 ∷ 0 ∷ 12 ∷ 0 ∷ 0 ∷ 0 ∷ 12 ∷ 0 ∷ 1 ∷ 2 ∷ b'b' ∷ 0
    ∷ 0 ∷ 0 ∷ []

abbrev device : BlockDevice
device = record {
  block_size = 512;
  size_in_bytes = 0x10000;
  read_block = λ b. ok (slice (λ i. get_or bytes i 0) (b * 512) 512);
}

device-Serves : Serves device (λ i. get_or bytes i 0)
device-Serves = record {
  some_block = omega arith;
  small_block = omega arith;
  fits = omega arith;
  blocks = λ b h. refl;
}

abbrev folder : NodeData
folder = record {
  mode = 0x41ed;
  size_low = 24;
  n_links = 2;
  n_sectors = 2;
  direct = 0 ∷ [];
  indirect_1 = 0;
  indirect_2 = 0;
  indirect_3 = 0;
}

folder-block :
    (b : ℕ) → b * 1024 < 24 → block_of (λ i. get_or bytes i 0) 1024 folder b * 1024 + 1024 ≤ 0x10000
folder-block b h = let e : b ≡ 0 = omega arith in rw e (omega arith)

folder-IsSound : IsSound 0x10000 (λ i. get_or bytes i 0) 1024 folder
folder-IsSound = record {
  big = omega arith;
  small = omega arith;
  small_block = omega arith;
  small_file = omega arith;
  counted = λ b h. omega arith;
  reachable = λ b h. omega arith;
  placed = λ b h. record {
    single = λ k l. absurd (omega arith);
    outer = λ k. absurd (omega arith);
    inner = λ k. absurd (omega arith);
  };
  stored = folder-block;
}

abbrev entries_ab : List Entry
entries_ab =
    record { inode = 11; total = 12; name = b'a' ∷ [] }
    ∷ record { inode = 12; total = 12; name = b'b' ∷ [] }
    ∷ []

folder-Directory : Directory (file_bytes (λ i. get_or bytes i 0) 1024 folder) 24 0 entries_ab
unfolding file_bytes
folder-Directory = (
  record {
    inode = refl;
    total = refl;
    name_length = refl;
    name = refl;
    fits = omega arith;
    inside = omega arith;
  },
  (
    record {
      inode = refl;
      total = refl;
      name_length = refl;
      name = refl;
      fits = omega arith;
      inside = omega arith;
    },
    refl,
  ),
)

find-last_match_example : find device 1024 folder (b'b' ∷ []) ≡ ok 12
unfolding streq
find-last_match_example =
    find-last_match device 1024 folder (file_bytes (λ i. get_or bytes i 0) 1024 folder)
      (node-Serves device (λ i. get_or bytes i 0) device-Serves 1024 folder folder-IsSound)
      (b'b' ∷ []) entries_ab folder-Directory
