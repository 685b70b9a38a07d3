-- ===== src/BlockIo/Tests.antt =====
-- Tests of kernel/block_io.cc on a device of 10 bytes in blocks of 4, whose byte `i` is `i + 1`.
use kernel_development_with.Prelude.{◌+◌, ◌*◌, ◌≡◌, refl, some, [], ◌∷◌, arith}
use kernel_development_with.Prelude.Outcome.{ok}
use kernel_development_with.BlockIo.{BlockDevice, size_in_blocks, read, read_all}
use kernel_development_with.BlockIo.Slices.{slice}
use kernel_development_with.BlockIo.Reads.{Serves, read_all-slice}

abbrev disk : BlockDevice
disk = record {
  block_size = 4;
  size_in_bytes = 10;
  read_block = λ b. ok (slice (λ i. i + 1) (b * 4) 4);
}

disk-Serves : Serves disk (λ i. i + 1)
disk-Serves = record {
  some_block = omega arith;
  small_block = omega arith;
  fits = omega arith;
  blocks = λ b h. refl;
}

read_all_test : read_all disk 3 6 ≡ ok (some (4 ∷ 5 ∷ 6 ∷ 7 ∷ 8 ∷ 9 ∷ []))
unfolding read_all read
read_all_test = refl

size_in_blocks_test : size_in_blocks disk ≡ 3
unfolding size_in_blocks
size_in_blocks_test = refl

read_all-slice_example : read_all disk 3 20 ≡ ok (some (4 ∷ 5 ∷ 6 ∷ 7 ∷ 8 ∷ 9 ∷ 10 ∷ []))
read_all-slice_example =
    read_all-slice disk (λ i. i + 1) disk-Serves 3 20 (omega arith) (omega arith)
