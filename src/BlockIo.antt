-- ===== src/BlockIo.antt =====
-- kernel/block_io.h and kernel/block_io.cc: reading bytes of a block device. The caller's buffer
-- is the list of bytes that a call puts there, so a count is its length; the result -1 is `none`.
pub mod Slices
pub mod Reads
mod Tests
use kernel_development_with.Prelude.{
  ℕ, zero, suc, ◌+◌, ◌-◌, ◌*◌, ◌/◌, ◌%◌, ◌^◌, Bool, true, false, if◌then◌else◌, ltb, leb, ◌==◌,
  Option, none, some, List, [], ◌∷◌, ◌++◌, length, take, drop, add32, sub32,
}
use kernel_development_with.Prelude.Outcome.{Outcome, ok, panic, spinning, ◌>>=◌, ◌>>◌, assert}
use kernel_development_with.K.{lesser}

-- BlockIO: what a subclass gives. The block size is not 0.
pub record BlockDevice : Type 0 where
  pub block_size : ℕ
  pub size_in_bytes : ℕ
  pub read_block : ℕ → Outcome (List ℕ)

module _ (dev : BlockDevice) where
  open dev use {block_size, size_in_bytes, read_block}

  -- size_in_blocks(), in 32 bits.
  unfoldable pub size_in_blocks : ℕ
  size_in_blocks = sub32 (add32 size_in_bytes block_size) 1 / block_size

  -- BlockIO::read, once `n`, the block and the offset in it are known.
  unfoldable pub read_part : ℕ → ℕ → ℕ → ℕ → Outcome (Option (List ℕ))
  read_part offset n offset_in_block actual_n = do
    assert (leb actual_n n)
    assert (leb (add32 offset actual_n) size_in_bytes)
    elim (actual_n == block_size) [
      | true ↦
          assert (offset_in_block == 0)
          >> (read_block (offset / block_size) >>= λ buffer. ok (some buffer))
      | false ↦
          assert (leb (add32 offset_in_block actual_n) block_size)
          >> (read_block (offset / block_size) >>= λ temp.
              ok (some (take actual_n (drop offset_in_block temp))))
    ]

  -- BlockIO::read(offset, desired_n, buffer)
  unfoldable pub read : ℕ → ℕ → Outcome (Option (List ℕ))
  unfolding read_part
  read offset desired_n =
      if ltb size_in_bytes offset
      then ok none
      else if offset == size_in_bytes
      then ok (some [])
      else (let n : ℕ = lesser desired_n (size_in_bytes - offset) in
          let offset_in_block : ℕ = offset % block_size in
          read_part offset n offset_in_block (lesser (block_size - offset_in_block) n))

  -- The loop of BlockIO::read_all, with `total` read so far.
  unfoldable pub read_loop : ℕ → ℕ → ℕ → List ℕ → Outcome (Option (List ℕ))
  read_loop zero offset n total = spinning
  read_loop (suc fuel) offset n total = elim (ltb 0 n) [
    | false ↦ ok (some total)
    | true ↦ read offset n >>= λ reply. elim reply [
      | none ↦ ok none
      | some [] ↦ ok (some total)
      | some (b ∷ bs) ↦
          read_loop fuel (add32 offset (length (b ∷ bs))) (sub32 n (length (b ∷ bs)))
            (total ++ b ∷ bs)
    ]
  ]

  -- BlockIO::read_all(offset, n, buffer). Each round reads a byte at least, so `n + 1` rounds do.
  unfoldable pub read_all : ℕ → ℕ → Outcome (Option (List ℕ))
  unfolding read_loop
  read_all offset n = read_loop (suc n) offset n []

  -- read(uint32_t offset, T& thing): all `size` bytes of the thing are there.
  unfoldable pub read_thing : ℕ → ℕ → Outcome (List ℕ)
  read_thing offset size = read_all offset size >>= λ reply. elim reply [
    | none ↦ panic
    | some bytes ↦ assert (length bytes == size) >> ok bytes
  ]
