-- ===== src/Ext2/Contents.antt =====
-- A node of kernel/ext2.h, read through kernel/block_io.cc, delivers the bytes of its file.
use native.Mathlib.Nat.{div-eq_of_lt-le, mul-add-mod_self_right, mod-eq_of_lt}
use kernel_development_with.Prelude.{
  ℕ, zero, suc, ◌+◌, ◌-◌, ◌*◌, ◌/◌, ◌%◌, ◌^◌, ◌≤◌, ◌<◌, ◌≡◌, refl, ap, ap₂, sym, ◌∙◌, ◌∷◌, arith,
  some, min, mul32, lt→ltb,
}
use kernel_development_with.Prelude.Outcome.{ok}
use kernel_development_with.BlockIo.{BlockDevice, read_all}
use kernel_development_with.BlockIo.Slices.{slice}
use kernel_development_with.BlockIo.Reads.{Serves, read_thing-slice, read_all-slice}
use kernel_development_with.Ext2.{NodeData, read_block, node_device}
use kernel_development_with.Ext2.Blocks.{refs, block_of, Placed, find_block-block_of}

-- The bytes of a file, by the blocks that ext2 assigns to it.
unfoldable pub file_bytes : (ℕ → ℕ) → ℕ → NodeData → ℕ → ℕ
file_bytes disk bs node o = disk (block_of disk bs node (o / bs) * bs + o % bs)

-- A node as a sound file system keeps it: block size, sector count, and every block of the file
-- and the pointers to it on the disk, within two levels.
pub record IsSound (size : ℕ) (disk : ℕ → ℕ) (bs : ℕ) (node : NodeData) : Type 0 where
  pub big : 512 ≤ bs
  pub small : 12 + refs bs + refs bs * refs bs < 2 ^ 32
  pub small_block : bs < 2 ^ 32
  pub small_file : node.size_low < 2 ^ 32
  pub counted : (b : ℕ) → b * bs < node.size_low → b < node.n_sectors / (bs / 512)
  pub reachable : (b : ℕ) → b * bs < node.size_low → b < 12 + refs bs + refs bs * refs bs
  pub placed : (b : ℕ) → b * bs < node.size_low → Placed size disk bs node b
  pub stored : (b : ℕ) → b * bs < node.size_low → block_of disk bs node b * bs + bs ≤ size

slice-ext :
    (f g : ℕ → ℕ) (a c n : ℕ)
    → ((j : ℕ) → j < n → f (a + j) ≡ g (c + j))
    → slice f a n ≡ slice g c n
slice-ext f g a c zero h = refl
slice-ext f g a c (suc n) h =
    let e : a + 0 ≡ a = omega arith in
    let d : c + 0 ≡ c = omega arith in
    ap₂ ◌∷◌ (rw (e, d) at (h 0 (omega arith)))
      (slice-ext f g (suc a) (suc c) n (λ j lt. shifted j (h (suc j) (omega arith))))
  where
    shifted : (j : ℕ) → f (a + suc j) ≡ g (c + suc j) → f (suc a + j) ≡ g (suc c + j)
    shifted j e =
        let p : a + suc j ≡ suc a + j = omega arith in
        let q : c + suc j ≡ suc c + j = omega arith in rw (p, q) at e

module _ (ide : BlockDevice) (disk : ℕ → ℕ) (serves : Serves ide disk) (bs : ℕ) (node : NodeData)
    (sound : IsSound ide.size_in_bytes disk bs node) where
  open sound use {big, small, small_block, small_file, counted, reachable, placed, stored}

  block_bytes :
      (b : ℕ)
      → slice (file_bytes disk bs node) (b * bs) bs ≡ slice disk (block_of disk bs node b * bs) bs
  unfolding file_bytes
  block_bytes b =
      slice-ext (file_bytes disk bs node) disk (b * bs) (block_of disk bs node b * bs) bs (λ j lt.
        let q : (b * bs + j) / bs ≡ b = div-eq_of_lt-le bs (omega arith) (omega arith) in
        let r : (b * bs + j) % bs ≡ j = mul-add-mod_self_right b bs j ∙ mod-eq_of_lt lt in
        rw (q, r))

  read_block-slice :
      (b : ℕ)
      → b * bs < node.size_low
      → read_block ide bs node b ≡ ok (slice disk (block_of disk bs node b * bs) bs)
  unfolding read_block
  read_block-slice b h =
      let m : mul32 (block_of disk bs node b) bs ≡ block_of disk bs node b * bs =
        omega (arith, stored b h, serves.fits) in
      rw
        (
          lt→ltb b (node.n_sectors / (bs / 512)) (counted b h),
          find_block-block_of ide disk serves bs node b small (reachable b h) (placed b h),
          m,
        )
        (read_thing-slice ide disk serves (block_of disk bs node b * bs) bs small_block
          (stored b h))

  pub node-Serves : Serves (node_device ide bs node) (file_bytes disk bs node)
  node-Serves = record {
    some_block = omega arith;
    small_block = small_block;
    fits = small_file;
    blocks = λ b h. found b h;
  }
    where
      found :
          (b : ℕ)
          → b * bs < node.size_low
          → read_block ide bs node b ≡ ok (slice (file_bytes disk bs node) (b * bs) bs)
      found b h = read_block-slice b h ∙ ap ok (sym (block_bytes b))

  -- Reading a sound file from an offset up to its end returns exactly the bytes of the file that
  -- the block pointers of ext2 assign to it, as many as were asked for or as there are before the
  -- end.
  pub read_all-file :
      (offset n : ℕ)
      → n < 2 ^ 32
      → offset ≤ node.size_low
      → read_all (node_device ide bs node) offset n
        ≡ ok (some (slice (file_bytes disk bs node) offset (min n (node.size_low - offset))))
  read_all-file offset n w h =
      read_all-slice (node_device ide bs node) (file_bytes disk bs node) node-Serves offset n w h
