-- ===== src/Ext2/Blocks.antt =====
-- Node::read_block of kernel/ext2.cc finds the blocks of a file where ext2 keeps them: twelve
-- direct pointers, then one level and then two levels of pointer blocks.
use kernel_development_with.Prelude.{
  ℕ, ◌+◌, ◌-◌, ◌*◌, ◌/◌, ◌%◌, ◌^◌, ◌≤◌, ◌<◌, ◌≡◌, if◌then◌else◌, ltb, arith, get_or, add32, mul32,
  dec_lt, lt→ltb, ge→ltb,
}
use kernel_development_with.Prelude.Outcome.{ok, panic}
use kernel_development_with.BlockIo.{BlockDevice}
use kernel_development_with.BlockIo.Slices.{slice}
use kernel_development_with.BlockIo.Reads.{Serves, read_thing-slice}
use kernel_development_with.Ext2.{NodeData, read_word, find_block}
use kernel_development_with.Ext2.Words.{le_number}

-- The 32-bit number at an address of the disk.
unfoldable pub word : (ℕ → ℕ) → ℕ → ℕ
word disk a = le_number (slice disk a 4)

abbrev pub refs : ℕ → ℕ
refs block_size = block_size / 4

-- Where the pointer to block `i` stands, for one level, and for the two steps of two levels.
abbrev pub single_at : ℕ → NodeData → ℕ → ℕ
single_at bs node i = node.indirect_1 * bs + (i - 12) * 4

abbrev pub outer_at : ℕ → NodeData → ℕ → ℕ
outer_at bs node i = node.indirect_2 * bs + (i - 12 - refs bs) / refs bs * 4

abbrev pub inner_at : (ℕ → ℕ) → ℕ → NodeData → ℕ → ℕ
inner_at disk bs node i = word disk (outer_at bs node i) * bs + (i - 12 - refs bs) % refs bs * 4

-- The block that ext2 assigns to index `i` of a file, up to two levels.
abbrev pub block_of : (ℕ → ℕ) → ℕ → NodeData → ℕ → ℕ
block_of disk bs node i =
    if ltb i 12
    then get_or node.direct i 0
    else if ltb i (12 + refs bs)
    then word disk (single_at bs node i)
    else word disk (inner_at disk bs node i)

-- The pointers that lead to block `i` lie on the disk.
pub record Placed (size : ℕ) (disk : ℕ → ℕ) (bs : ℕ) (node : NodeData) (i : ℕ) : Type 0 where
  pub single : 12 ≤ i → i < 12 + refs bs → single_at bs node i + 4 ≤ size
  pub outer : 12 + refs bs ≤ i → outer_at bs node i + 4 ≤ size
  pub inner : 12 + refs bs ≤ i → inner_at disk bs node i + 4 ≤ size

module _ (ide : BlockDevice) (disk : ℕ → ℕ) (serves : Serves ide disk) where
  open serves use {fits}

  read_word-word : (a : ℕ) → a + 4 ≤ ide.size_in_bytes → read_word ide a ≡ ok (word disk a)
  unfolding read_word word
  read_word-word a h = rw (read_thing-slice ide disk serves a 4 (omega arith) h)

  -- With its pointers on the disk, and 32 bits enough to count the blocks, every file index below
  -- 12 + r + r * r, with r pointers to a block, is mapped to the block that ext2 assigns to it.
  pub find_block-block_of :
      (bs : ℕ) (node : NodeData) (i : ℕ)
      → 12 + refs bs + refs bs * refs bs < 2 ^ 32
      → i < 12 + refs bs + refs bs * refs bs
      → Placed ide.size_in_bytes disk bs node i
      → find_block ide bs node i ≡ ok (block_of disk bs node i)
  unfolding find_block
  find_block-block_of bs node i small lt p = elim (dec_lt i 12) [
    | yes direct ↦ rw (lt→ltb i 12 direct)
    | no past ↦ elim (dec_lt i (12 + refs bs)) [
      | yes one ↦
          let a : add32 12 (refs bs) ≡ 12 + refs bs = omega arith in
          let h : single_at bs node i + 4 ≤ ide.size_in_bytes = p.single (omega arith) one in
          let b : add32 (mul32 node.indirect_1 bs) (mul32 (i - 12) 4) ≡ single_at bs node i =
            omega (arith, fits) in
          rw (ge→ltb i 12 (omega arith), a, lt→ltb i (12 + refs bs) one, b) (read_word-word _ h)
      | no two ↦
          let a : add32 12 (refs bs) ≡ 12 + refs bs = omega arith in
          let b : mul32 (refs bs) (refs bs) ≡ refs bs * refs bs = omega arith in
          let c : add32 (12 + refs bs) (refs bs * refs bs) ≡ 12 + refs bs + refs bs * refs bs =
            omega arith in
          let o : outer_at bs node i + 4 ≤ ide.size_in_bytes = p.outer (omega arith) in
          let n : inner_at disk bs node i + 4 ≤ ide.size_in_bytes = p.inner (omega arith) in
          let d : add32 (mul32 node.indirect_2 bs) (mul32 ((i - 12 - refs bs) / refs bs) 4)
              ≡ outer_at bs node i =
            omega (arith, fits) in
          let e : add32 (mul32 (word disk (outer_at bs node i)) bs)
                (mul32 ((i - 12 - refs bs) % refs bs) 4)
              ≡ inner_at disk bs node i =
            omega (arith, fits) in
          rw
            (
              ge→ltb i 12 (omega arith),
              a,
              ge→ltb i (12 + refs bs) (omega arith),
              b,
              c,
              lt→ltb i (12 + refs bs + refs bs * refs bs) lt,
              d,
              read_word-word _ o,
              e,
            )
            (read_word-word _ n)
    ]
  ]

  -- The branch for three levels of pointers repeats the test of the branch before it, so no index
  -- reaches it: from index 12 + r + r * r on, read_block panics.
  pub find_block-triple :
      (bs : ℕ) (node : NodeData) (i : ℕ)
      → 12 + refs bs + refs bs * refs bs < 2 ^ 32
      → 12 + refs bs + refs bs * refs bs ≤ i
      → find_block ide bs node i ≡ panic
  unfolding find_block
  find_block-triple bs node i small le =
      let a : add32 12 (refs bs) ≡ 12 + refs bs = omega arith in
      let b : mul32 (refs bs) (refs bs) ≡ refs bs * refs bs = omega arith in
      let c : add32 (12 + refs bs) (refs bs * refs bs) ≡ 12 + refs bs + refs bs * refs bs =
        omega arith in
      rw (
        ge→ltb i 12 (omega arith),
        a,
        ge→ltb i (12 + refs bs) (omega arith),
        b,
        c,
        ge→ltb i (12 + refs bs + refs bs * refs bs) le,
      )
