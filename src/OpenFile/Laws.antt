-- ===== src/OpenFile/Laws.antt =====
-- Seeking and reading an open file of kernel/openfilestruct.h.
use kernel_development_with.Prelude.{
  ℕ, zero, suc, ◌+◌, ◌-◌, ◌%◌, ◌^◌, ◌≤◌, ◌<◌, min, ◌≡◌, refl, List, ◌++◌, arith, length, add32,
  ne→==, dec_lt, lt→ltb, ge→ltb, ◌↔◌, ◌⊎◌, inl, inr, sym,
}
use kernel_development_with.Prelude.Outcome.{Outcome, ok, ◌>>=◌}
use kernel_development_with.BlockIo.{BlockDevice}
use kernel_development_with.BlockIo.Slices.{slice, length-slice, slice-append}
use kernel_development_with.BlockIo.Reads.{Serves, read_all-slice}
use kernel_development_with.Ext2.{NodeData, node_device}
use kernel_development_with.OpenFile.{OpenFile, seek, read}

-- The offset lies in the file, and a count of its bytes fits a positive `int`.
pub record IsOpen (f : OpenFile) : Type 0 where
  pub within : f.my_offset ≤ f.node.size_low
  pub small : f.node.size_low < 2 ^ 31

-- seek keeps the offset within the file, and moves it to an offset exactly when that is not past
-- the end, or is where the file already stands.
pub seek-IsOpen :
    (f : OpenFile) (offset : ℕ)
    → IsOpen f
    → IsOpen (seek f offset).1
      × (((seek f offset).1.my_offset ≡ offset)
          ↔ ((offset ≤ f.node.size_low) ⊎ (offset ≡ f.my_offset)))
unfolding seek
seek-IsOpen f offset o = elim (dec_lt f.node.size_low offset) [
  | yes past ↦
      rw (lt→ltb f.node.size_low offset past) (o, (λ e. inr (sym e), λ s. ground (arith, s)))
  | no inside ↦
      rw (ge→ltb f.node.size_low offset (omega arith))
        (record { within = omega arith; small = o.small }, (λ e. inl (omega arith), λ s. refl))
]

-- The bytes of two reads in a row, or of one, and the file after them.
abbrev pub read_twice : BlockDevice → ℕ → OpenFile → ℕ → ℕ → Outcome (List ℕ × OpenFile)
read_twice ide block_size f n m = read ide block_size f n >>= λ r.
    read ide block_size r.file m >>= λ s. ok (r.bytes ++ s.bytes, s.file)

abbrev pub read_once : BlockDevice → ℕ → OpenFile → ℕ → Outcome (List ℕ × OpenFile)
read_once ide block_size f n = read ide block_size f n >>= λ r. ok (r.bytes, r.file)

module _ (ide : BlockDevice) (block_size : ℕ) (node : NodeData) (content : ℕ → ℕ)
    (serves : Serves (node_device ide block_size node) content) where
  -- Where the file is after reading `n` bytes from `o`.
  abbrev pub span : ℕ → ℕ → ℕ
  span o n = min n (node.size_low - o)

  -- On an open file whose offset is within it, read delivers the bytes of the file from the
  -- offset on, as many as were asked for or as there are before the end, returns their number,
  -- and moves the offset past them.
  pub read-slice :
      (o n : ℕ)
      → IsOpen (record { node = node; my_offset = o })
      → n < 2 ^ 32
      → read ide block_size (record { node = node; my_offset = o }) n
        ≡ ok (record {
          result = span o n;
          bytes = slice content o (span o n);
          file = record { node = node; my_offset = o + span o n };
        })
  unfolding read
  read-slice o zero f h =
      let e : span o 0 ≡ 0 = omega arith in let p : o + 0 ≡ o = omega arith in rw (e, p)
  read-slice o (suc n) f h =
      let l : length (slice content o (span o (suc n))) % 2 ^ 32 ≡ span o (suc n) =
        omega (arith, length-slice content o (span o (suc n)), f.small) in
      let a : add32 o (span o (suc n)) ≡ o + span o (suc n) = omega (arith, f.within, f.small) in
      rw (
        ne→== (suc n) 0 (omega arith),
        read_all-slice (node_device ide block_size node) content serves o (suc n) h f.within,
        l,
        a,
      )

  -- On an open file whose offset is within it, two reads in a row deliver the bytes of one read
  -- of both lengths, and leave the file where that leaves it.
  pub read-read :
      (o n m : ℕ)
      → IsOpen (record { node = node; my_offset = o })
      → n + m < 2 ^ 32
      → read_twice ide block_size (record { node = node; my_offset = o }) n m
        ≡ read_once ide block_size (record { node = node; my_offset = o }) (n + m)
  read-read o n m f h =
      let g : IsOpen (record { node = node; my_offset = o + span o n }) = record {
        within = omega (arith, f.within);
        small = f.small;
      } in
      let e : span o n + span (o + span o n) m ≡ span o (n + m) = omega (arith, f.within) in
      let p : o + span o n + span (o + span o n) m ≡ o + span o (n + m) = omega (arith, f.within) in
      rw (
        read-slice o n f (omega arith),
        read-slice (o + span o n) m g (omega arith),
        read-slice o (n + m) f h,
        slice-append content o (span o n) (span (o + span o n) m),
        e,
        p,
      )
