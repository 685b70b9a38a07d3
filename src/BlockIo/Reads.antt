-- ===== src/BlockIo/Reads.antt =====
-- `read` and `read_all` of kernel/block_io.cc deliver the bytes of the device.
use native.Mathlib.Nat.{div-add-mod', mod-lt, div-mul-le_self}
use kernel_development_with.Prelude.{
  ℕ, zero, suc, ◌+◌, ◌-◌, ◌*◌, ◌/◌, ◌%◌, ◌^◌, ◌≤◌, ◌<◌, min, ◌≡◌, refl, ap, sym, ◌∙◌, ◌==◌, none,
  some, List, [], ◌∷◌, ◌++◌, arith, length, take, drop, add32, sub32, Bool-cases, inl, inr, dec_lt,
  le→leb, ==→eq, ge→ltb, ne→==, eq→==, append-nil, append_assoc,
}
use kernel_development_with.Prelude.Outcome.{ok}
use kernel_development_with.K.{lesser}
use kernel_development_with.BlockIo.{BlockDevice, read_part, read, read_loop, read_all, read_thing}
use kernel_development_with.BlockIo.Slices.{
  slice, length-slice, take-slice, drop-slice, slice-append,
}

-- `content` gives the bytes of the device: reading a block below the size gives its bytes.
pub record Serves (dev : BlockDevice) (content : ℕ → ℕ) : Type 0 where
  pub some_block : 0 < dev.block_size
  pub small_block : dev.block_size < 2 ^ 32
  pub fits : dev.size_in_bytes < 2 ^ 32
  pub blocks :
      (b : ℕ)
      → b * dev.block_size < dev.size_in_bytes
      → dev.read_block b ≡ ok (slice content (b * dev.block_size) dev.block_size)

module _ (dev : BlockDevice) (content : ℕ → ℕ) (serves : Serves dev content) where
  open dev use {block_size, size_in_bytes, read_block}
  open serves use {some_block, small_block, fits, blocks}

  block_at :
      (offset : ℕ)
      → offset < size_in_bytes
      → read_block (offset / block_size)
        ≡ ok (slice content (offset / block_size * block_size) block_size)
  block_at offset h =
      blocks (offset / block_size) (omega (arith, div-mul-le_self offset block_size))

  cut :
      (offset n : ℕ)
      → offset % block_size + n ≤ block_size
      → take n
          (drop (offset % block_size) (slice content (offset / block_size * block_size) block_size))
        ≡ slice content offset n
  cut offset n h =
      rw
        (
          drop-slice content (offset / block_size * block_size) block_size (offset % block_size)
              (omega arith),
          div-add-mod' offset block_size,
        )
        (take-slice content offset (block_size - offset % block_size) n (omega arith))

  read_part-slice :
      (offset n k : ℕ)
      → offset < size_in_bytes
      → k ≤ n
      → offset + k ≤ size_in_bytes
      → offset % block_size + k ≤ block_size
      → read_part dev offset n (offset % block_size) k ≡ ok (some (slice content offset k))
  unfolding read_part
  read_part-slice offset n k below le inside part =
      rw (le→leb k n le, le→leb ((offset + k) % 2 ^ 32) size_in_bytes (omega (arith, fits)))
        (elim (Bool-cases (k == block_size)) [
          | inl whole ↦
              rw (whole, block_at offset below)
                (ground (
                  arith,
                  div-add-mod' offset block_size,
                  cut offset k part,
                  ==→eq k block_size whole,
                ))
          | inr partial ↦
              rw (partial, block_at offset below, cut offset k part)
                (ground (arith, small_block, part))
        ])

  -- Below the end, `read` delivers at least one byte, at most what is asked, and only bytes of the
  -- device from the offset on.
  read-slice :
      (offset n : ℕ)
      → offset < size_in_bytes
      → 0 < n
      → (k : ℕ) × (k < n)
        × (offset + suc k ≤ size_in_bytes)
        × (read dev offset n ≡ ok (some (slice content offset (suc k))))
  unfolding read
  read-slice offset n below pos = (k, ground arith, ground arith, found)
    where
      inside : offset % block_size < block_size
      inside = mod-lt offset some_block

      actual : ℕ
      actual = lesser (block_size - offset % block_size) (lesser n (size_in_bytes - offset))

      k : ℕ
      k = actual - 1

      nonzero : suc k ≡ actual
      nonzero = ground (arith, inside)

      found : read dev offset n ≡ ok (some (slice content offset (suc k)))
      found =
          rw (ge→ltb size_in_bytes offset (omega arith), ne→== offset size_in_bytes (omega arith))
            (read_part-slice offset (lesser n (size_in_bytes - offset)) actual below (ground arith)
                (ground arith) (ground (arith, inside))
              ∙ ap (λ (u : ℕ). ok (some (slice content offset u))) (sym nonzero))

  read-end : (n : ℕ) → read dev size_in_bytes n ≡ ok (some [])
  unfolding read
  read-end n = ground arith

  read-past : (offset n : ℕ) → size_in_bytes < offset → read dev offset n ≡ ok none
  unfolding read
  read-past offset n h = ground arith

  read_loop-done :
      (fuel offset : ℕ) (total : List ℕ) → read_loop dev (suc fuel) offset 0 total ≡ ok (some total)
  unfolding read_loop
  read_loop-done fuel offset total = refl

  read_loop-error :
      (fuel offset n : ℕ) (total : List ℕ)
      → 0 < n
      → read dev offset n ≡ ok none
      → read_loop dev (suc fuel) offset n total ≡ ok none
  unfolding read_loop
  read_loop-error fuel offset n total pos e = ground arith

  read_loop-end :
      (fuel offset n : ℕ) (total : List ℕ)
      → 0 < n
      → read dev offset n ≡ ok (some [])
      → read_loop dev (suc fuel) offset n total ≡ ok (some total)
  unfolding read_loop
  read_loop-end fuel offset n total pos e = ground arith

  read_loop-more :
      (fuel offset n : ℕ) (total : List ℕ) (b : ℕ) (bs : List ℕ)
      → 0 < n
      → read dev offset n ≡ ok (some (b ∷ bs))
      → read_loop dev (suc fuel) offset n total
        ≡ read_loop dev fuel
            (add32 offset (length (b ∷ bs)))
            (sub32 n (length (b ∷ bs)))
            (total ++ b ∷ bs)
  unfolding read_loop
  read_loop-more fuel offset n total b bs pos e = ground arith

  joined :
      (offset n k : ℕ) (total : List ℕ)
      → k ≤ n
      → offset + suc k ≤ size_in_bytes
      → (total ++ slice content offset (suc k))
          ++ slice content (offset + suc k) (min (n - k) (size_in_bytes - (offset + suc k)))
        ≡ total ++ slice content offset (min (suc n) (size_in_bytes - offset))
  joined offset n k total le inside =
      let m : ℕ = min (n - k) (size_in_bytes - (offset + suc k)) in
      let e : suc k + m ≡ min (suc n) (size_in_bytes - offset) = omega arith in
      append_assoc total (slice content offset (suc k)) (slice content (offset + suc k) m)
      ∙ ap (◌++◌ total) (slice-append content offset (suc k) m ∙ ap (slice content offset) e)

  read_loop-slice :
      (fuel offset n : ℕ) (total : List ℕ)
      → n < fuel
      → n < 2 ^ 32
      → offset ≤ size_in_bytes
      → read_loop dev fuel offset n total
        ≡ ok (some (total ++ slice content offset (min n (size_in_bytes - offset))))
  read_loop-slice zero offset n total lt w h = elim lt [ ]
  read_loop-slice (suc fuel) offset zero total lt w h =
      let e : min 0 (size_in_bytes - offset) ≡ 0 = omega arith in
      rw (read_loop-done fuel offset total, e, append-nil total)
  read_loop-slice (suc fuel) offset (suc n) total lt w h = elim (dec_lt offset size_in_bytes) [
    | yes below ↦
        let (k, le, inside, e) = read-slice offset (suc n) below (omega arith) in
        let l : length (slice content (suc offset) k) ≡ k = length-slice content (suc offset) k in
        let a : add32 offset (suc k) ≡ offset + suc k = omega (arith, fits) in
        let b : sub32 (suc n) (suc k) ≡ n - k = omega arith in
        read_loop-more fuel offset (suc n) total (content offset) (slice content (suc offset) k)
          (omega arith) e
        ∙ rw (l, a, b)
            (read_loop-slice fuel (offset + suc k) (n - k) (total ++ slice content offset (suc k))
                (omega arith) (omega arith) inside
              ∙ ap (λ (u : List ℕ). ok (some u)) (joined offset n k total (omega arith) inside))
    | no past ↦
        let e : offset ≡ size_in_bytes = omega arith in
        let z : min (suc n) (size_in_bytes - offset) ≡ 0 = omega arith in
        let r : read dev offset (suc n) ≡ ok (some []) = rw e (read-end (suc n)) in
        read_loop-end fuel offset (suc n) total (omega arith) r ∙ rw (z, append-nil total)
  ]

  -- From an offset up to the end of a device, read_all returns, without a panic, exactly the
  -- bytes of the device from the offset on: as many as were asked for, or as there are before the
  -- end; its loop ends within one round more than the number of bytes asked for.
  pub read_all-slice :
      (offset n : ℕ)
      → n < 2 ^ 32
      → offset ≤ size_in_bytes
      → read_all dev offset n ≡ ok (some (slice content offset (min n (size_in_bytes - offset))))
  unfolding read_all
  read_all-slice offset n w h = read_loop-slice (suc n) offset n [] (omega arith) w h

  -- From an offset past the end, read_all of at least one byte fails with -1.
  pub read_all-past :
      (offset n : ℕ) → size_in_bytes < offset → read_all dev offset (suc n) ≡ ok none
  unfolding read_all
  read_all-past offset n h =
      read_loop-error (suc n) offset (suc n) [] (omega arith) (read-past offset (suc n) h)

  -- `read(offset, thing)` inside the device gives the bytes of the thing.
  pub read_thing-slice :
      (offset n : ℕ)
      → n < 2 ^ 32
      → offset + n ≤ size_in_bytes
      → read_thing dev offset n ≡ ok (slice content offset n)
  unfolding read_thing
  read_thing-slice offset n w h =
      let e : min n (size_in_bytes - offset) ≡ n = omega arith in
      rw (read_all-slice offset n w (omega arith), e, length-slice content offset n, eq→== n n refl)
