-- ===== src/Heap/Reads.antt =====
-- What the blocks of kernel/heap.cc show in the array, and what the operations that only read it
-- return on such an array.
use kernel_development_with.Prelude.{
  ℕ, ◌+◌, ◌-◌, ◌^◌, ◌≤◌, ◌<◌, ◌≡◌, ◌⊎◌, inl, inr, refl, sym, ap, Bool, true, false, if◌then◌else◌,
  ◌==◌, not, arith, ℕ_discrete, add32, sub32, lt→ltb, gt→leb, eq→==, ne→==, Bool-cases,
}
use kernel_development_with.Heap.{
  Heap, done, ◌>>=◌, read, is_negative, negate, abs, size, header_from_footer, footer_from_header,
  matched, sanity, left, right, next, prev, is_avail, is_taken,
}
use kernel_development_with.Heap.Links.{Linked}
use kernel_development_with.Heap.Tiles.{Tiled, Left}

-- The word at both ends of a block.
abbrev pub mark : Bool → ℕ → ℕ
mark b n = if b then n else negate n

-- The blocks: their sizes, which of them are in the list, and each one's height in it.
pub record Plan : Type 0 where
  pub extent : ℕ → ℕ
  pub listed : ℕ → Bool
  pub rank : ℕ → ℕ

-- The array shows the blocks outside the gap from `lo` to before `hi`, and links the listed ones.
pub record Held (s : Heap) (g : Plan) (lo hi : ℕ) : Type 0 where
  pub room : s.len ≤ 2 ^ 30
  pub tiled : Tiled g.extent s.len lo hi
  pub inner : (i : ℕ) → g.listed i ≡ true → (4 ≤ g.extent i) × (i + g.extent i < s.len)
  pub shown :
      (i : ℕ)
      → 0 < g.extent i
      → (s.array i ≡ mark (g.listed i) (g.extent i))
        × (s.array (i + g.extent i - 1) ≡ mark (g.listed i) (g.extent i))
  pub linked : Linked g.listed (λ p. s.array (p + 1)) (λ p. s.array (p + 2)) g.rank s.avail

pub abs-mark : (b : Bool) (n : ℕ) → 0 < n → n ≤ 2 ^ 30 → abs (mark b n) ≡ n
abs-mark b n h k = ground arith

is_negative-mark : (b : Bool) (n : ℕ) → 0 < n → n ≤ 2 ^ 30 → is_negative (mark b n) ≡ not b
is_negative-mark b n h k = ground arith

mark-ne_0 : (b : Bool) (n : ℕ) → 0 < n → n ≤ 2 ^ 30 → (mark b n == 0) ≡ false
mark-ne_0 b n h k = ground arith

not-not : (b : Bool) → not (not b) ≡ b
not-not true = refl
not-not false = refl

pub add32_small : (a b : ℕ) → a + b ≤ 2 ^ 31 → add32 a b ≡ a + b
add32_small a b h = ground arith

pub sub32_small : (a b : ℕ) → b ≤ a → a ≤ 2 ^ 31 → sub32 a b ≡ a - b
sub32_small a b h k = ground arith

header_below : (j n : ℕ) → 0 < n → j + n ≤ 2 ^ 30 → add32 (sub32 (j + n - 1) n) 1 ≡ j
header_below j n p h = ground arith

pub is_negative_small : (a : ℕ) → a < 2 ^ 31 → is_negative a ≡ false
is_negative_small a h = ground arith

pub read-inside : (s : Heap) (i : ℕ) → i < s.len → read s i ≡ done (s.array i)
read-inside s i h = rw (lt→ltb i s.len h) refl

module _ (s : Heap) (g : Plan) (lo hi : ℕ) (H : Held s g lo hi) where
  pub bounded :
      (i : ℕ) → 0 < g.extent i → (2 ≤ g.extent i) × (i + g.extent i ≤ s.len) × (s.len ≤ 2 ^ 30)
  bounded i p = let f = H.tiled.fits i p in (f.0, f.1, H.room)

  pub size-at : (i : ℕ) → 0 < g.extent i → size s i ≡ done (g.extent i)
  unfolding size
  size-at i p =
      let b = bounded i p in
      rw
        (
          read-inside s i (omega arith),
          ◌>>=◌,
          (H.shown i p).0,
          abs-mark (g.listed i) (g.extent i) p (omega arith),
        )
        refl

  pub is_taken-at : (i : ℕ) → 0 < g.extent i → is_taken s i ≡ done (not (g.listed i))
  unfolding is_taken
  is_taken-at i p =
      let b = bounded i p in
      rw
        (
          read-inside s i (omega arith),
          ◌>>=◌,
          (H.shown i p).0,
          is_negative-mark (g.listed i) (g.extent i) p (omega arith),
        )
        refl

  pub is_avail-at : (i : ℕ) → 0 < g.extent i → is_avail s i ≡ done (g.listed i)
  unfolding is_avail
  is_avail-at i p =
      let b = bounded i p in
      rw
        (
          read-inside s i (omega arith),
          ◌>>=◌,
          (H.shown i p).0,
          is_negative-mark (g.listed i) (g.extent i) p (omega arith),
          mark-ne_0 (g.listed i) (g.extent i) p (omega arith),
        )
        (ap done (not-not (g.listed i)))

  pub footer_from_header-at :
      (i : ℕ) → 0 < g.extent i → footer_from_header s i ≡ done (i + g.extent i - 1)
  unfolding footer_from_header
  footer_from_header-at i p =
      let b = bounded i p in
      rw
        (
          size-at i p,
          ◌>>=◌,
          add32_small i (g.extent i) (omega arith),
          sub32_small (i + g.extent i) 1 (omega arith) (omega arith),
        )
        refl

  matched-at : (i : ℕ) → 0 < g.extent i → matched s i (i + g.extent i - 1) ≡ done i
  unfolding matched
  matched-at i p =
      let b = bounded i p in
      let f = i + g.extent i - 1 in
      rw
        (
          is_negative_small (i + g.extent i - 1) (omega arith),
          gt→leb s.len (i + g.extent i - 1) (omega arith),
          read-inside s i (omega arith),
          ◌>>=◌,
          read-inside s (i + g.extent i - 1) (omega arith),
          (H.shown i p).0,
          (H.shown i p).1,
          eq→== (mark (g.listed i) (g.extent i)) (mark (g.listed i) (g.extent i)) refl,
        )
        refl

  sanity-block : (i : ℕ) → 0 < g.extent i → sanity s i ≡ done i
  unfolding sanity footer_from_header size matched
  sanity-block i p =
      let b = bounded i p in
      elim (Bool-cases s.safe) [
        | inl e ↦ elim (ℕ_discrete i 0) [
          | yes z ↦ rw (e, eq→== i 0 z, z) refl
          | no z ↦
              rw
                (
                  e,
                  ne→== i 0 z,
                  is_negative_small i (omega arith),
                  gt→leb s.len i (omega arith),
                  footer_from_header-at i p,
                  ◌>>=◌,
                  matched-at i p,
                )
                refl
        ]
        | inr e ↦ rw e refl
      ]

  sanity-null : sanity s 0 ≡ done 0
  unfolding sanity
  sanity-null = elim (Bool-cases s.safe) [ inl e ↦ rw e refl | inr e ↦ rw e refl ]

  -- A link is null or leads to a block.
  pub sanity-at : (i : ℕ) → (i ≡ 0) ⊎ (0 < g.extent i) → sanity s i ≡ done i
  sanity-at i (inl e) = rw e sanity-null
  sanity-at i (inr p) = sanity-block i p

  onward_block :
      (i : ℕ) → g.listed i ≡ true → (s.array (i + 1) ≡ 0) ⊎ (0 < g.extent (s.array (i + 1)))
  onward_block i l = elim (ℕ_discrete (s.array (i + 1)) 0) [
    | yes e ↦ inl e
    | no e ↦ let q = H.inner (s.array (i + 1)) (H.linked.onward i l e).0 in inr (omega arith)
  ]

  backward_block :
      (i : ℕ) → g.listed i ≡ true → (s.array (i + 2) ≡ 0) ⊎ (0 < g.extent (s.array (i + 2)))
  backward_block i l = elim (ℕ_discrete (s.array (i + 2)) 0) [
    | yes e ↦ inl e
    | no e ↦ let q = H.inner (s.array (i + 2)) (H.linked.backward i l e).0 in inr (omega arith)
  ]

  pub next-at : (i : ℕ) → g.listed i ≡ true → next s i ≡ done (s.array (i + 1))
  unfolding next
  next-at i l =
      let n = H.inner i l in
      let r = H.room in
      rw (add32_small i 1 (omega arith), read-inside s (i + 1) (omega arith), ◌>>=◌)
        (sanity-at (s.array (i + 1)) (onward_block i l))

  pub prev-at : (i : ℕ) → g.listed i ≡ true → prev s i ≡ done (s.array (i + 2))
  unfolding prev
  prev-at i l =
      let n = H.inner i l in
      let r = H.room in
      rw (add32_small i 2 (omega arith), read-inside s (i + 2) (omega arith), ◌>>=◌)
        (sanity-at (s.array (i + 2)) (backward_block i l))

  pub right-at :
      (i : ℕ) → 0 < g.extent i → 0 < g.extent (i + g.extent i) → right s i ≡ done (i + g.extent i)
  unfolding right
  right-at i p q =
      let b = bounded i p in
      rw (size-at i p, ◌>>=◌, add32_small i (g.extent i) (omega arith))
        (sanity-at (i + g.extent i) (inr q))

  pub left-at : (i : ℕ) (l : Left g.extent i) → 0 < g.extent i → left s i ≡ done l.0
  unfolding left header_from_footer size
  left-at i (j, p, e) q =
      let b = bounded j p in
      let c = bounded i q in
      let f : i - 1 ≡ j + g.extent j - 1 = ap (λ z. z - 1) (sym e) in
      rw
        (
          sub32_small i 1 (omega (arith, e, p)) (omega (arith, c)),
          f,
          read-inside s (j + g.extent j - 1) (omega arith),
          ◌>>=◌,
          (H.shown j p).1,
          abs-mark (g.listed j) (g.extent j) p (omega arith),
          header_below j (g.extent j) p (omega arith),
        )
        (sanity-at j (inr p))
