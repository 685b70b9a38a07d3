-- ===== src/Heap/Start.antt =====
-- kernel/heap.cc: the heap that `heapInit` leaves.
use kernel_development_with.Prelude.{
  ℕ, ◌+◌, ◌*◌, ◌⊎◌, inl, inr, true, ne→==, add32, ◌≢◌, subst, ◌-◌, ◌/◌, ◌^◌, ◌≤◌, ◌<◌, ◌≡◌, refl,
  if◌then◌else◌, ◌==◌, arith,
}
use kernel_development_with.Heap.{
  Heap, Access, done, panicked, ◌>>=◌, negate, request, new_object, first_blocks, heap_init,
}
use kernel_development_with.Heap.Untouched.{Taken}
use kernel_development_with.Heap.Allocation.{Granted}
use kernel_development_with.Heap.Search.{malloc-Fresh}
use kernel_development_with.Heap.Reads.{Plan, Held, sub32_small}
use kernel_development_with.Heap.Writes.{ends, links, pushed, make_avail-inside, make_taken-inside}
use kernel_development_with.Heap.Tiles.{Tiled}

-- Two ints at each end, taken, and one block between them.
abbrev pub first_plan : ℕ → Plan
first_plan n = record {
  extent = λ i. if i == 0 then 2 else if i == 2 then n - 4 else if i == n - 2 then 2 else 0;
  listed = λ i. i == 2;
  rank = λ i. 0;
}

abbrev pub first_array : (ℕ → ℕ) → ℕ → ℕ → ℕ
first_array a n =
    ends (links (ends (ends a 0 2 (negate 2)) 2 (n - 4) (n - 4)) 2 0) (n - 2) 2 (negate 2)

first-Tiled : (n : ℕ) → 8 ≤ n → Tiled (first_plan n).extent n 2 2
first-Tiled n h = record {
  fits = λ i p. ground arith;
  apart = λ i j p q l. ground arith;
  around = λ i p. ground arith;
  after = λ i p l. ground arith;
  before = λ i p l m. (2, ground arith, ground arith);
  ordered = omega arith;
  gap_before = (0, omega arith, refl);
  gap_after = omega (arith, h);
}

abbrev pub first_heap : Heap → ℕ → ℕ → Heap
first_heap s base n = record s { base = base; len = n; array = first_array s.array n; avail = 2 }

first_blocks-inside :
    (s : Heap) (base bytes : ℕ)
    → s.avail ≡ 0
    → 32 ≤ bytes
    → bytes ≤ 2 ^ 32
    → first_blocks s base bytes ≡ done (first_heap s base (bytes / 4))
unfolding first_blocks
first_blocks-inside s base bytes a h k =
    let n = bytes / 4 in
    let s0 = record s { base = base; len = n } in
    let s1 = record s0 { array = ends s.array 0 2 (negate 2) } in
    let n8 : 8 ≤ bytes / 4 = omega arith in
    let r : bytes / 4 ≤ 2 ^ 30 = omega arith in
    rw
      (
        make_taken-inside s0 0 2 (omega arith) (omega arith) r,
        ◌>>=◌,
        sub32_small (bytes / 4) 4 (omega arith) (omega arith),
        make_avail-inside s1 2 (bytes / 4 - 4) (omega arith) (omega arith) r (omega arith),
        sub32_small (bytes / 4) 2 (omega arith) (omega arith),
        make_taken-inside (pushed s1 2 (bytes / 4 - 4)) (bytes / 4 - 2) 2 (omega arith)
            (omega arith) r,
      )
      (rw a refl)

pub first-Held :
    (s : Heap) (base n : ℕ) → 8 ≤ n → n ≤ 2 ^ 30 → Held (first_heap s base n) (first_plan n) 2 2
first-Held s base n h k = record {
  room = k;
  tiled = first-Tiled n h;
  inner = λ i l. ground arith;
  shown = λ i p. ground arith;
  linked = record {
    null_unlisted = refl;
    onward = λ p l m. ground arith;
    backward = λ p l m. ground arith;
    first = λ p l m. ground arith;
    started = λ m. (refl, ground arith);
  };
}

-- A heap with its lock: the lock has the block at index 2, and the two ends stay taken.
pub record Ready (lock_size base n : ℕ) (r : Access (ℕ × Heap)) : Type 0 where
  pub after : Heap
  pub plan : Plan
  pub bound : ℕ
  pub returned : r ≡ done (base + 12, after)
  pub base_is : after.base ≡ base
  pub len_is : after.len ≡ n
  pub held : Held after plan bound bound
  pub lower_end : Taken plan 0
  pub upper_end : Taken plan (n - 2)
  pub lock : Taken plan 2
  pub roomy : lock_size ≤ 4 * (plan.extent 2 - 2)

listed_two : (n i : ℕ) → (first_plan n).listed i ≡ true → i ≡ 2
listed_two n i h = ground arith

module _ (s : Heap) (base n : ℕ) (h : 8 ≤ n) where
  -- What is granted lies before the upper end.
  Granted-below :
      (ints : ℕ) (s' : Heap) (G : Granted (first_heap s base n) (first_plan n) ints 2 s')
      → ints ≤ n - 4
  Granted-below ints s' G =
      let u = G.keeps (n - 2) (ground arith, ground arith) in
      let l = G.held.tiled.apart 2 (n - 2) G.owned.0 u.0.0 (omega arith) in
      omega (arith, l, G.enough)

  new_object-Ready :
      (fuel lock_size : ℕ)
      → base + 4 * n < 2 ^ 32
      → n ≤ 2 ^ 30
      → lock_size ≢ 0
      → lock_size + 3 < 2 ^ 32
      → 1 < fuel
      → let r = new_object fuel (first_heap s base n) lock_size in
        ((n < request lock_size + 4) × (r ≡ panicked))
        ⊎ ((request lock_size + 4 ≤ n) × Ready lock_size base n r)
  unfolding new_object
  new_object-Ready fuel lock_size b room z l f =
      elim (malloc-Fresh (first_heap s base n) (first_plan n) 2 (first-Held s base n h room)
        lock_size fuel z l (omega arith)) [
          | inl R ↦ inl (omega (arith, R.scarce 0 refl), rw (R.null, ◌>>=◌) refl)
          | inr F ↦
              let e = listed_two n F.header F.chosen in
              let G : Granted (first_heap s base n) (first_plan n) (request lock_size) 2 F.after =
                subst
                  (λ i. Granted (first_heap s base n) (first_plan n) (request lock_size) i F.after)
                  e F.granted in
              let a : add32 base (4 * F.header + 4) ≡ base + 12 = rw e (ground arith) in
              let k = Granted-below (request lock_size) F.after G in
              inr (
                omega (arith, k),
                record {
                  after = F.after;
                  plan = G.plan;
                  bound = G.bound;
                  returned = rw (F.returned, ◌>>=◌, a, ne→== (base + 12) 0 (omega arith)) refl;
                  base_is = G.same_base;
                  len_is = G.same_len;
                  held = G.held;
                  lower_end = (G.keeps 0 (ground arith, ground arith)).0;
                  upper_end = (G.keeps (n - 2) (ground arith, ground arith)).0;
                  lock = G.owned;
                  roomy = subst (λ i. lock_size ≤ 4 * (F.granted.plan.extent i - 2)) e F.roomy;
                },
              )
        ]

-- With an empty list, on at least 32 bytes below 2 ^ 32, for a lock of at least one byte and
-- fewer than 2 ^ 32 - 3, and with fuel of at least 2: heapInit panics if the ints of the request
-- for the lock and four more do not fit in the range; otherwise it leaves a heap whose blocks and
-- list are in order, with a taken block at each end and the lock in the block after the first
-- one, which has room for it.
pub heap_init-Ready :
    (s : Heap) (base bytes fuel lock_size : ℕ)
    → s.avail ≡ 0
    → 32 ≤ bytes
    → base + bytes < 2 ^ 32
    → lock_size ≢ 0
    → lock_size + 3 < 2 ^ 32
    → 1 < fuel
    → let r = heap_init fuel lock_size s base bytes in
      ((bytes / 4 < request lock_size + 4) × (r ≡ panicked))
      ⊎ ((request lock_size + 4 ≤ bytes / 4) × Ready lock_size base (bytes / 4) r)
unfolding heap_init
heap_init-Ready s base bytes fuel lock_size a h k z l f =
    rw (first_blocks-inside s base bytes a h (omega arith), ◌>>=◌)
      (new_object-Ready s base (bytes / 4) (omega arith) fuel lock_size (omega arith) (omega arith)
        z l f)
