-- ===== src/PhysMem/Client.antt =====
-- kernel/physmem.cc: any sequence of allocations and releases, from `init` on. The callers release
-- only frames that they have.
use kernel_development_with.Prelude.{
  ℕ, suc, ◌+◌, ◌-◌, ◌*◌, ◌/◌, ◌%◌, ◌^◌, ◌≤◌, ◌<◌, ◌≡◌, refl, ◌∙◌, if◌then◌else◌, ltb, List, [], ◌∷◌,
  arith, length, get_or, dec_lt, lt→ltb, ge→ltb, eq→==, add32,
}
use kernel_development_with.Prelude.Outcome.{Outcome, ok, panic, ◌>>=◌}
use kernel_development_with.Queue.Chain.{Chain}
use kernel_development_with.PhysMem.{PhysMem, Memory, offset, alloc_frame, dealloc_frame, init}
use kernel_development_with.PhysMem.Frames.{
  Frames, Granted, alloc_frame-cons, alloc_frame-next, alloc_frame-panic, dealloc_frame-Frames,
}
use kernel_development_with.PhysMem.Places.{
  remove_at, Distinct-remove_at, AllFrames-remove_at, Disjoint-remove_at, length-remove_at,
  get_or-IsFrame, get_or-Apart, get_or-Disjoint,
}

-- What a caller may do: ask for a frame, or give back the one at place `i` of those it has, if
-- there is one.
pub data Call : Type 0 where
  alloc : Call
  give : ℕ → Call

-- The frames that the callers have, and the allocator.
pub record Client : Type 0 where
  pub live : List ℕ
  pub pool : PhysMem

unfoldable pub call : Client → Call → Outcome Client
call c alloc = alloc_frame c.pool >>= λ r. ok (record { live = r.0 ∷ c.live; pool = r.1 })
call c (give i) =
    if ltb i (length c.live)
    then (dealloc_frame c.pool (get_or c.live i 0) >>= λ s.
        ok (record { live = remove_at i c.live; pool = s }))
    else ok c

unfoldable pub run : Client → List Call → Outcome Client
run c [] = ok c
run c (k ∷ ks) = call c k >>= λ d. run d ks

-- `ks` never asks for a frame when `capacity` are in use, from `n` in use on.
unfoldable pub Fits : ℕ → ℕ → List Call → Type 0
Fits capacity n [] = Unit {0}
Fits capacity n (alloc ∷ ks) = (n < capacity) × Fits capacity (suc n) ks
Fits capacity n (give i ∷ ks) = Fits capacity (if ltb i n then n - 1 else n) ks

-- The frames in use are aligned, in the range, and all different.
pub record Sound (start limit : ℕ) (c : Client) : Type 0 where
  pub free : List ℕ
  pub frames : Frames start c.pool free c.live
  pub limit_is : c.pool.limit ≡ limit

Chain-empty : (m : Memory) (p : ℕ) (xs : List ℕ) → length xs ≡ 0 → Chain m p xs → p ≡ 0
Chain-empty m p [] n c = c
Chain-empty m p (x ∷ xs) n c = omega (arith, n)

-- From `init` on.
abbrev pub run_from : Memory → ℕ → ℕ → List Call → Outcome Client
run_from memory start size ks =
    init memory start size >>= λ s. run (record { live = []; pool = s }) ks

module _ (start limit : ℕ) where
  -- In a sound allocator whose range has room for one more frame in use, alloc_frame gives,
  -- without a panic, a frame that is aligned, in the range and in no caller's hands; it is full
  -- of zeroes, and all other frames hold what they held.
  pub alloc_frame-Granted :
      (free : List ℕ) (c : Client)
      → Frames start c.pool free c.live
      → c.pool.limit ≡ limit
      → start + suc (length c.live) * 4096 ≤ limit
      → (p : ℕ) × (t : PhysMem) × (alloc_frame c.pool ≡ ok (p, t)) × Granted start c.pool c.live p t
  alloc_frame-Granted (p ∷ free) c f e h =
      let (t, r, g) = alloc_frame-cons start c.pool p free c.live f in (p, t, r, g)
  alloc_frame-Granted [] c f e h =
      let l = f.total in
      let (t, r, g) = alloc_frame-next start c.pool c.live f (λ q. omega arith) in
      (c.pool.avail, t, r, g)

  -- While a frame's room is left, alloc_frame gives a frame that no caller has.
  pub call_alloc :
      (c : Client)
      → Sound start limit c
      → start + suc (length c.live) * 4096 ≤ limit
      → (d : Client) × (call c alloc ≡ ok d)
        × Sound start limit d
        × (length d.live ≡ suc (length c.live))
  unfolding call
  call_alloc c s h =
      let (p, t, e, g) = alloc_frame-Granted s.free c s.frames s.limit_is h in
      (
        record { live = p ∷ c.live; pool = t },
        rw e refl,
        record { free = g.free; frames = g.frames; limit_is = g.limit ∙ s.limit_is },
        refl,
      )

  give_live :
      (c : Client) (i : ℕ)
      → Sound start limit c
      → i < length c.live
      → (d : Client) × (call c (give i) ≡ ok d)
        × Sound start limit d
        × (length d.live ≡ length c.live - 1)
  unfolding call
  give_live c i s h =
      let f = s.frames in
      let n = length-remove_at i c.live h in
      let (t, e, g, l, o) =
        dealloc_frame-Frames start c.pool (get_or c.live i 0) s.free c.live (remove_at i c.live) f
          (get_or-IsFrame start c.pool.avail i c.live h f.live_frames)
          (get_or-Disjoint i s.free c.live h f.disjoint)
          (Disjoint-remove_at i s.free c.live f.disjoint) (get_or-Apart i c.live h f.live_distinct)
          (Distinct-remove_at i c.live f.live_distinct)
          (AllFrames-remove_at start c.pool.avail i c.live f.live_frames) n in
      (
        record { live = remove_at i c.live; pool = t },
        rw (call, lt→ltb i (length c.live) h, e) refl,
        record { free = get_or c.live i 0 ∷ s.free; frames = g; limit_is = l ∙ s.limit_is },
        omega arith,
      )

  give_none : (c : Client) (i : ℕ) → length c.live ≤ i → call c (give i) ≡ ok c
  unfolding call
  give_none c i h = rw (call, ge→ltb i (length c.live) h) refl

  -- Any frame in use can be given back.
  pub call_give :
      (c : Client) (i : ℕ)
      → Sound start limit c
      → (d : Client) × (call c (give i) ≡ ok d)
        × Sound start limit d
        × (length d.live ≡ (if ltb i (length c.live) then length c.live - 1 else length c.live))
  call_give c i s = elim (dec_lt i (length c.live)) [
    | yes h ↦ rw (lt→ltb i (length c.live) h) (give_live c i s h)
    | no h ↦
        rw (ge→ltb i (length c.live) (omega (arith, h)))
          (c, give_none c i (omega (arith, h)), s, refl)
  ]

  run_from-Sound :
      (n : ℕ) (c : Client) (ks : List Call)
      → Sound start limit c
      → start + n * 4096 ≡ limit
      → Fits n (length c.live) ks
      → (d : Client) × (run c ks ≡ ok d) × Sound start limit d
  unfolding run Fits
  run_from-Sound n c [] s e f = (c, refl, s)
  run_from-Sound n c (alloc ∷ ks) s e (h, f) =
      let (d, q, r, l) = call_alloc c s (omega (arith, h, e)) in
      let (b, u, v) = run_from-Sound n d ks r e (rw l f) in (b, rw q u, v)
  run_from-Sound n c (give i ∷ ks) s e f =
      let (d, q, r, l) = call_give c i s in
      let (b, u, v) = run_from-Sound n d ks r e (rw l f) in (b, rw q u, v)

  -- In a sound allocator whose frames in use fill the range, an allocation panics.
  pub call_alloc-panic :
      (c : Client)
      → Sound start limit c
      → start + length c.live * 4096 ≡ limit
      → call c alloc ≡ panic
  unfolding call
  call_alloc-panic c s e =
      let f = s.frames in
      let l = f.total in
      let b = f.bound in
      let p =
        alloc_frame-panic c.pool
          (Chain-empty c.pool.memory c.pool.first_free s.free (omega (arith, s.limit_is)) f.chain)
          (omega (arith, s.limit_is)) in
      rw p refl

init_eq :
    (memory : Memory) (start size : ℕ)
    → start % 4096 ≡ 0
    → size % 4096 ≡ 0
    → init memory start size
      ≡ ok (record { memory = memory; first_free = 0; avail = start; limit = add32 start size })
unfolding init
init_eq memory start size a b = rw (init, eq→== (offset start) 0 a, eq→== (offset size) 0 b) refl

-- From init on an aligned range that starts above 0 and ends below 2 ^ 32, any sequence of
-- allocations and releases that never has more frames in use than the range holds runs without a
-- panic; at its end the frames in use are aligned, in the range, and all different, and none of
-- them is on the free list.
pub run-Sound :
    (memory : Memory) (start size : ℕ) (ks : List Call)
    → start % 4096 ≡ 0
    → size % 4096 ≡ 0
    → 0 < start
    → start + size < 2 ^ 32
    → Fits (size / 4096) 0 ks
    → (c : Client) × (run_from memory start size ks ≡ ok c) × Sound start (start + size) c
run-Sound memory start size ks a b p h f =
    let e : add32 start size ≡ start + size = omega arith in
    let s : PhysMem = record {
      memory = memory;
      first_free = 0;
      avail = start;
      limit = start + size;
    } in
    let z : Sound start (start + size) (record { live = []; pool = s }) = record {
      free = [];
      frames = record {
        chain = refl;
        free_frames = tt;
        live_frames = tt;
        free_distinct = tt;
        live_distinct = tt;
        disjoint = tt;
        total = omega arith;
        bound = omega arith;
        limit_aligned = omega arith;
        start_aligned = a;
        start_positive = p;
        limit_small = h;
      };
      limit_is = refl;
    } in
    rw (init_eq memory start size a b, e)
      (run_from-Sound start (start + size) (size / 4096) (record { live = []; pool = s }) ks z
        (omega arith) f)
