-- ===== src/PhysMem/Frames.antt =====
-- kernel/physmem.cc: which frames are free and which are in use, and what an allocation and a
-- release do to them.
use kernel_development_with.Prelude.{
  ℕ, suc, ◌+◌, ◌*◌, ◌%◌, ◌^◌, ◌≤◌, ◌<◌, ◌≡◌, ◌≢◌, refl, sym, List, [], ◌∷◌, arith, length, eq→==,
  ne→==, Apart, Distinct, Disjoint, Disjoint-cons, add32,
}
use kernel_development_with.Prelude.Outcome.{ok, panic}
use kernel_development_with.Queue.{update}
use kernel_development_with.Queue.Chain.{Chain, Chain-update}
use kernel_development_with.PhysMem.{
  PhysMem, Memory, bzero, frame_size, offset, take_frame, clear_frame, alloc_frame, dealloc_frame,
}

-- A frame between `start` and `avail`.
abbrev pub IsFrame : ℕ → ℕ → ℕ → Type 0
IsFrame start avail x = (x ≢ 0) × (start ≤ x) × (x < avail) × (x % 4096 ≡ 0)

abbrev pub AllFrames : ℕ → ℕ → List ℕ → Type 0
AllFrames start avail [] = Unit {0}
AllFrames start avail (x ∷ xs) = IsFrame start avail x × AllFrames start avail xs

-- The free list holds `free`, the callers have `live`, and the two share the frames handed out.
pub record Frames (start : ℕ) (s : PhysMem) (free live : List ℕ) : Type 0 where
  pub chain : Chain s.memory s.first_free free
  pub free_frames : AllFrames start s.avail free
  pub live_frames : AllFrames start s.avail live
  pub free_distinct : Distinct free
  pub live_distinct : Distinct live
  pub disjoint : Disjoint free live
  pub total : start + (length free + length live) * 4096 ≡ s.avail
  pub bound : s.avail ≤ s.limit
  pub limit_aligned : s.limit % 4096 ≡ 0
  pub start_aligned : start % 4096 ≡ 0
  pub start_positive : 0 < start
  pub limit_small : s.limit < 2 ^ 32

AllFrames-mono : (start a b : ℕ) (xs : List ℕ) → a ≤ b → AllFrames start a xs → AllFrames start b xs
AllFrames-mono start a b [] h f = tt
AllFrames-mono start a b (x ∷ xs) h f = (ground arith, AllFrames-mono start a b xs h f.1)

AllFrames-Apart : (start a : ℕ) (xs : List ℕ) → AllFrames start a xs → Apart a xs
AllFrames-Apart start a [] f = tt
AllFrames-Apart start a (x ∷ xs) f = (λ e. ground arith, AllFrames-Apart start a xs f.1)

-- Zeroes in a frame outside the free list do not disturb it.
Chain-bzero :
    (start a : ℕ) (m : Memory) (p f : ℕ) (xs : List ℕ)
    → p % 4096 ≡ 0
    → Apart p xs
    → AllFrames start a xs
    → Chain m f xs
    → Chain (bzero m p frame_size) f xs
Chain-bzero start a m p f [] h d g c = c
Chain-bzero start a m p f (x ∷ xs) h d g c =
    let e : bzero m p frame_size x ≡ m x = ground arith in
    (c.0, c.1, rw e (Chain-bzero start a m p (m x) xs h d.1 g.1 c.2))

-- alloc_frame gives back a frame that was free, or the next one of the range.
alloc_frame_free :
    (s : PhysMem) (p : ℕ)
    → s.first_free ≡ p
    → p ≢ 0
    → offset p ≡ 0
    → alloc_frame s
      ≡ ok (p, record s { first_free = s.memory p; memory = bzero s.memory p frame_size })
unfolding alloc_frame take_frame clear_frame
alloc_frame_free s p e h a =
    rw (alloc_frame, take_frame, e, ne→== p 0 h, clear_frame, eq→== (offset p) 0 a) refl

alloc_frame_next :
    (s : PhysMem)
    → s.first_free ≡ 0
    → s.avail ≢ s.limit
    → offset s.avail ≡ 0
    → add32 s.avail frame_size ≡ s.avail + 4096
    → alloc_frame s
      ≡ ok
          (s.avail, record s { avail = s.avail + 4096; memory = bzero s.memory s.avail frame_size })
unfolding alloc_frame take_frame clear_frame
alloc_frame_next s z h a e =
    rw
      (
        alloc_frame,
        take_frame,
        eq→== s.first_free 0 z,
        ne→== s.avail s.limit h,
        clear_frame,
        eq→== (offset s.avail) 0 a,
        e,
      )
      refl

-- With no free frame and none left in the range it panics.
pub alloc_frame-panic : (s : PhysMem) → s.first_free ≡ 0 → s.avail ≡ s.limit → alloc_frame s ≡ panic
unfolding alloc_frame take_frame
alloc_frame-panic s z e =
    rw (alloc_frame, take_frame, eq→== s.first_free 0 z, eq→== s.avail s.limit e) refl

-- What an allocation gives: a frame that nobody has, filled with zeroes, and nothing else changed
-- in the frames in use.
pub record Granted (start : ℕ) (s : PhysMem) (live : List ℕ) (p : ℕ) (t : PhysMem) : Type 0 where
  pub new : Apart p live
  pub free : List ℕ
  pub frames : Frames start t free (p ∷ live)
  pub limit : t.limit ≡ s.limit
  pub zeroes : (j : ℕ) → j < 4096 → t.memory (p + j) ≡ 0
  pub others : (x j : ℕ) → x ≢ p → x % 4096 ≡ 0 → j < 4096 → t.memory (x + j) ≡ s.memory (x + j)

bzero-inside : (m : Memory) (p j : ℕ) → j < 4096 → bzero m p frame_size (p + j) ≡ 0
bzero-inside m p j h = ground arith

bzero-outside :
    (m : Memory) (p x j : ℕ)
    → p % 4096 ≡ 0
    → x ≢ p
    → x % 4096 ≡ 0
    → j < 4096
    → bzero m p frame_size (x + j) ≡ m (x + j)
bzero-outside m p x j a h b l = ground arith

pub dealloc_frame_eq :
    (s : PhysMem) (p : ℕ)
    → offset p ≡ 0
    → dealloc_frame s p ≡ ok (record s { memory = update s.memory p s.first_free; first_free = p })
unfolding dealloc_frame
dealloc_frame_eq s p a = rw (dealloc_frame, eq→== (offset p) 0 a) refl

module _ (start : ℕ) (s : PhysMem) where
  -- From a free list with a frame, alloc_frame takes its first.
  pub alloc_frame-cons :
      (p : ℕ) (free live : List ℕ)
      → Frames start s (p ∷ free) live
      → (t : PhysMem) × (alloc_frame s ≡ ok (p, t)) × Granted start s live p t
  alloc_frame-cons p free live f =
      let t : PhysMem = record s {
        first_free = s.memory p;
        memory = bzero s.memory p frame_size;
      } in
      let (e, n, c) = f.chain in
      let ((g, h, i, a), fs) = f.free_frames in
      let frames : Frames start t free (p ∷ live) = record {
        chain = Chain-bzero start s.avail s.memory p (s.memory p) free a f.free_distinct.0 fs c;
        free_frames = fs;
        live_frames = ((g, h, i, a), f.live_frames);
        free_distinct = f.free_distinct.1;
        live_distinct = (f.disjoint.0, f.live_distinct);
        disjoint = Disjoint-cons free live p f.disjoint.1 f.free_distinct.0;
        total = omega (arith, f.total);
        bound = f.bound;
        limit_aligned = f.limit_aligned;
        start_aligned = f.start_aligned;
        start_positive = f.start_positive;
        limit_small = f.limit_small;
      } in
      (
        t,
        alloc_frame_free s p e n a,
        record {
          new = f.disjoint.0;
          free = free;
          frames = frames;
          limit = refl;
          zeroes = bzero-inside s.memory p;
          others = λ x j. bzero-outside s.memory p x j a;
        },
      )

  -- With an empty free list and room left, it takes the next frame of the range.
  pub alloc_frame-next :
      (live : List ℕ)
      → Frames start s [] live
      → s.avail ≢ s.limit
      → (t : PhysMem) × (alloc_frame s ≡ ok (s.avail, t)) × Granted start s live s.avail t
  alloc_frame-next live f room =
      let l = f.total in
      let b = f.bound in
      let la = f.limit_aligned in
      let ls = f.limit_small in
      let sp = f.start_positive in
      let sa = f.start_aligned in
      let a : s.avail % 4096 ≡ 0 = omega arith in
      let e : add32 s.avail frame_size ≡ s.avail + 4096 = omega arith in
      let t : PhysMem = record s {
        avail = s.avail + 4096;
        memory = bzero s.memory s.avail frame_size;
      } in
      let frames : Frames start t [] (s.avail ∷ live) = record {
        chain = f.chain;
        free_frames = tt;
        live_frames = (
          (omega arith, omega arith, omega arith, a),
          AllFrames-mono start s.avail (s.avail + 4096) live (omega arith) f.live_frames,
        );
        free_distinct = tt;
        live_distinct = (AllFrames-Apart start s.avail live f.live_frames, f.live_distinct);
        disjoint = tt;
        total = omega arith;
        bound = omega arith;
        limit_aligned = f.limit_aligned;
        start_aligned = f.start_aligned;
        start_positive = f.start_positive;
        limit_small = f.limit_small;
      } in
      (
        t,
        alloc_frame_next s f.chain room a e,
        record {
          new = AllFrames-Apart start s.avail live f.live_frames;
          free = [];
          frames = frames;
          limit = refl;
          zeroes = bzero-inside s.memory s.avail;
          others = λ x j. bzero-outside s.memory s.avail x j a;
        },
      )

  -- A frame in use that is given back is the first free one.
  pub dealloc_frame-Frames :
      (p : ℕ) (free live rest : List ℕ)
      → Frames start s free live
      → IsFrame start s.avail p
      → Apart p free
      → Disjoint free rest
      → Apart p rest
      → Distinct rest
      → AllFrames start s.avail rest
      → length live ≡ suc (length rest)
      → (t : PhysMem) × (dealloc_frame s p ≡ ok t)
        × Frames start t (p ∷ free) rest
        × (t.limit ≡ s.limit)
        × ((q : ℕ) → q ≢ p → t.memory q ≡ s.memory q)
  dealloc_frame-Frames p free live rest f g pf fr pr rd rf n =
      let t : PhysMem = record s { memory = update s.memory p s.first_free; first_free = p } in
      let e : update s.memory p s.first_free p ≡ s.first_free = ground arith in
      let frames : Frames start t (p ∷ free) rest = record {
        chain =
            (refl, g.0, rw e (Chain-update s.memory s.first_free free p s.first_free pf f.chain));
        free_frames = (g, f.free_frames);
        live_frames = rf;
        free_distinct = (pf, f.free_distinct);
        live_distinct = rd;
        disjoint = (pr, fr);
        total = omega (arith, f.total);
        bound = f.bound;
        limit_aligned = f.limit_aligned;
        start_aligned = f.start_aligned;
        start_positive = f.start_positive;
        limit_small = f.limit_small;
      } in
      (t, dealloc_frame_eq s p g.3, frames, refl, λ q n. rw (ne→== p q (λ e. n (sym e))) refl)
