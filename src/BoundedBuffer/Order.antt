-- ===== src/BoundedBuffer/Order.antt =====
-- kernel/bb.h under any interleaving of threads: first in, first out, and within the bounds.
use kernel_development_with.Prelude.{
  ℕ, zero, suc, ◌+◌, ◌^◌, ◌≤◌, ◌<◌, ◌≡◌, refl, List, [], ◌∷◌, ◌++◌, arith, length, get_or, dec_lt,
  set-past, get_or-past,
}
use kernel_development_with.BoundedBuffer.{
  Phase, idle, put_wants, put_reserved, put_locked, put_wrote, put_unlocked, get_wants, get_claimed,
  get_locked, get_read, get_unlocked, Buffer, System, step_in, down, begin, moved, step, run, start,
  idles, Move, puts, gets, goes,
}
use kernel_development_with.BoundedBuffer.Counts.{
  locks, places, claims, sum, sum-set, sum-get_or, Holds, Kept, read-Kept, write-Kept, same-Kept,
}

module _ {A : Type 0} where
  -- The invariant: the buffer holds what was put and not got; one thread at most has the lock; free
  -- places, filled places and those of threads in a call make the size.
  pub record Sound (s : System A) : Type 0 where
    pub items : List A
    pub holds : Holds s.buffer items
    pub lock : s.buffer.lock + sum locks s.phases ≡ 1
    pub room : s.buffer.n_empty + s.buffer.n + sum places s.phases ≡ s.buffer.size
    pub filled : s.buffer.n ≡ s.buffer.n_full + sum claims s.phases

  module _ (b : Buffer A) (xs : List A) (h : Holds b xs) where
    wants_put :
        (count : ℕ) (t : A)
        → b.n_empty ≡ count
        → Kept
            (put_wants t)
            b
            (down count (put_wants t, b) (λ k. (put_reserved t, record b { n_empty = k })))
    wants_put zero t e =
        same-Kept (put_wants t) (put_wants t) b b xs h refl refl refl refl refl refl refl refl refl
    wants_put (suc k) t e =
        same-Kept (put_wants t) (put_reserved t) b (record b { n_empty = k }) xs h refl refl refl
          refl refl refl refl (omega (arith, e)) refl

    reserved :
        (count : ℕ) (t : A)
        → b.lock ≡ count
        → Kept
            (put_reserved t)
            b
            (down count (put_reserved t, b) (λ k. (put_locked t, record b { lock = k })))
    reserved zero t e =
        same-Kept (put_reserved t) (put_reserved t) b b xs h refl refl refl refl refl refl refl refl
          refl
    reserved (suc k) t e =
        same-Kept (put_reserved t) (put_locked t) b (record b { lock = k }) xs h refl refl refl refl
          refl refl (omega (arith, e)) refl refl

    wants_get :
        (count : ℕ)
        → b.n_full ≡ count
        → Kept get_wants b (down count (get_wants, b) (λ k. (get_claimed, record b { n_full = k })))
    wants_get zero e =
        same-Kept get_wants get_wants b b xs h refl refl refl refl refl refl refl refl refl
    wants_get (suc k) e =
        same-Kept get_wants get_claimed b (record b { n_full = k }) xs h refl refl refl refl refl
          refl refl refl (omega (arith, e))

    claimed :
        (count : ℕ)
        → b.lock ≡ count
        → Kept get_claimed b
            (down count (get_claimed, b) (λ k. (get_locked, record b { lock = k })))
    claimed zero e =
        same-Kept get_claimed get_claimed b b xs h refl refl refl refl refl refl refl refl refl
    claimed (suc k) e =
        same-Kept get_claimed get_locked b (record b { lock = k }) xs h refl refl refl refl refl
          refl (omega (arith, e)) refl refl

    step_in-Kept : (p : Phase A) → b.n + places p ≤ b.size → claims p ≤ b.n → Kept p b (step_in p b)
    unfolding step_in
    step_in-Kept idle l m =
        same-Kept idle idle b b xs h refl refl refl refl refl refl refl refl refl
    step_in-Kept (put_wants t) l m = wants_put b.n_empty t refl
    step_in-Kept (put_reserved t) l m = reserved b.lock t refl
    step_in-Kept (put_locked t) l m = write-Kept b xs h t (omega (arith, l))
    step_in-Kept put_wrote l m =
        same-Kept put_wrote put_unlocked b (record b { lock = suc b.lock }) xs h refl refl refl refl
          refl refl (omega arith) refl refl
    step_in-Kept put_unlocked l m =
        same-Kept put_unlocked idle b (record b { n_full = suc b.n_full }) xs h refl refl refl refl
          refl refl refl refl (omega arith)
    step_in-Kept get_wants l m = wants_get b.n_full refl
    step_in-Kept get_claimed l m = claimed b.lock refl
    step_in-Kept get_locked l m = read-Kept b xs h (omega (arith, m)) (omega (arith, l))
    step_in-Kept (get_read out) l m =
        same-Kept (get_read out) (get_unlocked out) b (record b { lock = suc b.lock }) xs h refl
          refl refl refl refl refl (omega arith) refl refl
    step_in-Kept (get_unlocked out) l m =
        same-Kept (get_unlocked out) idle b (record b { n_empty = suc b.n_empty }) xs h refl refl
          refl refl refl refl refl (omega arith) refl

  -- The start of a call changes no count.
  begin-Kept :
      (p q : Phase A) (b : Buffer A) (xs : List A)
      → Holds b xs
      → locks q ≡ 0
      → places q ≡ 0
      → claims q ≡ 0
      → Kept p b (begin p q, b)
  begin-Kept idle q b xs h l m n =
      same-Kept idle q b b xs h refl refl refl refl refl refl (omega (arith, l)) (omega (arith, m))
        (omega (arith, n))
  begin-Kept p q b xs h l m n = same-Kept p p b b xs h refl refl refl refl refl refl refl refl refl

  -- A thread's step keeps the invariant.
  moved-Sound :
      (s : System A) (i : ℕ) (r : Phase A × Buffer A)
      → Sound s
      → i < length s.phases
      → Kept (get_or s.phases i idle) s.buffer r
      → Sound (moved s.phases i r)
  moved-Sound s i r f l k = record {
    items = k.items;
    holds = k.holds;
    lock = omega (arith, f.lock, k.lock, sum-set locks s.phases i r.0 l);
    room = omega (arith, f.room, k.room, k.size, sum-set places s.phases i r.0 l);
    filled = omega (arith, f.filled, k.filled, sum-set claims s.phases i r.0 l);
  }

  -- A move of a thread that is not there changes nothing.
  absent-Sound :
      (s : System A) (i : ℕ) (q : Phase A)
      → Sound s
      → length s.phases ≤ i
      → Sound (moved s.phases i (q, s.buffer))
  absent-Sound s i q f l = rw (set-past s.phases i q l) f

  begins-Sound :
      (s : System A) (i : ℕ) (q : Phase A)
      → Sound s
      → locks q ≡ 0
      → places q ≡ 0
      → claims q ≡ 0
      → Sound (moved s.phases i (begin (get_or s.phases i idle) q, s.buffer))
  begins-Sound s i q f l m n = elim (dec_lt i (length s.phases)) [
    | yes h ↦
        moved-Sound s i (begin (get_or s.phases i idle) q, s.buffer) f h
          (begin-Kept (get_or s.phases i idle) q s.buffer f.items f.holds l m n)
    | no h ↦ absent-Sound s i (begin (get_or s.phases i idle) q) f (omega (arith, h))
  ]

  idle_stays :
      (s : System A) (i : ℕ)
      → Sound s
      → length s.phases ≤ i
      → Sound (moved s.phases i (step_in (get_or s.phases i idle) s.buffer))
  unfolding step_in
  idle_stays s i f h = rw (get_or-past s.phases i idle h) (absent-Sound s i idle f h)

  goes-Sound :
      (s : System A) (i : ℕ)
      → Sound s
      → Sound (moved s.phases i (step_in (get_or s.phases i idle) s.buffer))
  goes-Sound s i f = elim (dec_lt i (length s.phases)) [
    | yes h ↦ moved-Sound s i (step_in (get_or s.phases i idle) s.buffer) f h (
        step_in-Kept s.buffer f.items f.holds (get_or s.phases i idle)
          (omega (arith, f.room, sum-get_or places s.phases i h))
          (omega (arith, f.filled, sum-get_or claims s.phases i h)))
    | no h ↦ idle_stays s i f (omega (arith, h))
  ]

  step-Sound : (s : System A) (m : Move A) → Sound s → Sound (step s m)
  unfolding step
  step-Sound s (puts i t) f = begins-Sound s i (put_wants t) f refl refl refl
  step-Sound s (gets i) f = begins-Sound s i get_wants f refl refl refl
  step-Sound s (goes i) f = goes-Sound s i f

  run-Sound_from : (s : System A) (ms : List (Move A)) → Sound s → Sound (run s ms)
  unfolding run
  run-Sound_from s [] f = f
  run-Sound_from s (m ∷ ms) f = run-Sound_from (step s m) ms (step-Sound s m f)

  sum-idles : (w : Phase A → ℕ) (threads : ℕ) → w idle ≡ 0 → sum w (idles threads) ≡ 0
  sum-idles w zero e = refl
  sum-idles w (suc threads) e = omega (arith, e, sum-idles w threads e)

  start-Sound :
      (threads size : ℕ) (slots : ℕ → A)
      → 0 < size
      → size < 2 ^ 31
      → Sound (start threads size slots)
  start-Sound threads size slots p h = record {
    items = [];
    holds = record { count = refl; ring = tt; log = refl; inside = p; small = h };
    lock = omega (arith, sum-idles locks threads refl);
    room = omega (arith, sum-idles places threads refl);
    filled = omega (arith, sum-idles claims threads refl);
  }

  -- Whatever the interleaving of any number of threads, on a buffer of at least one and fewer
  -- than 2 ^ 31 places: what has been put is what has been got and then the items that are in the
  -- buffer, in this order; these are n and never more than the buffer has places; and at most one
  -- thread is between the two calls on the lock.
  pub run-fifo :
      (threads size : ℕ) (slots : ℕ → A) (ms : List (Move A))
      → 0 < size
      → size < 2 ^ 31
      → let s = run (start threads size slots) ms in
        (items : List A) × (s.buffer.has_put ≡ s.buffer.has_got ++ items)
        × (length items ≡ s.buffer.n)
        × (s.buffer.n ≤ s.buffer.size)
        × (sum locks s.phases ≤ 1)
  run-fifo threads size slots ms p h =
      let f = run-Sound_from (start threads size slots) ms (start-Sound threads size slots p h) in
      (f.items, f.holds.log, f.holds.count, omega (arith, f.room), omega (arith, f.lock))

  -- Threads that are outside, or at the first wait of a call.
  abbrev pub Waits : Phase A → Type 0
  Waits idle = Unit {0}
  Waits (put_wants t) = Unit {0}
  Waits get_wants = Unit {0}
  Waits _ = zero < zero

  abbrev pub AllWait : List (Phase A) → Type 0
  AllWait [] = Unit {0}
  AllWait (p ∷ ps) = Waits p × AllWait ps

  AllWait-counts :
      (ps : List (Phase A))
      → AllWait ps
      → (sum locks ps ≡ 0) × (sum places ps ≡ 0) × (sum claims ps ≡ 0)
  AllWait-counts [] w = (refl, refl, refl)
  AllWait-counts (idle ∷ ps) (w, v) =
      let q = AllWait-counts ps v in (omega (arith, q.0), omega (arith, q.1), omega (arith, q.2))
  AllWait-counts (put_wants t ∷ ps) (w, v) =
      let q = AllWait-counts ps v in (omega (arith, q.0), omega (arith, q.1), omega (arith, q.2))
  AllWait-counts (get_wants ∷ ps) (w, v) =
      let q = AllWait-counts ps v in (omega (arith, q.0), omega (arith, q.1), omega (arith, q.2))
  AllWait-counts (_ ∷ ps) (w, v) = elim w [ ]

  -- After any interleaving that leaves every thread outside or at the first wait of its call, the
  -- lock is free, and the counts are those of the free and of the filled places: so put waits
  -- exactly on a full buffer and get exactly on an empty one.
  pub run-AllWait :
      (threads size : ℕ) (slots : ℕ → A) (ms : List (Move A))
      → 0 < size
      → size < 2 ^ 31
      → AllWait (run (start threads size slots) ms).phases
      → let b = (run (start threads size slots) ms).buffer in
        (b.lock ≡ 1) × (b.n_full ≡ b.n) × (b.n_empty + b.n ≡ b.size)
  run-AllWait threads size slots ms p h w =
      let s = run (start threads size slots) ms in
      let f = run-Sound_from (start threads size slots) ms (start-Sound threads size slots p h) in
      let q = AllWait-counts s.phases w in
      (omega (arith, q.0, f.lock), omega (arith, q.2, f.filled), omega (arith, q.1, f.room))
