-- ===== src/BoundedBuffer/Counts.antt =====
-- The counts of kernel/bb.h: what each thread in a call contributes to the balance of the semaphores
-- and of `n`.
use kernel_development_with.Prelude.{
  ℕ, zero, suc, ◌+◌, ◌^◌, ◌≤◌, ◌<◌, ◌≡◌, refl, sym, ◌∙◌, List, [], ◌∷◌, ◌++◌, arith, length, get_or,
  set, add32, sub32, append_assoc, length-append,
}
use kernel_development_with.BoundedBuffer.{
  Phase, idle, put_reserved, put_locked, put_wrote, put_unlocked, get_claimed, get_locked, get_read,
  get_unlocked, Buffer, write, read,
}
use kernel_development_with.BoundedBuffer.Ring.{Ring, Ring-snoc, Ring-tail, place, place_mod}

module _ {A : Type 0} where
  -- Threads that hold the lock.
  abbrev pub locks : Phase A → ℕ
  locks (put_locked t) = 1
  locks put_wrote = 1
  locks get_locked = 1
  locks (get_read out) = 1
  locks _ = 0

  -- Threads that have a place that is neither free for others nor filled.
  abbrev pub places : Phase A → ℕ
  places (put_reserved t) = 1
  places (put_locked t) = 1
  places (get_read out) = 1
  places (get_unlocked out) = 1
  places _ = 0

  -- Threads that have an item that is in the buffer and not free for others.
  abbrev pub claims : Phase A → ℕ
  claims put_wrote = 1
  claims put_unlocked = 1
  claims get_claimed = 1
  claims get_locked = 1
  claims _ = 0

  abbrev pub sum : (Phase A → ℕ) → List (Phase A) → ℕ
  sum w [] = 0
  sum w (p ∷ ps) = w p + sum w ps

  pub sum-set :
      (w : Phase A → ℕ) (ps : List (Phase A)) (i : ℕ) (q : Phase A)
      → i < length ps
      → sum w (set ps i q) + w (get_or ps i idle) ≡ sum w ps + w q
  sum-set w [] i q h = elim h [ ]
  sum-set w (p ∷ ps) zero q h = omega arith
  sum-set w (p ∷ ps) (suc i) q h = omega (arith, sum-set w ps i q (omega (arith, h)))

  pub sum-get_or :
      (w : Phase A → ℕ) (ps : List (Phase A)) (i : ℕ)
      → i < length ps
      → w (get_or ps i idle) ≤ sum w ps
  sum-get_or w [] i h = elim h [ ]
  sum-get_or w (p ∷ ps) zero h = omega arith
  sum-get_or w (p ∷ ps) (suc i) h = omega (arith, sum-get_or w ps i (omega (arith, h)))

  -- The buffer holds `xs`: what has been put and not yet got, in order.
  pub record Holds (b : Buffer A) (xs : List A) : Type 0 where
    pub count : length xs ≡ b.n
    pub ring : Ring b.slots b.size b.head 0 xs
    pub log : b.has_put ≡ b.has_got ++ xs
    pub inside : b.head < b.size
    pub small : b.size < 2 ^ 31

  -- What one step of a thread keeps.
  pub record Kept (p : Phase A) (b : Buffer A) (r : Phase A × Buffer A) : Type 0 where
    pub items : List A
    pub holds : Holds r.1 items
    pub size : r.1.size ≡ b.size
    pub lock : r.1.lock + locks r.0 ≡ b.lock + locks p
    pub room : r.1.n_empty + r.1.n + places r.0 ≡ b.n_empty + b.n + places p
    pub filled : r.1.n + b.n_full + claims p ≡ b.n + r.1.n_full + claims r.0

  module _ (b : Buffer A) (xs : List A) (h : Holds b xs) where
    -- With room, the write of put appends the item.
    pub write-Kept : (t : A) → b.n < b.size → Kept (put_locked t) b (put_wrote, write b t)
    write-Kept t l =
        let e : add32 b.n 1 ≡ suc b.n = omega (arith, l, h.small) in
        let c = h.count in
        let m : length xs < b.size = rw c l in
        let q = place_mod b.size b.head b.n h.inside (omega (arith, l)) h.small in
        let r = Ring-snoc b.slots b.size b.head t xs h.inside m h.ring in
        record {
          items = xs ++ t ∷ [];
          holds = record {
            count = length-append xs (t ∷ []) ∙ omega (arith, h.count, e);
            ring = rw (q, sym c) r;
            log = rw h.log (append_assoc b.has_got xs (t ∷ []));
            inside = h.inside;
            small = h.small;
          };
          size = refl;
          lock = refl;
          room = omega (arith, e);
          filled = omega (arith, e);
        }

  -- With an item, the read of get takes the first.
  pub read-Kept :
      (b : Buffer A) (xs : List A)
      → Holds b xs
      → 0 < b.n
      → b.n ≤ b.size
      → Kept get_locked b (get_read (b.slots b.head), read b)
  read-Kept b [] h l m = elim (empty_clash b.n h.count l) [ ]
    where
      empty_clash : (n : ℕ) → 0 ≡ n → 0 < n → 0 < 0
      empty_clash n e l = omega (arith, e, l)
  read-Kept b (x ∷ xs) h l m =
      let c = h.count in
      let e : sub32 b.n 1 ≡ length xs = omega (arith, h.small) in
      let q = place_mod b.size b.head 1 h.inside (omega arith) h.small in
      let p : place b.size b.head 0 ≡ b.head = ground (arith, h.inside) in
      let first : b.slots b.head ≡ x = rw p at h.ring.0 in
      record {
        items = xs;
        holds = record {
          count = sym e;
          ring = rw q (Ring-tail b.slots b.size b.head h.inside 0 xs (omega arith) h.ring.1);
          log = h.log ∙ rw first (sym (append_assoc b.has_got (x ∷ []) xs));
          inside = rw q (ground (arith, h.inside));
          small = h.small;
        };
        size = refl;
        lock = refl;
        room = omega (arith, e);
        filled = omega (arith, e);
      }

  -- A step that moves no item.
  pub same-Kept :
      (p q : Phase A) (b c : Buffer A) (xs : List A)
      → Holds b xs
      → c.head ≡ b.head
      → c.n ≡ b.n
      → c.size ≡ b.size
      → c.slots ≡ b.slots
      → c.has_put ≡ b.has_put
      → c.has_got ≡ b.has_got
      → c.lock + locks q ≡ b.lock + locks p
      → c.n_empty + places q ≡ b.n_empty + places p
      → b.n_full + claims p ≡ c.n_full + claims q
      → Kept p b (q, c)
  same-Kept p q b c xs h e1 e2 e3 e4 e5 e6 l r f = record {
    items = xs;
    holds = record {
      count = h.count ∙ sym e2;
      ring = rw (e1, e3, e4) h.ring;
      log = rw (e5, e6) h.log;
      inside = rw (e1, e3) h.inside;
      small = rw e3 h.small;
    };
    size = e3;
    lock = l;
    room = omega (arith, e2, r);
    filled = omega (arith, e2, f);
  }
