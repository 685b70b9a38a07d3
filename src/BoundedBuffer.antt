-- ===== src/BoundedBuffer.antt =====
-- kernel/bb.h: the bounded buffer, used by any number of threads. A step is one call of down or up
-- of its three semaphores or the code between two of them, so a list of moves is an interleaving.
-- A semaphore is its count, by which a call of down waits (kernel/semaphore.h).
pub mod Ring
pub mod Counts
pub mod Order
mod Tests
use kernel_development_with.Prelude.{
  ℕ, zero, suc, ◌+◌, ◌-◌, ◌%◌, ◌^◌, Bool, true, false, List, [], ◌∷◌, ◌++◌, length, get_or, set,
  ltb, add32, sub32,
}
use kernel_development_with.Threads.{put}

-- Where a thread is in put(t) or get(): what it waits for, or has done last.
pub data Phase (A : Type 0) : Type 0 where
  idle : Phase A
  put_wants put_reserved put_locked : A → Phase A
  put_wrote put_unlocked : Phase A
  get_wants get_claimed get_locked : Phase A
  get_read get_unlocked : A → Phase A

-- BoundedBuffer: its fields; and, for the statements, what has been put and got so far.
pub record Buffer (A : Type 0) : Type 0 where
  pub head : ℕ
  pub n : ℕ
  pub n_empty : ℕ
  pub n_full : ℕ
  pub lock : ℕ
  pub size : ℕ
  pub slots : ℕ → A
  pub has_put : List A
  pub has_got : List A

-- The buffer and the phases of the threads.
pub record System (A : Type 0) : Type 0 where
  pub buffer : Buffer A
  pub phases : List (Phase A)

-- A thread calls put or get, or goes on in its call.
pub data Move (A : Type 0) : Type 0 where
  puts : ℕ → A → Move A
  gets : ℕ → Move A
  goes : ℕ → Move A

module _ {A : Type 0} where
  -- BoundedBuffer(N), in an array with any contents.
  abbrev pub make : ℕ → (ℕ → A) → Buffer A
  make size slots = record {
    head = 0;
    n = 0;
    n_empty = size;
    n_full = 0;
    lock = 1;
    size = size;
    slots = slots;
    has_put = [];
    has_got = [];
  }

  -- data[(head + n) % N] = t; n++;
  abbrev pub write : Buffer A → A → Buffer A
  write b t = record b {
    slots = put b.slots (add32 b.head b.n % b.size) t;
    n = add32 b.n 1;
    has_put = b.has_put ++ t ∷ [];
  }

  -- out = data[head]; head = (head + 1) % N; n--;
  abbrev pub read : Buffer A → Buffer A
  read b = record b {
    head = add32 b.head 1 % b.size;
    n = sub32 b.n 1;
    has_got = b.has_got ++ b.slots b.head ∷ [];
  }

  -- down() on a semaphore with this count: the thread stays, or goes on with the count one less.
  abbrev pub down : ℕ → Phase A × Buffer A → (ℕ → Phase A × Buffer A) → Phase A × Buffer A
  down zero stays on = stays
  down (suc count) stays on = on count

  -- The next step of a thread in a phase: its new phase and the buffer.
  unfoldable pub step_in : Phase A → Buffer A → Phase A × Buffer A
  step_in idle b = (idle, b)
  step_in (put_wants t) b =
      down b.n_empty (put_wants t, b) (λ count. (put_reserved t, record b { n_empty = count }))
  step_in (put_reserved t) b =
      down b.lock (put_reserved t, b) (λ count. (put_locked t, record b { lock = count }))
  step_in (put_locked t) b = (put_wrote, write b t)
  step_in put_wrote b = (put_unlocked, record b { lock = suc b.lock })
  step_in put_unlocked b = (idle, record b { n_full = suc b.n_full })
  step_in get_wants b =
      down b.n_full (get_wants, b) (λ count. (get_claimed, record b { n_full = count }))
  step_in get_claimed b =
      down b.lock (get_claimed, b) (λ count. (get_locked, record b { lock = count }))
  step_in get_locked b = (get_read (b.slots b.head), read b)
  step_in (get_read out) b = (get_unlocked out, record b { lock = suc b.lock })
  step_in (get_unlocked out) b = (idle, record b { n_empty = suc b.n_empty })

  -- The phase of a thread that may begin a call, if it is in none.
  abbrev pub begin : Phase A → Phase A → Phase A
  begin idle p = p
  begin busy p = busy

  abbrev pub moved : List (Phase A) → ℕ → Phase A × Buffer A → System A
  moved phases i r = record { buffer = r.1; phases = set phases i r.0 }

  unfoldable pub step : System A → Move A → System A
  step s (puts i t) = moved s.phases i (begin (get_or s.phases i idle) (put_wants t), s.buffer)
  step s (gets i) = moved s.phases i (begin (get_or s.phases i idle) get_wants, s.buffer)
  step s (goes i) = moved s.phases i (step_in (get_or s.phases i idle) s.buffer)

  unfoldable pub run : System A → List (Move A) → System A
  run s [] = s
  run s (m ∷ ms) = run (step s m) ms

  -- `threads` threads outside.
  abbrev pub idles : ℕ → List (Phase A)
  idles zero = []
  idles (suc threads) = idle ∷ idles threads

  abbrev pub start : ℕ → ℕ → (ℕ → A) → System A
  start threads size slots = record { buffer = make size slots; phases = idles threads }
