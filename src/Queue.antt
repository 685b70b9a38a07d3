-- ===== src/Queue.antt =====
-- kernel/queue.h: the intrusive first-in first-out queue. A node is its address, null is 0, and
-- the `next` fields of all nodes are one store, since a node moves from queue to queue. Each
-- operation holds the queue's lock from its first to its last access, so it is one step.
pub mod Chain
pub mod Fifo
pub mod Frame
mod Tests
use kernel_development_with.Prelude.{ℕ, ◌≡◌, if◌then◌else◌, ◌==◌, arith}

-- The `next` field of every node.
abbrev pub Links : Type 0
Links = ℕ → ℕ

abbrev pub update : Links → ℕ → ℕ → Links
update f p v q = if p == q then v else f q

pub record Queue : Type 0 where
  pub first : ℕ
  pub last : ℕ

-- What an operation leaves behind.
pub record State : Type 0 where
  pub links : Links
  pub queue : Queue

-- Queue()
abbrev pub empty : Queue
empty = record { first = 0; last = 0 }

-- add(T* t)
unfoldable pub add : State → ℕ → State
add s t =
    let links : Links = update s.links t 0 in
    if s.queue.first == 0
    then record { links = links; queue = record { first = t; last = t } }
    else record {
      links = update links s.queue.last t;
      queue = record { first = s.queue.first; last = t };
    }

-- remove(): the removed node (0 if there is none) and the state after it.
unfoldable pub remove : State → ℕ × State
remove s = if s.queue.first == 0 then (0, s) else (s.queue.first, record s { queue = rest })
  where
    rest : Queue
    rest =
        let first : ℕ = s.links s.queue.first in
        record { first = first; last = if first == 0 then 0 else s.queue.last }

-- remove_all()
unfoldable pub remove_all : State → ℕ × State
remove_all s = (s.queue.first, record s { queue = empty })

-- `remove` writes no node.
pub remove-links : (s : State) → (remove s).1.links ≡ s.links
unfolding remove
remove-links s = ground arith
