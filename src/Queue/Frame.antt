-- ===== src/Queue/Frame.antt =====
-- Two queues of kernel/queue.h over the same nodes: what `add` to one leaves of the other.
use kernel_development_with.Prelude.{
  ℕ, List, [], ◌∷◌, arith, Apart, Disjoint, last_of, Apart-last_of-Disjoint,
}
use kernel_development_with.Queue.{Links, update, Queue, State, add}
use kernel_development_with.Queue.Chain.{Holds, Chain-update}

abbrev pub beside : Links → Queue → State
beside l q = record { links = l; queue = q }

pub beside-update :
    (l : Links) (q : Queue) (ys : List ℕ) (t v : ℕ)
    → Apart t ys
    → Holds (beside l q) ys
    → Holds (beside (update l t v) q) ys
beside-update l q ys t v a h = record {
  chain = Chain-update l q.first ys t v a h.chain;
  ends = h.ends;
  distinct = h.distinct;
}

pub add-beside :
    (s : State) (q : Queue) (xs ys : List ℕ) (t : ℕ)
    → Holds s xs
    → Holds (beside s.links q) ys
    → Apart t ys
    → Disjoint xs ys
    → Holds (beside (add s t).links q) ys
unfolding add
add-beside s q [] ys t h k a d = ground (arith, h.chain, beside-update s.links q ys t 0 a k)
add-beside s q (x ∷ xs) ys t h k a d =
    let step = beside-update s.links q ys t 0 a k in
    let r : Holds (beside (update (update s.links t 0) s.queue.last t) q) ys = rw h.ends (
      beside-update (update s.links t 0) q ys (last_of x xs) t (Apart-last_of-Disjoint x xs ys d)
        step) in
    ground (arith, h.chain, r)
