-- ===== src/Queue/Fifo.antt =====
-- The queue of kernel/queue.h refines a list: `add` appends, `remove` takes the head.
use kernel_development_with.Prelude.{
  ℕ, ◌≡◌, ◌≢◌, refl, List, [], ◌∷◌, ◌++◌, arith, Apart, last_of-snoc, Distinct-snoc,
}
use kernel_development_with.Queue.{State, add, remove, remove_all}
use kernel_development_with.Queue.Chain.{Chain, Holds, Chain-snoc}

-- A non-null node that is not queued goes to the end.
pub add-Holds :
    (s : State) (xs : List ℕ) (t : ℕ)
    → Holds s xs
    → t ≢ 0
    → Apart t xs
    → Holds (add s t) (xs ++ t ∷ [])
unfolding add
add-Holds s [] t h n a = ground (arith, h.chain)
add-Holds s (x ∷ xs) t h n a = record {
  chain = ground (arith, Chain-snoc s.links s.queue.first x xs t h.chain h.distinct a n);
  ends = ground (arith, last_of-snoc x t xs);
  distinct = Distinct-snoc t (x ∷ xs) h.distinct a;
}

-- The first node comes out, and the rest stays in order.
pub remove-Holds :
    (s : State) (x : ℕ) (xs : List ℕ)
    → Holds s (x ∷ xs)
    → ((remove s).0 ≡ x) × Holds (remove s).1 xs
unfolding remove
remove-Holds s x [] h = ground arith
remove-Holds s x (y ∷ ys) h = ground arith

-- An empty queue gives null and stays as it is.
pub remove-empty : (s : State) → Holds s [] → remove s ≡ (0, s)
unfolding remove
remove-empty s h = ground arith

-- remove_all gives everything that the queue held as one chain in order, and leaves the queue
-- empty.
pub remove_all-Holds :
    (s : State) (xs : List ℕ)
    → Holds s xs
    → Chain (remove_all s).1.links (remove_all s).0 xs × Holds (remove_all s).1 []
unfolding remove_all
remove_all-Holds s xs h = (h.chain, record { chain = refl; ends = refl; distinct = tt })

-- A client's calls. `adds` returns nothing, written 0.
pub data Call : Type 0 where
  adds : ℕ → Call
  removes : Call

abbrev pub call : State → Call → ℕ × State
call s (adds t) = (0, add s t)
call s removes = remove s

-- What a first-in first-out list does on the same call.
abbrev pub spec_call : List ℕ → Call → ℕ × List ℕ
spec_call xs (adds t) = (0, xs ++ t ∷ [])
spec_call [] removes = (0, [])
spec_call (x ∷ xs) removes = (x, xs)

-- Only a non-null node that is not queued is added.
abbrev pub Fits : List ℕ → Call → Type 0
Fits xs (adds t) = (t ≢ 0) × Apart t xs
Fits xs removes = Unit {0}

pub call-refines :
    (s : State) (xs : List ℕ) (c : Call)
    → Holds s xs
    → Fits xs c
    → ((call s c).0 ≡ (spec_call xs c).0) × Holds (call s c).1 (spec_call xs c).1
call-refines s xs (adds t) h f = (refl, add-Holds s xs t h f.0 f.1)
call-refines s [] removes h f = rw (remove-empty s h) (refl, h)
call-refines s (x ∷ xs) removes h f = remove-Holds s x xs h

-- The results of a sequence of calls.
abbrev pub results : State → List Call → List ℕ
results s [] = []
results s (c ∷ cs) = (call s c).0 ∷ results (call s c).1 cs

abbrev pub spec_results : List ℕ → List Call → List ℕ
spec_results xs [] = []
spec_results xs (c ∷ cs) = (spec_call xs c).0 ∷ spec_results (spec_call xs c).1 cs

abbrev pub AllFit : List ℕ → List Call → Type 0
AllFit xs [] = Unit {0}
AllFit xs (c ∷ cs) = Fits xs c × AllFit (spec_call xs c).1 cs

-- From a queue that holds a list, every sequence of calls of add and remove that adds only
-- non-null nodes which are not queued at that point returns what a first-in first-out list
-- returns, node by node.
pub results-refines :
    (s : State) (xs : List ℕ) (cs : List Call)
    → Holds s xs
    → AllFit xs cs
    → results s cs ≡ spec_results xs cs
results-refines s xs [] h f = refl
results-refines s xs (c ∷ cs) h f =
    let r = call-refines s xs c h f.0 in
    rw (r.0, results-refines (call s c).1 (spec_call xs c).1 cs r.1 f.1)
