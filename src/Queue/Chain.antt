-- ===== src/Queue/Chain.antt =====
-- What a queue of kernel/queue.h holds: the nodes met from `first` along `next`, and `last`.
use kernel_development_with.Prelude.{
  ℕ, ◌≡◌, ◌≢◌, List, [], ◌∷◌, ◌++◌, arith, Apart, Distinct, last_of, Apart-last_of,
}
use kernel_development_with.Queue.{Links, update, State}

-- The nodes from `p` on are `xs`, and the last of them points to null.
abbrev pub Chain : Links → ℕ → List ℕ → Type 0
Chain l p [] = p ≡ 0
Chain l p (x ∷ xs) = (p ≡ x) × (x ≢ 0) × Chain l (l x) xs

pub record Holds (s : State) (xs : List ℕ) : Type 0 where
  pub chain : Chain s.links s.queue.first xs
  pub ends : s.queue.last ≡ last_of 0 xs
  pub distinct : Distinct xs

-- A write to a node outside the chain does not change it.
pub Chain-update :
    (l : Links) (p : ℕ) (xs : List ℕ) (t v : ℕ)
    → Apart t xs
    → Chain l p xs
    → Chain (update l t v) p xs
Chain-update l p [] t v a c = c
Chain-update l p (x ∷ xs) t v a c = (c.0, c.1, ground (arith, Chain-update l (l x) xs t v a.1 c.2))

-- Linking `t` behind the last node appends it.
pub Chain-snoc :
    (l : Links) (p x : ℕ) (xs : List ℕ) (t : ℕ)
    → Chain l p (x ∷ xs)
    → Distinct (x ∷ xs)
    → Apart t (x ∷ xs)
    → t ≢ 0
    → Chain (update (update l t 0) (last_of x xs) t) p (x ∷ xs ++ t ∷ [])
Chain-snoc l p x [] t c d a n = (c.0, c.1, (ground arith, n, ground arith))
Chain-snoc l p x (y ∷ ys) t c d a n =
    (c.0, c.1, ground (arith, Apart-last_of x y ys d.0, Chain-snoc l (l x) y ys t c.2 d.1 a.1 n))
