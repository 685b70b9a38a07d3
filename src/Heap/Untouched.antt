-- ===== src/Heap/Untouched.antt =====
-- What kernel/heap.cc's operations leave alone: the blocks that are taken, with their contents.
use kernel_development_with.Prelude.{ℕ, ◌+◌, ◌≤◌, ◌<◌, ◌≡◌, ◌≢◌, sym, ap, ◌∙◌, true, false, arith}
use kernel_development_with.Heap.{Heap, negate}
use kernel_development_with.Heap.Reads.{Plan, Held}
use kernel_development_with.Heap.Writes.{pushed, unlinked}
use kernel_development_with.Heap.Steps.{without, behind, ahead, unlinked-kept}
use kernel_development_with.Heap.Cuts.{
  true-ne_false, ends-out, out, pushed-kept, taken, with_taken, with_avail,
}
use kernel_development_with.Heap.Tiles.{put_ne}

-- A block that is taken, at `q`.
abbrev pub Taken : Plan → ℕ → Type 0
Taken g q = (0 < g.extent q) × (g.listed q ≡ false)

-- Every block that is taken stays, with every int in it.
abbrev pub Keeps : Heap → Plan → Heap → Plan → Type 0
Keeps s g s' g' =
    (q : ℕ)
    → Taken g q
    → Taken g' q
      × (g'.extent q ≡ g.extent q)
      × ((d : ℕ) → d < g.extent q → s'.array (q + d) ≡ s.array (q + d))

pub Keeps-trans :
    (s : Heap) (g : Plan) (s' : Heap) (g' : Plan) (s'' : Heap) (g'' : Plan)
    → Keeps s g s' g'
    → Keeps s' g' s'' g''
    → Keeps s g s'' g''
Keeps-trans s g s' g' s'' g'' K L q t =
    let (t', e, c) = K q t in
    let (t'', e', c') = L q t' in (t'', e' ∙ e, λ d k. c' d (rw e k) ∙ c d k)

module _ (s : Heap) (g : Plan) (lo hi : ℕ) (H : Held s g lo hi) where
  ne_of : (p q : ℕ) → g.listed p ≡ true → g.listed q ≡ false → p ≢ q
  ne_of p q l m e = elim (true-ne_false (sym l ∙ ap g.listed e ∙ m)) [ ]

  -- An int of a taken block is none of a listed one.
  foreign : (p q d c : ℕ) → g.listed p ≡ true → Taken g q → d < g.extent q → c < 4 → q + d ≢ p + c
  foreign p q d c l t k h =
      let n = H.inner p l in
      let a = H.tiled.apart p q (omega arith) t.0 in
      let b = H.tiled.apart q p t.0 (omega arith) in let m = ne_of p q l t.1 in ground arith

  pub unlinked-Keeps : (i : ℕ) → g.listed i ≡ true → Keeps s g (unlinked s i) (without g i)
  unlinked-Keeps i l q t =
      let n : q ≢ i = λ e. ne_of i q l t.1 (sym e) in
      let e = put_ne g.extent i q 0 n in
      (
        (rw e t.0, rw (put_ne g.listed i q false n) t.1),
        e,
        λ d k.
            unlinked-kept s g lo hi H i l (q + d)
              (λ m. foreign (s.array (i + 1)) q d 2 (ahead s g lo hi H i l m) t k (omega arith))
              (λ m. foreign (s.array (i + 2)) q d 1 (behind s g lo hi H i l m) t k (omega arith)),
      )

  gap_ne : (q n : ℕ) → 1 ≤ n → lo + n ≤ hi → 0 < g.extent q → q ≢ lo
  gap_ne q n n1 h k e =
      let a = out s g lo hi H q 0 n k k h in let z : 0 < 0 = omega (arith, a, e, n1) in elim z [ ]

  pub taken-Keeps : (n : ℕ) → 2 ≤ n → lo + n ≤ hi → Keeps s g (taken s lo n) (with_taken g lo n)
  taken-Keeps n n2 h q t =
      let m = gap_ne q n (omega arith) h t.0 in
      let e = put_ne g.extent lo q n m in
      (
        (rw e t.0, t.1),
        e,
        λ d k.
            ends-out s.array lo n (negate n) (q + d) (out s g lo hi H q d n t.0 k h) (omega arith),
      )

  pub pushed-Keeps :
      (n : ℕ) → 4 ≤ n → lo + n ≡ hi → Keeps s g (pushed s lo n) (with_avail g lo n s.avail)
  pushed-Keeps n n4 h q t =
      let m = gap_ne q n (omega arith) (omega arith) t.0 in
      let e = put_ne g.extent lo q n m in
      (
        (rw e t.0, rw (put_ne g.listed lo q true m) t.1),
        e,
        λ d k.
            pushed-kept s g lo hi H n n4 h (q + d) (out s g lo hi H q d n t.0 k (omega arith))
              (λ m'. foreign s.avail q d 2 (H.linked.started m').0 t k (omega arith)),
      )
