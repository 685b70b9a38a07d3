-- ===== src/Heap/Cuts.antt =====
-- What kernel/heap.cc's `makeTaken` and `makeAvail` do to the blocks and to the list: the first
-- ints of the gap become a block.
use kernel_development_with.Prelude.{
  ℕ, suc, ◌+◌, ◌-◌, ◌≤◌, ◌<◌, ◌≡◌, ◌≢◌, ◌⊎◌, inl, inr, refl, sym, ap, ◌∙◌, Bool, true, false,
  if◌then◌else◌, ◌==◌, not, ◌&&◌, arith, subst, Bool-cases,
}
use kernel_development_with.Heap.{Heap, negate}
use kernel_development_with.Heap.Links.{listed-ne_0, push-Linked, same-Linked, put-true}
use kernel_development_with.Heap.Reads.{Plan, Held, mark}
use kernel_development_with.Heap.Writes.{ends, pushed}
use kernel_development_with.Heap.Steps.{interior}
use kernel_development_with.Heap.Tiles.{cut, put_ne, put-split, put_self}
use kernel_development_with.Threads.{put}

pub true-ne_false : true ≡ false → 0 < 0
true-ne_false h = ground arith

pub ends-out : (a : ℕ → ℕ) (i n w j : ℕ) → (j < i) ⊎ (i + n ≤ j) → 1 ≤ n → ends a i n w j ≡ a j
ends-out a i n w j o h = ground arith

ends-header : (a : ℕ → ℕ) (i n w j : ℕ) → j ≡ i → ends a i n w j ≡ w
ends-header a i n w j e = ground arith

ends-footer : (a : ℕ → ℕ) (i n w j : ℕ) → j ≡ i + n - 1 → ends a i n w j ≡ w
ends-footer a i n w j e = ground arith

pushed-array :
    (s : Heap) (i n q : ℕ)
    → (pushed s i n).array q ≡ (
        if not (s.avail == 0) && (q == s.avail + 2)
        then i
        else if q == i + 2
        then 0
        else if q == i + 1
        then s.avail
        else ends s.array i n n q)
pushed-array s i n q = ground arith

-- makeTaken: the state
abbrev pub taken : Heap → ℕ → ℕ → Heap
taken s i n = record s { array = ends s.array i n (negate n) }

abbrev pub with_taken : Plan → ℕ → ℕ → Plan
with_taken g i n = record g { extent = put g.extent i n }

abbrev pub with_avail : Plan → ℕ → ℕ → ℕ → Plan
with_avail g i n head = record g {
  extent = put g.extent i n;
  listed = put g.listed i true;
  rank = put g.rank i (suc (g.rank head));
}

-- Both ends of every block show it once a block is cut from the gap.
abbrev Shows : (ℕ → ℕ) → (ℕ → ℕ) → (ℕ → Bool) → ℕ → Type 0
Shows a extent listed q =
    (a q ≡ mark (listed q) (extent q)) × (a (q + extent q - 1) ≡ mark (listed q) (extent q))

cut-shown :
    (g : Plan) (lo n : ℕ) (listed' : ℕ → Bool) (w : ℕ) (a a' : ℕ → ℕ)
    → w ≡ mark (listed' lo) n
    → a' lo ≡ w
    → a' (lo + n - 1) ≡ w
    → ((q : ℕ) → 0 < g.extent q → q ≢ lo → listed' q ≡ g.listed q)
    → ((q : ℕ) → 0 < g.extent q → (a' q ≡ a q) × (a' (q + g.extent q - 1) ≡ a (q + g.extent q - 1)))
    → ((q : ℕ) → 0 < g.extent q → Shows a g.extent g.listed q)
    → (q : ℕ) → 0 < put g.extent lo n q
    → Shows a' (put g.extent lo n) listed' q
cut-shown g lo n listed' w a a' ew e1 e2 el ea S q k = elim (put-split g.extent lo n q k) [
  | inl (e, d) ↦
      subst (λ z. Shows a' (put g.extent lo n) listed' z) (sym e)
        (rw (put_self g.extent lo n) (e1 ∙ ew, e2 ∙ ew))
  | inr (e, d, k') ↦ let (f, f') = ea q k' in rw (d, el q k' e, f, f') (S q k')
]

module _ (s : Heap) (g : Plan) (lo hi : ℕ) (H : Held s g lo hi) where
  pub unlisted : lo < hi → g.listed lo ≡ false
  unlisted h = elim (Bool-cases (g.listed lo)) [
    | inl e ↦
        let n = H.inner lo e in let a = H.tiled.around lo (omega arith) in elim (absurd_gap n a) [ ]
    | inr e ↦ e
  ]
    where
      absurd_gap :
          (4 ≤ g.extent lo) × (lo + g.extent lo < s.len)
          → (lo + g.extent lo ≤ lo) ⊎ (hi ≤ lo)
          → 0 < 0
      absurd_gap n a = omega (arith, h, n, a)

  -- A block's two ends, and a listed block's links, stand outside the gap.
  pub out :
      (q d n : ℕ) → 0 < g.extent q → d < g.extent q → lo + n ≤ hi → (q + d < lo) ⊎ (lo + n ≤ q + d)
  out q d n k h m = let a = H.tiled.around q k in ground arith

  pub below_len : hi < s.len
  below_len = let f = H.tiled.fits hi H.tiled.gap_after in let a = H.tiled.gap_after in omega arith

  pub taken-Held :
      (n : ℕ) → 2 ≤ n → lo + n ≤ hi → Held (taken s lo n) (with_taken g lo n) (lo + n) hi
  taken-Held n n2 h = record {
    room = H.room;
    tiled = cut g.extent s.len lo hi n H.tiled n2 h;
    inner = λ q k. rw (put_ne g.extent lo q n (listed_ne q k)) (H.inner q k);
    shown =
        cut-shown g lo n g.listed (negate n) s.array (taken s lo n).array
          (ap (λ b. mark b n) (sym (unlisted (omega (arith, h, n2)))))
          (ends-header s.array lo n (negate n) lo refl)
          (ends-footer s.array lo n (negate n) (lo + n - 1) refl) (λ q k m. refl)
          (λ q k. (
            subst (λ z. ends s.array lo n (negate n) z ≡ s.array z) (omega arith)
                (ends-out s.array lo n (negate n) (q + 0) (out q 0 n k k h) (omega (arith, n2))),
            subst (λ z. ends s.array lo n (negate n) z ≡ s.array z) (omega (arith, k))
                (ends-out s.array lo n (negate n) (q + (g.extent q - 1))
                  (out q (g.extent q - 1) n k (omega (arith, k)) h) (omega (arith, n2))),
          ))
          H.shown;
    linked =
        same-Linked H.linked (λ p. (taken s lo n).array (p + 1)) (λ p. (taken s lo n).array (p + 2))
          (λ q k.
            let z = H.inner q k in
            ends-out s.array lo n (negate n) (q + 1) (out q 1 n (omega arith) (omega arith) h)
              (omega arith))
          (λ q k.
            let z = H.inner q k in
            ends-out s.array lo n (negate n) (q + 2) (out q 2 n (omega arith) (omega arith) h)
              (omega arith));
  }
    where
      listed_ne : (q : ℕ) → g.listed q ≡ true → q ≢ lo
      listed_ne q k e =
          elim (true-ne_false (sym k ∙ ap g.listed e ∙ unlisted (omega (arith, h, n2)))) [ ]

  -- The head of the list, when there is one, is a block outside the gap.
  head_out : (j n : ℕ) → s.avail ≢ 0 → lo + n ≤ hi → lo ≤ j → j < lo + n → j ≢ s.avail + 2
  head_out j n k h a b e =
      let i = H.inner s.avail (H.linked.started k).0 in
      let o = out s.avail 2 n (omega arith) (omega arith) h in
      let z : 0 < 0 = omega (arith, o, e, a, b) in elim z [ ]

  module _ (n : ℕ) (n4 : 4 ≤ n) (h : lo + n ≡ hi) where
    pushed-gap :
        (j : ℕ)
        → lo ≤ j
        → j < lo + n
        → (pushed s lo n).array j
          ≡ (if j == lo + 2 then 0 else if j == lo + 1 then s.avail else ends s.array lo n n j)
    pushed-gap j a b =
        let u = pushed-array s lo n j in
        let v : s.avail ≢ 0 → j ≢ s.avail + 2 = λ k. head_out j n k (omega arith) a b in
        ground arith

    pub pushed-kept :
        (j : ℕ)
        → (j < lo) ⊎ (lo + n ≤ j)
        → (s.avail ≢ 0 → j ≢ s.avail + 2)
        → (pushed s lo n).array j ≡ s.array j
    pushed-kept j o k =
        let u = pushed-array s lo n j in
        let v = ends-out s.array lo n n j o (omega arith) in ground arith

    pushed-ends :
        (q : ℕ)
        → 0 < g.extent q
        → ((pushed s lo n).array q ≡ s.array q)
          × ((pushed s lo n).array (q + g.extent q - 1) ≡ s.array (q + g.extent q - 1))
    pushed-ends q k =
        let i : s.avail ≢ 0 → (q ≢ s.avail + 2) × (q + g.extent q - 1 ≢ s.avail + 2) = λ m.
          interior s g lo hi H s.avail q 2 (H.linked.started m).0 k (omega arith) (omega arith) in
        (
          pushed-kept q (let o = out q 0 n k k (omega arith) in ground arith) (λ m. (i m).0),
          pushed-kept (q + g.extent q - 1)
              (let o = out q (g.extent q - 1) n k (omega arith) (omega arith) in ground arith)
              (λ m. (i m).1),
        )

    pushed-next : (q : ℕ) → g.listed q ≡ true → (pushed s lo n).array (q + 1) ≡ s.array (q + 1)
    pushed-next q k =
        let z = H.inner q k in
        pushed-kept (q + 1) (out q 1 n (omega arith) (omega arith) (omega arith)) (λ m e.
          let y = H.inner s.avail (H.linked.started m).0 in
          (interior s g lo hi H s.avail q 1 (H.linked.started m).0 (omega arith) (omega arith)
              (omega arith)).0
            (omega (arith, e)))

    pushed-prev :
        (q : ℕ)
        → g.listed q ≡ true
        → (pushed s lo n).array (q + 2) ≡ (if q == s.avail then lo else s.array (q + 2))
    pushed-prev q k =
        let z = H.inner q k in
        let n0 = listed-ne_0 H.linked q k in
        let o = out q 2 n (omega arith) (omega arith) (omega arith) in
        let u = pushed-array s lo n (q + 2) in
        let v = ends-out s.array lo n n (q + 2) o (omega arith) in ground arith

    pub pushed-Held : Held (pushed s lo n) (with_avail g lo n s.avail) (lo + n) hi
    pushed-Held =
        let nl = unlisted (omega arith) in
        record {
          room = H.room;
          tiled = cut g.extent s.len lo hi n H.tiled (omega arith) (omega arith);
          inner = λ q k. elim (put-true g.listed lo q k) [
            | inl e ↦ rw (e, put_self g.extent lo n) (n4, let b = below_len in omega arith)
            | inr (m, k') ↦ rw (put_ne g.extent lo q n m) (H.inner q k')
          ];
          shown =
              cut-shown g lo n (put g.listed lo true) n s.array (pushed s lo n).array
                (ap (λ b. mark b n) (sym (put_self g.listed lo true)))
                (let u = pushed-gap lo (omega arith) (omega arith) in ground arith)
                (let u = pushed-gap (lo + n - 1) (omega arith) (omega arith) in ground arith)
                (λ q k m. put_ne g.listed lo q true m) pushed-ends H.shown;
          linked =
              push-Linked H.linked lo nl
                (let (j, pj, ej) = H.tiled.gap_before in omega (arith, pj, ej))
                (λ p. (pushed s lo n).array (p + 1)) (λ p. (pushed s lo n).array (p + 2))
                (let u = pushed-gap (lo + 1) (omega arith) (omega arith) in ground arith)
                (let u = pushed-gap (lo + 2) (omega arith) (omega arith) in ground arith)
                pushed-next pushed-prev;
        }
