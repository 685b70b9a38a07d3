-- ===== src/Heap/Allocation.antt =====
-- kernel/heap.cc: `malloc` on an array whose blocks are in order.
use kernel_development_with.Prelude.{
  ℕ, ◌+◌, ◌-◌, ◌*◌, ◌≤◌, ◌<◌, ◌≡◌, ◌≢◌, refl, sym, ◌∙◌, true, arith, ℕ_discrete, dec_le, subst,
  add32, le→leb, gt→leb,
}
use kernel_development_with.Heap.{Heap, done, ◌>>=◌, split, grant}
use kernel_development_with.Heap.Reads.{Plan, Held, sub32_small, add32_small, is_negative_small}
use kernel_development_with.Heap.Links.{listed-ne_0}
use kernel_development_with.Heap.Writes.{
  pushed, unlinked, remove-inside, make_taken-inside, make_avail-inside,
}
use kernel_development_with.Heap.Steps.{without, unlinked-Held, unlinked-len, unlinked-base}
use kernel_development_with.Heap.Cuts.{
  below_len, unlisted, taken, with_taken, with_avail, taken-Held, pushed-Held,
}
use kernel_development_with.Heap.Untouched.{
  Taken, Keeps, Keeps-trans, unlinked-Keeps, taken-Keeps, pushed-Keeps,
}
use kernel_development_with.Heap.Tiles.{put_ne, put_self, take_right, move_gap}
use kernel_development_with.Threads.{put}

-- An empty gap may stand before any block but the first.
pub move-Held :
    (s : Heap) (g : Plan) (k m : ℕ) → Held s g k k → 0 < m → 0 < g.extent m → Held s g m m
move-Held s g k m H m0 pm = record {
  room = H.room;
  tiled = move_gap g.extent s.len k m H.tiled m0 pm;
  inner = H.inner;
  shown = H.shown;
  linked = H.linked;
}

-- There is room for a link behind the head of the list.
pub head_room : (s : Heap) (g : Plan) (lo hi : ℕ) → Held s g lo hi → s.avail + 2 < s.len
head_room s g lo hi H = elim (ℕ_discrete s.avail 0) [
  | yes e ↦
      let (j, pj, ej) = H.tiled.gap_before in
      let f = H.tiled.fits j pj in
      let h = H.tiled.fits hi H.tiled.gap_after in
      let o = H.tiled.ordered in omega (arith, e, pj, ej, f, h, o)
  | no e ↦ let i = H.inner s.avail (H.linked.started e).0 in omega arith
]

-- What a granted block comes with.
pub record Granted (s : Heap) (g : Plan) (ints it : ℕ) (s' : Heap) : Type 0 where
  pub plan : Plan
  pub bound : ℕ
  pub same_base : s'.base ≡ s.base
  pub same_len : s'.len ≡ s.len
  pub held : Held s' plan bound bound
  pub keeps : Keeps s g s' plan
  pub owned : Taken plan it
  pub enough : ints ≤ plan.extent it
  pub positive : 0 < it
  pub inside : it + plan.extent it < s'.len
  pub snug : plan.extent it < ints + 4

module _ (s : Heap) (g : Plan) (it n ints : ℕ) (H : Held s g it (it + n)) (m4 : 4 ≤ ints)
    (h : ints ≤ n) where
  gap_positive : 0 < it
  gap_positive = let (j, pj, ej) = H.tiled.gap_before in omega (arith, pj, ej)

  below : it + n < s.len
  below = below_len s g it (it + n) H

  split-whole :
      n < ints + 4 → (split s it n ints ≡ done (taken s it n)) × Granted s g ints it (taken s it n)
  unfolding split
  split-whole k =
      let f = H.tiled.fits (it + n) H.tiled.gap_after in
      let r = H.room in
      (
        rw (sub32_small n ints h (omega arith), gt→leb 4 (n - ints) (omega arith))
            (make_taken-inside s it n (omega arith) (omega arith) r),
        record {
          plan = with_taken g it n;
          bound = it + n;
          same_base = refl;
          same_len = refl;
          held = taken-Held s g it (it + n) H n (omega arith) (omega arith);
          keeps = taken-Keeps s g it (it + n) H n (omega arith) (omega arith);
          owned =
              (rw (put_self g.extent it n) (omega arith), unlisted s g it (it + n) H (omega arith));
          enough = rw (put_self g.extent it n) h;
          positive = gap_positive;
          inside = rw (put_self g.extent it n) below;
          snug = rw (put_self g.extent it n) k;
        },
      )

  -- What is left over becomes a block, in front of the list.
  rest : ints + 4 ≤ n → Held (taken s it ints) (with_taken g it ints) (it + ints) (it + n)
  rest k = taken-Held s g it (it + n) H ints (omega arith) (omega arith)

  split-rest :
      ints + 4 ≤ n
      → (split s it n ints ≡ done (pushed (taken s it ints) (it + ints) (n - ints)))
        × Granted s g ints it (pushed (taken s it ints) (it + ints) (n - ints))
  unfolding split
  split-rest k =
      let s1 = taken s it ints in
      let g1 = with_taken g it ints in
      let H1 = rest k in
      let f = H.tiled.fits (it + n) H.tiled.gap_after in
      let r = H.room in
      let e : it + ints + (n - ints) ≡ it + n = omega arith in
      let m : it + ints ≢ it = omega arith in
      let a = head_room s1 g1 (it + ints) (it + n) H1 in
      (
        rw
            (
              sub32_small n ints h (omega arith),
              le→leb 4 (n - ints) (omega arith),
              is_negative_small (n - ints) (omega arith),
              make_taken-inside s it ints (omega arith) (omega arith) r,
              ◌>>=◌,
              add32_small it ints (omega arith),
            )
            (make_avail-inside s1 (it + ints) (n - ints) (omega arith) (omega arith) r a),
        record {
          plan = with_avail g1 (it + ints) (n - ints) s1.avail;
          bound = it + n;
          same_base = refl;
          same_len = refl;
          held =
              subst
                (λ z.
                  Held (pushed s1 (it + ints) (n - ints))
                    (with_avail g1 (it + ints) (n - ints) s1.avail) z (it + n))
                e (pushed-Held s1 g1 (it + ints) (it + n) H1 (n - ints) (omega arith) e);
          keeps =
              Keeps-trans s g s1 g1 (pushed s1 (it + ints) (n - ints))
                (with_avail g1 (it + ints) (n - ints) s1.avail)
                (taken-Keeps s g it (it + n) H ints (omega arith) (omega arith))
                (pushed-Keeps s1 g1 (it + ints) (it + n) H1 (n - ints) (omega arith) e);
          owned = (
            rw
                (
                  put_ne (put g.extent it ints) (it + ints) it (n - ints) (λ z. m (sym z)),
                  put_self g.extent it ints,
                )
                (omega arith),
            rw (put_ne g.listed (it + ints) it true (λ z. m (sym z)))
                (unlisted s g it (it + n) H (omega arith)),
          );
          positive = gap_positive;
          inside =
              rw
                (
                  put_ne (put g.extent it ints) (it + ints) it (n - ints) (λ z. m (sym z)),
                  put_self g.extent it ints,
                )
                (let w = below in omega arith);
          enough =
              rw
                (
                  put_ne (put g.extent it ints) (it + ints) it (n - ints) (λ z. m (sym z)),
                  put_self g.extent it ints,
                )
                (omega arith);
          snug =
              rw
                (
                  put_ne (put g.extent it ints) (it + ints) it (n - ints) (λ z. m (sym z)),
                  put_self g.extent it ints,
                )
                (omega arith);
        },
      )

  pub split-Granted : (s' : Heap) × (split s it n ints ≡ done s') × Granted s g ints it s'
  split-Granted = elim (dec_le (ints + 4) n) [
    | yes k ↦ let (e, G) = split-rest k in (pushed (taken s it ints) (it + ints) (n - ints), e, G)
    | no k ↦ let (e, G) = split-whole (omega arith) in (taken s it n, e, G)
  ]

-- malloc: a listed block of at least `ints` ints is taken off the list and cut.
pub grant-Granted :
    (s : Heap) (g : Plan) (k it ints : ℕ)
    → Held s g k k
    → g.listed it ≡ true
    → 4 ≤ ints
    → ints ≤ g.extent it
    → (s' : Heap) × (grant s ints (g.extent it, it) ≡ done (add32 s.base (4 * it + 4), s'))
      × Granted s g ints it s'
unfolding grant
grant-Granted s g k it ints H l m4 h =
    let i = H.inner it l in
    let n = g.extent it in
    let H1 = move-Held s g k it H (omega (arith, listed-ne_0 H.linked it l)) (omega arith) in
    let T = take_right g.extent s.len it it H1.tiled i.1 in
    let H2 = unlinked-Held s g it it H1 it l it (it + n) T in
    let (s', e, G) = split-Granted (unlinked s it) (without g it) it n ints H2 m4 h in
    (
      s',
      rw (remove-inside s g it it H1 it l, ◌>>=◌, e) refl,
      record {
        plan = G.plan;
        bound = G.bound;
        same_base = G.same_base ∙ unlinked-base s it;
        same_len = G.same_len ∙ unlinked-len s it;
        held = G.held;
        keeps =
            Keeps-trans s g (unlinked s it) (without g it) s' G.plan
              (unlinked-Keeps s g it it H1 it l) G.keeps;
        owned = G.owned;
        positive = G.positive;
        inside = G.inside;
        enough = G.enough;
        snug = G.snug;
      },
    )
