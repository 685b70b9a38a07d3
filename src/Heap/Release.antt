-- ===== src/Heap/Release.antt =====
-- kernel/heap.cc: `free` on an array whose blocks are in order.
use kernel_development_with.Prelude.{
  ℕ, ◌+◌, ◌^◌, ◌≤◌, ◌<◌, ◌≡◌, inl, inr, refl, sym, ap, ◌∙◌, true, arith, subst, Bool-cases,
}
use kernel_development_with.Heap.{Heap, done, ◌>>=◌, size, join, join_left, join_right}
use kernel_development_with.Heap.Links.{listed-ne_0}
use kernel_development_with.Heap.Reads.{Plan, Held, is_avail-at, add32_small, read-inside, abs-mark}
use kernel_development_with.Heap.Writes.{unlinked, remove-inside}
use kernel_development_with.Heap.Steps.{without, unlinked-Held, unlinked-len, unlinked-ends}
use kernel_development_with.Heap.Cuts.{true-ne_false, below_len}
use kernel_development_with.Heap.Untouched.{Taken, Keeps, unlinked-Keeps}
use kernel_development_with.Heap.Tiles.{Tiled, put_ne, put-pos, take_right, take_left}
use kernel_development_with.Threads.{put}

-- The block at i is no block any more: its ints are in the gap.
abbrev pub dropped : Plan → ℕ → Plan
dropped g i = record g { extent = put g.extent i 0 }

pub drop-Held :
    (s : Heap) (g : Plan) (i : ℕ)
    → Held s g i i
    → Taken g i
    → i + g.extent i < s.len
    → Held s (dropped g i) i (i + g.extent i)
drop-Held s g i H t h = record {
  room = H.room;
  tiled = take_right g.extent s.len i i H.tiled h;
  inner = λ q l.
      rw (put_ne g.extent i q 0 (λ e. elim (true-ne_false (sym l ∙ ap g.listed e ∙ t.1)) [ ]))
        (H.inner q l);
  shown = λ q k. let (n, e, k') = put-pos g.extent i q k in rw e (H.shown q k');
  linked = H.linked;
}

-- What is left after a neighbour has been looked at.
pub record Joined (s : Heap) (g : Plan) (lo hi : ℕ) (s' : Heap) (g' : Plan) (lo' hi' : ℕ)
    : Type 0 where
  pub held : Held s' g' lo' hi'
  pub keeps : Keeps s g s' g'
  pub lower : lo' ≤ lo
  pub upper : hi ≤ hi'

module _ (s : Heap) (g : Plan) (lo hi : ℕ) (H : Held s g lo hi) where
  join-inside :
      (j z : ℕ) → g.listed j ≡ true → z ≤ 2 ^ 30 → join s j z ≡ done (unlinked s j, z + g.extent j)
  unfolding join size
  join-inside j z l b =
      let i = H.inner j l in
      let r = H.room in
      let u = unlinked-ends s g lo hi H j l j (omega arith) in
      rw
        (
          remove-inside s g lo hi H j l,
          ◌>>=◌,
          read-inside (unlinked s j) j (rw (unlinked-len s j) (omega arith)),
          u.0,
          (H.shown j (omega arith)).0,
          abs-mark (g.listed j) (g.extent j) (omega arith) (omega arith),
          add32_small z (g.extent j) (omega arith),
        )
        refl

  pub join_left-Joined :
      (j z : ℕ)
      → 0 < g.extent j
      → j + g.extent j ≡ lo
      → lo + z ≡ hi
      → (s' : Heap) × (g' : Plan) × (lo' z' : ℕ) × (join_left s j lo z ≡ done (s', lo', z'))
        × (lo' + z' ≡ hi)
        × Joined s g lo hi s' g' lo' hi
  unfolding join_left
  join_left-Joined j z p e h =
      let b = below_len s g lo hi H in
      let r = H.room in
      elim (Bool-cases (g.listed j)) [
        | inl l ↦
            let n = listed-ne_0 H.linked j l in
            (
              unlinked s j,
              without g j,
              j,
              z + g.extent j,
              rw (is_avail-at s g lo hi H j p, ◌>>=◌, l, join-inside j z l (omega arith)) refl,
              omega (arith, e, h),
              record {
                held =
                    unlinked-Held s g lo hi H j l j hi
                      (take_left g.extent s.len lo hi j H.tiled (omega arith) p e);
                keeps = unlinked-Keeps s g lo hi H j l;
                lower = omega (arith, e);
                upper = omega arith;
              },
            )
        | inr l ↦ (
          s,
          g,
          lo,
          z,
          rw (is_avail-at s g lo hi H j p, ◌>>=◌, l) refl,
          h,
          record {
            held = H;
            keeps = λ q t. (t, refl, λ d k. refl);
            lower = omega arith;
            upper = omega arith;
          },
        )
      ]

  pub join_right-Joined :
      (z : ℕ)
      → lo + z ≡ hi
      → (s' : Heap) × (g' : Plan) × (z' : ℕ) × (join_right s hi z ≡ done (s', z'))
        × Joined s g lo hi s' g' lo (lo + z')
  unfolding join_right
  join_right-Joined z h =
      let b = below_len s g lo hi H in
      let r = H.room in
      let p = H.tiled.gap_after in
      elim (Bool-cases (g.listed hi)) [
        | inl l ↦ (
          unlinked s hi,
          without g hi,
          z + g.extent hi,
          rw (is_avail-at s g lo hi H hi p, ◌>>=◌, l, join-inside hi z l (omega arith)) refl,
          record {
            held = unlinked-Held s g lo hi H hi l lo (lo + (z + g.extent hi)) (
                subst (Tiled (put g.extent hi 0) s.len lo) (omega (arith, h))
                  (take_right g.extent s.len lo hi H.tiled (H.inner hi l).1));
            keeps = unlinked-Keeps s g lo hi H hi l;
            lower = omega arith;
            upper = omega (arith, h);
          },
        )
        | inr l ↦ (
          s,
          g,
          z,
          rw (is_avail-at s g lo hi H hi p, ◌>>=◌, l) refl,
          record {
            held = subst (Held s g lo) (sym h) H;
            keeps = λ q t. (t, refl, λ d k. refl);
            lower = omega arith;
            upper = omega (arith, h);
          },
        )
      ]
