-- ===== src/Heap/Freeing.antt =====
-- kernel/heap.cc: `free` as a whole, and after `malloc`.
use kernel_development_with.Prelude.{
  ℕ, ◌+◌, ◌*◌, ◌/◌, ◌^◌, ◌≤◌, ◌<◌, ◌≡◌, ◌≢◌, ◌⊎◌, inl, inr, refl, sym, ap, ◌∙◌, true, arith, subst,
  add32, sub32, ne→==,
}
use kernel_development_with.Heap.{Heap, done, ◌>>=◌, make_avail, release, free, malloc}
use kernel_development_with.Heap.Reads.{
  Plan, Held, is_taken-at, size-at, left-at, right-at, sanity-at,
}
use kernel_development_with.Heap.Writes.{pushed, make_avail-inside}
use kernel_development_with.Heap.Cuts.{true-ne_false, with_avail, pushed-Held, below_len}
use kernel_development_with.Heap.Untouched.{Taken, Keeps, Keeps-trans, pushed-Keeps}
use kernel_development_with.Heap.Allocation.{move-Held, head_room}
use kernel_development_with.Heap.Search.{Fresh, Refused, malloc-Fresh, request-bounds}
use kernel_development_with.Heap.Release.{dropped, drop-Held, join_left-Joined, join_right-Joined}
use kernel_development_with.Heap.Tiles.{put_ne, put_self}
use kernel_development_with.Threads.{put}

-- A block that may be freed: it is taken, and neither the first nor the last.
pub record Owned (s : Heap) (g : Plan) (idx : ℕ) : Type 0 where
  pub taken : Taken g idx
  pub positive : 0 < idx
  pub full : 4 ≤ g.extent idx
  pub inside : idx + g.extent idx < s.len

-- What is left once the block is freed: it lies in an available one.
pub record Freed (s : Heap) (g : Plan) (idx : ℕ) (s' : Heap) : Type 0 where
  pub plan : Plan
  pub bound : ℕ
  pub held : Held s' plan bound bound
  pub keeps : Keeps s (dropped g idx) s' plan
  pub whole : ℕ
  pub available : plan.listed whole ≡ true
  pub lower : whole ≤ idx
  pub upper : idx + g.extent idx ≤ whole + plan.extent whole

block_index :
    (base idx : ℕ)
    → base + (4 * idx + 4) < 2 ^ 32
    → idx < 2 ^ 30
    → sub32 (sub32 (base + (4 * idx + 4)) base / 4) 1 ≡ idx
block_index base idx h k = ground arith

module _ (s : Heap) (g : Plan) (k idx : ℕ) (H : Held s g k k) (O : Owned s g idx) where
  pub release-Freed : (s' : Heap) × (release s idx ≡ done s') × Freed s g idx s'
  unfolding release
  release-Freed =
      let z = g.extent idx in
      let p = O.taken.0 in
      let H0 = move-Held s g k idx H O.positive p in
      let L = H0.tiled.gap_before in
      let f = O.full in
      let HD = drop-Held s g idx H0 O.taken O.inside in
      let after : 0 < put g.extent idx 0 (idx + z) = HD.tiled.gap_after in
      let e : put g.extent idx 0 (idx + z) ≡ g.extent (idx + z) =
        put_ne g.extent idx (idx + z) 0 (omega arith) in
      let n : L.0 ≢ idx = let (j, pj, ej) = L in omega (arith, pj, ej) in
      let d = put_ne g.extent idx L.0 0 n in
      let (s1, g1, lo, z1, r1, h1, J1) =
        join_left-Joined s (dropped g idx) idx (idx + z) HD L.0 z (rw d L.1) (rw d L.2) refl in
      let (s2, g2, z2, r2, J2) = join_right-Joined s1 g1 lo (idx + z) J1.held z1 h1 in
      let H2 = J2.held in
      let b = below_len s2 g2 lo (lo + z2) H2 in
      let room = H2.room in
      let l1 = J1.lower in
      let u2 = J2.upper in
      let m : make_avail s2 lo z2 ≡ done (pushed s2 lo z2) =
        make_avail-inside s2 lo z2 (omega arith) (omega arith) room
          (head_room s2 g2 lo (lo + z2) H2) in
      (
        pushed s2 lo z2,
        rw
            (
              size-at s g idx idx H0 idx p,
              ◌>>=◌,
              left-at s g idx idx H0 idx L p,
              right-at s g idx idx H0 idx p (subst (λ x. 0 < x) e after),
              r1,
              r2,
            )
            m,
        record {
          plan = with_avail g2 lo z2 s2.avail;
          bound = lo + z2;
          held = pushed-Held s2 g2 lo (lo + z2) H2 z2 (omega arith) refl;
          keeps =
              Keeps-trans s (dropped g idx) s1 g1 (pushed s2 lo z2) (with_avail g2 lo z2 s2.avail)
                J1.keeps
                (Keeps-trans s1 g1 s2 g2 (pushed s2 lo z2) (with_avail g2 lo z2 s2.avail) J2.keeps
                  (pushed-Keeps s2 g2 lo (lo + z2) H2 z2 (omega arith) refl));
          whole = lo;
          available = put_self g2.listed lo true;
          lower = l1;
          upper = rw (put_self g2.extent lo z2) u2;
        },
      )

  -- On a heap whose blocks and list are in order, in an array that ends within 32 bits of
  -- address, free of a block that is taken, has at least 4 ints and is neither the first nor the
  -- last of the array returns without a panic or an access outside the array: the blocks and the
  -- list are in order again, the freed block lies in a block of the list, and every other block
  -- that was taken stays with its contents.
  pub free-Freed :
      s.base + 4 * s.len ≤ 2 ^ 32
      → (s' : Heap) × (free s (s.base + (4 * idx + 4)) ≡ done s') × Freed s g idx s'
  unfolding free
  free-Freed h =
      let (s', e, F) = release-Freed in
      let i = O.inside in
      let r = H.room in
      let q : sub32 (sub32 (s.base + (4 * idx + 4)) s.base / 4) 1 ≡ idx =
        block_index s.base idx (omega arith) (omega arith) in
      (
        s',
        rw
            (
              ne→== (s.base + (4 * idx + 4)) 0 (omega arith),
              ne→== (s.base + (4 * idx + 4)) s.base (omega arith),
              q,
              sanity-at s g k k H idx (inr O.taken.0),
              ◌>>=◌,
              is_taken-at s g k k H idx O.taken.0,
              O.taken.1,
            )
            e,
        F,
      )

pointer_at : (a b h : ℕ) → b ≡ a → a + (4 * h + 4) < 2 ^ 32 → add32 a (4 * h + 4) ≡ b + (4 * h + 4)
pointer_at a b h e k = ground arith

-- What `malloc` gave may be freed.
Fresh-Owned :
    (s : Heap) (g : Plan) (bytes fuel : ℕ) (F : Fresh s g bytes fuel)
    → bytes + 3 < 2 ^ 32
    → Owned F.after F.granted.plan F.header
Fresh-Owned s g bytes fuel F b =
    let G = F.granted in
    let r = request-bounds bytes b in
    record {
      taken = G.owned;
      positive = G.positive;
      full = let e = G.enough in omega arith;
      inside = G.inside;
    }

-- A block that was taken is another one than the one that `malloc` took from the list.
drop-Keeps :
    (s : Heap) (g : Plan) (s' : Heap) (g' : Plan) (it : ℕ)
    → Keeps s g s' g'
    → g.listed it ≡ true
    → Keeps s g s' (dropped g' it)
drop-Keeps s g s' g' it K l q t =
    let (t', e, c) = K q t in
    let n : q ≢ it = λ z. elim (true-ne_false (sym l ∙ ap g.listed (sym z) ∙ t.1)) [ ] in
    let d = put_ne g'.extent it q 0 n in ((rw d t'.0, t'.1), d ∙ e, c)

-- malloc, and then free of what it returned
pub record Returned (s : Heap) (g : Plan) (bytes fuel : ℕ) : Type 0 where
  pub pointer : ℕ
  pub between : Heap
  pub after : Heap
  pub allocated : malloc fuel s bytes ≡ done (pointer, between)
  pub released : free between pointer ≡ done after
  pub plan : Plan
  pub bound : ℕ
  pub held : Held after plan bound bound
  pub keeps : Keeps s g after plan

-- Under the conditions of the two calls, malloc returns null, or free of what it returned
-- succeeds, and after both the blocks and the list are in order and every block that was taken
-- before them stays with its contents.
pub malloc-free :
    (s : Heap) (g : Plan) (k : ℕ)
    → Held s g k k
    → s.base + 4 * s.len ≤ 2 ^ 32
    → (bytes fuel : ℕ) → bytes ≢ 0
    → bytes + 3 < 2 ^ 32
    → g.rank s.avail + 1 < fuel
    → Refused s g bytes fuel ⊎ Returned s g bytes fuel
malloc-free s g k H top bytes fuel b0 b3 h = elim (malloc-Fresh s g k H bytes fuel b0 b3 h) [
  | inl e ↦ inl e
  | inr F ↦
      let G = F.granted in
      let i = G.inside in
      let l = G.same_len in
      let b = G.same_base in
      let (s', e, R) =
        free-Freed F.after G.plan G.bound F.header G.held (Fresh-Owned s g bytes fuel F b3)
          (rw (b, l) top) in
      let p : add32 s.base (4 * F.header + 4) ≡ F.after.base + (4 * F.header + 4) =
        pointer_at s.base F.after.base F.header b (omega arith) in
      inr (record {
        pointer = add32 s.base (4 * F.header + 4);
        between = F.after;
        after = s';
        allocated = F.returned;
        released = rw p e;
        plan = R.plan;
        bound = R.bound;
        held = R.held;
        keeps =
            Keeps-trans s g F.after (dropped G.plan F.header) s' R.plan
              (drop-Keeps s g F.after G.plan F.header G.keeps F.chosen) R.keeps;
      })
]
