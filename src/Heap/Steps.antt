-- ===== src/Heap/Steps.antt =====
-- What kernel/heap.cc's `remove`, `makeTaken` and `makeAvail` do to the blocks and to the list.
use kernel_development_with.Prelude.{
  ℕ, ◌+◌, ◌-◌, ◌≤◌, ◌<◌, ◌≡◌, ◌≢◌, sym, ap, true, false, if◌then◌else◌, ◌==◌, not, ◌&&◌, arith,
  ℕ_discrete, subst,
}
use kernel_development_with.Heap.{Heap}
use kernel_development_with.Heap.Links.{listed-ne_0, unlink-Linked, put-false}
use kernel_development_with.Heap.Reads.{Plan, Held}
use kernel_development_with.Heap.Writes.{unlinked}
use kernel_development_with.Heap.Tiles.{Tiled, put_ne, put-pos}
use kernel_development_with.Threads.{put}

unlinked-array :
    (s : Heap) (i q : ℕ)
    → (unlinked s i).array q ≡ (
        if not (s.array (i + 1) == 0) && (q == s.array (i + 1) + 2)
        then s.array (i + 2)
        else if not (s.array (i + 2) == 0) && (q == s.array (i + 2) + 1)
        then s.array (i + 1)
        else s.array q)
unlinked-array s i q = ground arith

pub unlinked-len : (s : Heap) (i : ℕ) → (unlinked s i).len ≡ s.len
unlinked-len s i = ground arith

pub unlinked-base : (s : Heap) (i : ℕ) → (unlinked s i).base ≡ s.base
unlinked-base s i = ground arith

unlinked-avail :
    (s : Heap) (i : ℕ)
    → (unlinked s i).avail ≡ (if s.array (i + 2) == 0 then s.array (i + 1) else s.avail)
unlinked-avail s i = ground arith

-- Without the block at i.
abbrev pub without : Plan → ℕ → Plan
without g i = record g { extent = put g.extent i 0; listed = put g.listed i false }

module _ (s : Heap) (g : Plan) (lo hi : ℕ) (H : Held s g lo hi) where
  -- The links of a listed block are neither a header nor a footer.
  pub interior :
      (p q d : ℕ)
      → g.listed p ≡ true
      → 0 < g.extent q
      → 1 ≤ d
      → d ≤ 2
      → (q ≢ p + d) × (q + g.extent q - 1 ≢ p + d)
  interior p q d l k d1 d2 =
      let n = H.inner p l in
      let a = H.tiled.apart p q (omega arith) k in
      let b = H.tiled.apart q p k (omega arith) in
      let f = H.tiled.fits q k in
      elim (ℕ_discrete p q) [
        | yes e ↦ let c = ap g.extent e in (omega arith, omega arith)
        | no e ↦ (ground arith, ground arith)
      ]

  module _ (i : ℕ) (l : g.listed i ≡ true) where
    -- The two neighbours in the list, when there are any.
    pub behind : s.array (i + 2) ≢ 0 → g.listed (s.array (i + 2)) ≡ true
    behind n = (H.linked.backward i l n).0

    pub ahead : s.array (i + 1) ≢ 0 → g.listed (s.array (i + 1)) ≡ true
    ahead n = (H.linked.onward i l n).0

    pub unlinked-kept :
        (j : ℕ)
        → (s.array (i + 1) ≢ 0 → j ≢ s.array (i + 1) + 2)
        → (s.array (i + 2) ≢ 0 → j ≢ s.array (i + 2) + 1)
        → (unlinked s i).array j ≡ s.array j
    unlinked-kept j n m = let u = unlinked-array s i j in ground arith

    pub unlinked-ends :
        (q : ℕ)
        → 0 < g.extent q
        → ((unlinked s i).array q ≡ s.array q)
          × ((unlinked s i).array (q + g.extent q - 1) ≡ s.array (q + g.extent q - 1))
    unlinked-ends q k =
        let a = λ (n : s.array (i + 1) ≢ 0).
          interior (s.array (i + 1)) q 2 (ahead n) k (omega arith) (omega arith) in
        let b = λ (n : s.array (i + 2) ≢ 0).
          interior (s.array (i + 2)) q 1 (behind n) k (omega arith) (omega arith) in
        (
          unlinked-kept q (λ n. (a n).0) (λ n. (b n).0),
          unlinked-kept (q + g.extent q - 1) (λ n. (a n).1) (λ n. (b n).1),
        )

    unlinked-next :
        (q : ℕ)
        → g.listed q ≡ true
        → (unlinked s i).array (q + 1)
          ≡ (if q == s.array (i + 2) then s.array (i + 1) else s.array (q + 1))
    unlinked-next q k =
        let u = unlinked-array s i (q + 1) in
        let a : s.array (i + 1) ≢ 0 → q ≢ s.array (i + 1) + 1 = λ n.
          let p = H.inner q k in
          (interior (s.array (i + 1)) q 1 (ahead n) (omega arith) (omega arith) (omega arith)).0 in
        let b : q ≢ 0 = listed-ne_0 H.linked q k in ground arith

    unlinked-prev :
        (q : ℕ)
        → g.listed q ≡ true
        → (unlinked s i).array (q + 2)
          ≡ (if q == s.array (i + 1) then s.array (i + 2) else s.array (q + 2))
    unlinked-prev q k =
        let u = unlinked-array s i (q + 2) in
        let a : s.array (i + 2) ≢ 0 → s.array (i + 2) ≢ q + 1 = λ n.
          let p = H.inner (s.array (i + 2)) (behind n) in
          (interior q (s.array (i + 2)) 1 k (omega arith) (omega arith) (omega arith)).0 in
        let b : q ≢ 0 = listed-ne_0 H.linked q k in ground arith

    -- remove: the block is in the gap now, and out of the list.
    pub unlinked-Held :
        (lo' hi' : ℕ)
        → Tiled (put g.extent i 0) s.len lo' hi'
        → Held (unlinked s i) (without g i) lo' hi'
    unlinked-Held lo' hi' T = record {
      room = rw (unlinked-len s i) H.room;
      tiled = subst (λ z. Tiled (put g.extent i 0) z lo' hi') (sym (unlinked-len s i)) T;
      inner = λ q k.
          let (n, k') = put-false g.listed i q k in
          rw (unlinked-len s i, put_ne g.extent i q 0 n) (H.inner q k');
      shown = λ q k.
          let (n, e, k') = put-pos g.extent i q k in
          let u = unlinked-ends q k' in
          let v = H.shown q k' in rw (e, put_ne g.listed i q false n, u.0, u.1) v;
      linked =
          unlink-Linked H.linked i l (λ p. (unlinked s i).array (p + 1))
            (λ p. (unlinked s i).array (p + 2)) (unlinked s i).avail (unlinked-avail s i)
            (λ q k n. unlinked-next q k) (λ q k n. unlinked-prev q k);
    }
