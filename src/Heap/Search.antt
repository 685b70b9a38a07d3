-- ===== src/Heap/Search.antt =====
-- kernel/heap.cc: the search of `malloc`, and `malloc` as a whole.
use kernel_development_with.Prelude.{
  ℕ, zero, suc, ◌+◌, ◌-◌, ◌*◌, ◌^◌, ◌≤◌, ◌<◌, ◌≡◌, ◌≢◌, ◌⊎◌, inl, inr, refl, sym, ap, ◌∙◌, true,
  false, if◌then◌else◌, ltb, leb, ◌==◌, ◌&&◌, arith, ℕ_discrete, subst, add32, eq→==, ne→==,
  Bool-cases,
}
use kernel_development_with.Heap.{Heap, done, ◌>>=◌, grant, search, better, malloc, request}
use kernel_development_with.Heap.Links.{listed-ne_0}
use kernel_development_with.Heap.Reads.{Plan, Held, is_avail-at, size-at, next-at}
use kernel_development_with.Heap.Cuts.{true-ne_false}
use kernel_development_with.Heap.Allocation.{Granted, grant-Granted}

pub request-bounds :
    (bytes : ℕ) → bytes + 3 < 2 ^ 32 → (4 ≤ request bytes) × (bytes ≤ 4 * (request bytes - 2))
unfolding request
request-bounds bytes h = ground arith

-- The block found so far, if any.
abbrev pub Fit : Plan → ℕ → ℕ × ℕ → Type 0
Fit g ints best =
    (best.1 ≡ 0) ⊎ ((g.listed best.1 ≡ true) × (g.extent best.1 ≡ best.0) × (ints ≤ best.0))

-- Where the search stands, and how much fuel it needs from there.
abbrev pub Pending : Plan → ℕ → ℕ → Type 0
Pending g fuel p = ((p ≡ 0) × (0 < fuel)) ⊎ ((g.listed p ≡ true) × (g.rank p + 1 < fuel))

better-Fit :
    (g : Plan) (ints p : ℕ) (best : ℕ × ℕ)
    → g.listed p ≡ true
    → Fit g ints best
    → Fit g ints (better ints p (g.extent p) best)
unfolding better
better-Fit g ints p best l f =
    elim (Bool-cases (leb ints (g.extent p) && ltb (g.extent p) best.0)) [
      | inl e ↦ rw e (inr (l, refl, ground arith))
      | inr e ↦ rw e f
    ]

-- The block that n links lead to.
abbrev pub nth : Heap → ℕ → ℕ → ℕ
nth s zero p = p
nth s (suc n) p = if p == 0 then 0 else nth s n (s.array (p + 1))

-- While no block has been found, mx is still its first value.
abbrev pub Unset : ℕ × ℕ → Type 0
Unset best = best.1 ≡ 0 → best.0 ≡ 2 ^ 31 - 1

passed : (ints n m : ℕ) → (leb ints n && ltb n m) ≡ false → ints ≤ n → m ≤ n
passed ints n m e h = ground arith

better-Unset :
    (ints p n : ℕ) (best : ℕ × ℕ)
    → p ≢ 0
    → n < 2 ^ 31 - 1
    → Unset best
    → Unset (better ints p n best)
      × (best.1 ≢ 0 → (better ints p n best).1 ≢ 0)
      × (ints ≤ n → (better ints p n best).1 ≢ 0)
unfolding better
better-Unset ints p n best p0 small u = elim (Bool-cases (leb ints n && ltb n best.0)) [
  | inl e ↦ rw e ((λ z. elim (p0 z) [ ]), (λ z. p0), (λ z. p0))
  | inr e ↦ rw e (
    u,
    (λ z. z),
    (λ h z.
        let w = passed ints n best.0 e h in
        let v = u z in let y : 0 < 0 = omega arith in elim y [ ]),
  )
]

module _ (s : Heap) (g : Plan) (k : ℕ) (H : Held s g k k) (ints : ℕ) where
  nth_null : (n p : ℕ) → p ≡ 0 → nth s n p ≡ 0
  nth_null zero p e = e
  nth_null (suc n) p e = ground arith

  stopped : (n count : ℕ) → (leb ints n && (count == 0)) ≡ true → ints ≤ n
  stopped n count h = ground arith

  nth_cases :
      (p : ℕ) (b : ℕ × ℕ)
      → p ≢ 0
      → (g.listed p ≡ true → ints ≤ g.extent p → b.1 ≢ 0)
      → ((n : ℕ)
          → g.listed (nth s n (s.array (p + 1))) ≡ true
          → ints ≤ g.extent (nth s n (s.array (p + 1)))
          → b.1 ≢ 0)
      → (n : ℕ) → g.listed (nth s n p) ≡ true
      → ints ≤ g.extent (nth s n p)
      → b.1 ≢ 0
  nth_cases p b p0 here there zero l h = here l h
  nth_cases p b p0 here there (suc n) l h =
      let e : nth s (suc n) p ≡ nth s n (s.array (p + 1)) = rw (ne→== p 0 p0) refl in
      there n (subst (λ z. g.listed z ≡ true) e l) (subst (λ z. ints ≤ g.extent z) e h)

  onward-Pending :
      (fuel p : ℕ) → g.listed p ≡ true → g.rank p + 1 < suc fuel → Pending g fuel (s.array (p + 1))
  onward-Pending fuel p l h = elim (ℕ_discrete (s.array (p + 1)) 0) [
    | yes e ↦ inl (e, omega arith)
    | no e ↦ let o = H.linked.onward p l e in inr (o.0, omega arith)
  ]

  -- The search, once for all: it ends, with a block that fits or with none; a block once found is
  -- only replaced by another; and it finds one when a block on the list from p fits.
  pub search-Fit :
      (fuel count : ℕ) (best : ℕ × ℕ) (p : ℕ)
      → Pending g fuel p
      → Fit g ints best
      → Unset best
      → (best' : ℕ × ℕ) × (search fuel s ints count best p ≡ done best')
        × Fit g ints best'
        × (best.1 ≢ 0 → best'.1 ≢ 0)
        × ((n : ℕ) → g.listed (nth s n p) ≡ true → ints ≤ g.extent (nth s n p) → best'.1 ≢ 0)
  unfolding search
  search-Fit zero count best p (inl (e, h)) f u = elim h [ ]
  search-Fit zero count best p (inr (l, h)) f u = elim h [ ]
  search-Fit (suc fuel) count best p (inl (e, h)) f u = (
    best,
    rw (eq→== p 0 e) refl,
    f,
    λ m. m,
    λ n l m.
        elim (true-ne_false (sym l ∙ ap g.listed (nth_null n p e) ∙ H.linked.null_unlisted)) [ ],
  )
  search-Fit (suc fuel) count best p (inr (l, h)) f u =
      let n = listed-ne_0 H.linked p l in
      let i = H.inner p l in
      let q : 0 < g.extent p = omega arith in
      let r = H.room in
      let small : g.extent p < 2 ^ 31 - 1 = omega arith in
      let best' = better ints p (g.extent p) best in
      let f' = better-Fit g ints p best l f in
      let (u', k', c') = better-Unset ints p (g.extent p) best n small u in
      let count' = if leb ints (g.extent p) then count - 1 else count in
      elim (Bool-cases (leb ints (g.extent p) && (count' == 0))) [
        | inl c ↦ (
          best',
          rw (ne→== p 0 n, is_avail-at s g k k H p q, ◌>>=◌, l, size-at s g k k H p q, c) refl,
          f',
          k',
          λ m l' z. c' (stopped (g.extent p) count' c),
        )
        | inr c ↦
            let (b, e, d, kept, found) =
              search-Fit fuel count' best' (s.array (p + 1)) (onward-Pending fuel p l h) f' u' in
            (
              b,
              rw
                  (
                    ne→== p 0 n,
                    is_avail-at s g k k H p q,
                    ◌>>=◌,
                    l,
                    size-at s g k k H p q,
                    c,
                    next-at s g k k H p l,
                  )
                  e,
              d,
              (λ m. kept (k' m)),
              nth_cases p b n (λ l' z. kept (c' z)) found,
            )
      ]

-- A block that `malloc` returns, for a request of so many bytes.
pub record Fresh (s : Heap) (g : Plan) (bytes fuel : ℕ) : Type 0 where
  pub header : ℕ
  pub chosen : g.listed header ≡ true
  pub after : Heap
  pub returned : malloc fuel s bytes ≡ done (add32 s.base (4 * header + 4), after)
  pub granted : Granted s g (request bytes) header after
  pub roomy : bytes ≤ 4 * (granted.plan.extent header - 2)

-- A request that is refused: no block on the list is large enough, and nothing is changed.
pub record Refused (s : Heap) (g : Plan) (bytes fuel : ℕ) : Type 0 where
  pub null : malloc fuel s bytes ≡ done (0, s)
  pub scarce :
      (n : ℕ) → g.listed (nth s n s.avail) ≡ true → g.extent (nth s n s.avail) < request bytes

scarce_at : (ints n it : ℕ) → (ints ≤ n → it ≢ 0) → it ≡ 0 → n < ints
scarce_at ints n it h e = ground arith

-- On a heap whose blocks and list are in order, with fuel for the list, a request of at least one
-- byte, and of fewer than 2 ^ 32 - 3, makes malloc return without a panic or an access outside
-- the array. Either it returns null, changes nothing, and no block that links lead to from the
-- head of the list is large enough; or it returns the address of a block from the list that has
-- room for the bytes, is at most 3 ints larger than the request, lies inside the array and is
-- taken now, while the blocks and the list are in order again and every block that was taken
-- stays with its contents.
pub malloc-Fresh :
    (s : Heap) (g : Plan) (k : ℕ)
    → Held s g k k
    → (bytes fuel : ℕ) → bytes ≢ 0
    → bytes + 3 < 2 ^ 32
    → g.rank s.avail + 1 < fuel
    → Refused s g bytes fuel ⊎ Fresh s g bytes fuel
unfolding malloc
malloc-Fresh s g k H bytes fuel b0 b3 h =
    let ints = request bytes in
    let r = request-bounds bytes b3 in
    let p : Pending g fuel s.avail = elim (ℕ_discrete s.avail 0) [
      | yes e ↦ inl (e, omega arith)
      | no e ↦ inr ((H.linked.started e).0, h)
    ] in
    let (best, e, f, kept, found) =
      search-Fit s g k H ints fuel 20 (2 ^ 31 - 1, 0) s.avail p (inl refl) (λ z. refl) in
    elim (ℕ_discrete best.1 0) [
      | yes z ↦ inl (record {
        null = rw (ne→== bytes 0 b0, e, ◌>>=◌, eq→== best.1 0 z) refl;
        scarce = λ n l. scarce_at ints (g.extent (nth s n s.avail)) best.1 (found n l) z;
      })
      | no z ↦ elim f [
        | inl y ↦ elim (z y) [ ]
        | inr (l, x, m) ↦
            let (s', c, G) = grant-Granted s g k best.1 ints H l r.0 (rw x m) in
            inr (record {
              header = best.1;
              chosen = l;
              after = s';
              returned =
                  rw (ne→== bytes 0 b0, e, ◌>>=◌, ne→== best.1 0 z)
                    (subst
                      (λ w. grant s ints (w, best.1) ≡ done (add32 s.base (4 * best.1 + 4), s')) x
                      c);
              granted = G;
              roomy = let y = G.enough in omega (arith, r, y);
            })
      ]
    ]
