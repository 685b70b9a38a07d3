-- ===== src/Heap/Tiles.antt =====
-- How the blocks of kernel/heap.cc cover the array. `size i` is the size of the block whose header
-- stands at i, or 0 when none does; the blocks leave out the ints from `lo` to before `hi`, which
-- are those an operation is about to cut anew.
use kernel_development_with.Prelude.{
  ℕ, ◌+◌, ◌≤◌, ◌<◌, ◌≡◌, ◌≢◌, ◌⊎◌, inl, inr, refl, sym, ap, ◌∙◌, arith, ℕ_discrete, subst,
}
use kernel_development_with.Threads.{put}

pub record Tiled (size : ℕ → ℕ) (len lo hi : ℕ) : Type 0 where
  pub fits : (i : ℕ) → 0 < size i → (2 ≤ size i) × (i + size i ≤ len)
  pub apart : (i j : ℕ) → 0 < size i → 0 < size j → i < j → i + size i ≤ j
  pub around : (i : ℕ) → 0 < size i → (i + size i ≤ lo) ⊎ (hi ≤ i)
  pub after : (i : ℕ) → 0 < size i → i + size i < len → (i + size i ≡ lo) ⊎ (0 < size (i + size i))
  pub before : (i : ℕ) → 0 < size i → 0 < i → i ≢ hi → (j : ℕ) × (0 < size j) × (j + size j ≡ i)
  pub ordered : lo ≤ hi
  pub gap_before : (j : ℕ) × (0 < size j) × (j + size j ≡ lo)
  pub gap_after : 0 < size hi

pub put-pos : (f : ℕ → ℕ) (k i : ℕ) → 0 < put f k 0 i → (i ≢ k) × (put f k 0 i ≡ f i) × (0 < f i)
put-pos f k i h = ground arith

pub put_ne : {A : Type 0} (f : ℕ → A) (k i : ℕ) (a : A) → i ≢ k → put f k a i ≡ f i
put_ne f k i a n = ground arith

pub put_eq : {A : Type 0} (f : ℕ → A) (k i : ℕ) (a : A) → i ≡ k → put f k a i ≡ a
put_eq f k i a e = ground arith

put-keeps : (f : ℕ → ℕ) (k i a : ℕ) → i ≢ k → 0 < f i → 0 < put f k a i
put-keeps f k i a n h = ground arith

-- A block ends at i.
abbrev pub Left : (ℕ → ℕ) → ℕ → Type 0
Left size i = (j : ℕ) × (0 < size j) × (j + size j ≡ i)

Left-kept : (size : ℕ → ℕ) (k i a : ℕ) (l : Left size i) → l.0 ≢ k → Left (put size k a) i
Left-kept size k i a (j, p, e) n = (j, put-keeps size k j a n p, rw (put_ne size k j a n) e)

-- The gap takes in the block on its right.
pub take_right :
    (size : ℕ → ℕ) (len lo hi : ℕ)
    → Tiled size len lo hi
    → hi + size hi < len
    → Tiled (put size hi 0) len lo (hi + size hi)
take_right size len lo hi T h = record {
  fits = λ i p. let (n, e, q) = put-pos size hi i p in let f = T.fits i q in ground arith;
  apart = λ i j p q l.
      let (n, e, p') = put-pos size hi i p in
      let (m, d, q') = put-pos size hi j q in let a = T.apart i j p' q' l in ground arith;
  around = λ i p.
      let (n, e, q) = put-pos size hi i p in
      let f = T.around i q in let a = T.apart hi i T.gap_after q in ground arith;
  after = λ i p l.
      let (n, e, q) = put-pos size hi i p in
      let g = T.around i q in
      let p0 = T.gap_after in
      let o = T.ordered in
      rw e (elim (T.after i q (subst (λ z. i + z < len) e l)) [
        | inl f ↦ inl f
        | inr f ↦ elim (ℕ_discrete (i + size i) hi) [
          | yes z ↦ inl (omega (arith, g, z, o, q))
          | no z ↦ inr (put-keeps size hi (i + size i) 0 z f)
        ]
      ]);
  before = λ i p l m.
      let (n, e, q) = put-pos size hi i p in
      let (j, pj, ej) = T.before i q l n in
      Left-kept size hi i 0 (j, pj, ej) (λ z. m (sym ej ∙ ap (λ x. x + size x) z));
  ordered = let o = T.ordered in omega arith;
  gap_before =
      let (j, pj, ej) = T.gap_before in
      let o = T.ordered in
      let n : j ≢ hi = omega (arith, pj, ej, o) in Left-kept size hi lo 0 T.gap_before n;
  gap_after =
      let p0 = T.gap_after in
      let o = T.ordered in
      let a = T.after hi p0 h in put-keeps size hi (hi + size hi) 0 (omega arith) (ground arith);
}

left_unique :
    (size : ℕ → ℕ) (len lo hi : ℕ)
    → Tiled size len lo hi
    → (i j : ℕ) → 0 < size i
    → 0 < size j
    → i + size i ≡ j + size j
    → i ≡ j
left_unique size len lo hi T i j p q e =
    let a = T.apart i j p q in let b = T.apart j i q p in ground arith

-- The gap takes in the block on its left.
pub take_left :
    (size : ℕ → ℕ) (len lo hi k : ℕ)
    → Tiled size len lo hi
    → 0 < k
    → 0 < size k
    → k + size k ≡ lo
    → Tiled (put size k 0) len k hi
take_left size len lo hi k T k0 pk ek =
    let o = T.ordered in
    let ga = T.gap_after in
    record {
      fits = λ i p. let (n, e, q) = put-pos size k i p in let f = T.fits i q in ground arith;
      apart = λ i j p q l.
          let (n, e, p') = put-pos size k i p in
          let (m, d, q') = put-pos size k j q in let a = T.apart i j p' q' l in ground arith;
      around = λ i p.
          let (n, e, q) = put-pos size k i p in
          rw e (elim (T.around i q) [ inl f ↦ inl (before_taken i q n f) | inr f ↦ inr f ]);
      after = λ i p l.
          let (n, e, q) = put-pos size k i p in
          rw e (elim (T.after i q (subst (λ z. i + z < len) e l)) [
            | inl f ↦ elim (n (left_unique size len lo hi T i k q pk (f ∙ sym ek))) [ ]
            | inr f ↦ elim (ℕ_discrete (i + size i) k) [
              | yes z ↦ inl z
              | no z ↦ inr (put-keeps size k (i + size i) 0 z f)
            ]
          ]);
      before = λ i p l m.
          let (n, e, q) = put-pos size k i p in
          let b = T.before i q l m in
          Left-kept size k i 0 b (λ z. m (at_gap i q (sym b.2 ∙ ap (λ x. x + size x) z ∙ ek)));
      ordered = omega arith;
      gap_before =
          let b = T.before k pk k0 (omega arith) in
          Left-kept size k k 0 b (omega (arith, b.1, b.2));
      gap_after = put-keeps size k hi 0 (omega arith) ga;
    }
  where
    before_taken : (i : ℕ) → 0 < size i → i ≢ k → i + size i ≤ lo → i + size i ≤ k
    before_taken i q n f = let a = T.apart k i pk q in let b = T.apart i k q pk in ground arith

    at_gap : (i : ℕ) → 0 < size i → i ≡ lo → i ≡ hi
    at_gap i q e = let f = T.around i q in let o = T.ordered in ground arith

pub put-split :
    (f : ℕ → ℕ) (k a i : ℕ)
    → 0 < put f k a i
    → ((i ≡ k) × (put f k a i ≡ a)) ⊎ ((i ≢ k) × (put f k a i ≡ f i) × (0 < f i))
put-split f k a i h = ground arith

pub put_self : {A : Type 0} (f : ℕ → A) (i : ℕ) (b : A) → put f i b i ≡ b
put_self f i b = ground arith

less_irrefl : (a b : ℕ) → a < b → a ≡ b → 0 < 0
less_irrefl a b h e = omega (arith, h, e)

-- The first ints of the gap become a block.
pub cut :
    (size : ℕ → ℕ) (len lo hi n : ℕ)
    → Tiled size len lo hi
    → 2 ≤ n
    → lo + n ≤ hi
    → Tiled (put size lo n) len (lo + n) hi
cut size len lo hi n T n2 h =
    let ga = T.gap_after in
    let fh = T.fits hi ga in
    record {
      fits = λ i p. elim (put-split size lo n i p) [
        | inl (e, d) ↦ rw d (n2, omega (arith, e, h, fh, ga))
        | inr (e, d, q) ↦ rw d (T.fits i q)
      ];
      apart = λ i j p q l. apart_cut i j p q l;
      around = λ i p. elim (put-split size lo n i p) [
        | inl (e, d) ↦ rw d (inl (omega (arith, e)))
        | inr (e, d, q) ↦
            rw d (elim (T.around i q) [ inl f ↦ inl (omega (arith, f)) | inr f ↦ inr f ])
      ];
      after = λ i p l. elim (put-split size lo n i p) [
        | inl (e, d) ↦ rw d (inl (ap (λ x. x + n) e))
        | inr (e, d, q) ↦ rw d (
            inr (elim (T.after i q (subst (λ z. i + z < len) d l)) [
              | inl f ↦ rw (put_eq size lo (i + size i) n f) (omega (arith, n2))
              | inr f ↦ elim (ℕ_discrete (i + size i) lo) [
                | yes z ↦ rw (put_eq size lo (i + size i) n z) (omega (arith, n2))
                | no z ↦ put-keeps size lo (i + size i) n z f
              ]
            ]))
      ];
      before = λ i p l m. elim (put-split size lo n i p) [
        | inl (e, d) ↦ left_kept i (subst (Left size) (sym e) T.gap_before)
        | inr (e, d, q) ↦ left_kept i (T.before i q l m)
      ];
      ordered = omega (arith, h);
      gap_before = (lo, rw (put_self size lo n) (omega (arith, n2)), rw (put_self size lo n) refl);
      gap_after = put-keeps size lo hi n (omega (arith, h, n2)) ga;
    }
  where
    unused : (i : ℕ) → 0 < size i → i ≢ lo
    unused i q e = let f = T.around i q in ground arith

    left_kept : (i : ℕ) → Left size i → Left (put size lo n) i
    left_kept i l = Left-kept size lo i n l (unused l.0 l.1)

    apart_cut :
        (i j : ℕ) → 0 < put size lo n i → 0 < put size lo n j → i < j → i + put size lo n i ≤ j
    apart_cut i j p q l = elim (put-split size lo n i p) [
      | inl (e, d) ↦ elim (put-split size lo n j q) [
        | inl (f, c) ↦ elim (less_irrefl i j l (e ∙ sym f)) [ ]
        | inr (f, c, q') ↦ let a = T.around j q' in rw d (omega (arith, e, a, h, l))
      ]
      | inr (e, d, p') ↦ elim (put-split size lo n j q) [
        | inl (f, c) ↦ let a = T.around i p' in rw d (omega (arith, f, a, h, l, n2))
        | inr (f, c, q') ↦ rw d (T.apart i j p' q' l)
      ]
    ]

-- An empty gap may stand between any two blocks.
pub move_gap :
    (size : ℕ → ℕ) (len k m : ℕ) → Tiled size len k k → 0 < m → 0 < size m → Tiled size len m m
move_gap size len k m T m0 pm = record {
  fits = T.fits;
  apart = T.apart;
  around = λ i p. let a = T.apart i m p pm in ground arith;
  after = λ i p l. elim (T.after i p l) [
    | inl f ↦ inr (subst (λ z. 0 < size z) (sym f) T.gap_after)
    | inr f ↦ inr f
  ];
  before = λ i p l n. elim (ℕ_discrete i k) [
    | yes e ↦ subst (Left size) (sym e) T.gap_before
    | no e ↦ T.before i p l e
  ];
  ordered = omega arith;
  gap_before = elim (ℕ_discrete m k) [
    | yes e ↦ subst (Left size) (sym e) T.gap_before
    | no e ↦ T.before m pm m0 e
  ];
  gap_after = pm;
}
