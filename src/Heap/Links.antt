-- ===== src/Heap/Links.antt =====
-- The list of available blocks of kernel/heap.cc as a set of indexes with two links and a rank that
-- falls along the list: unlinking a block, and putting one in front.
use kernel_development_with.Prelude.{
  ℕ, suc, ◌<◌, ◌≡◌, ◌≢◌, ◌⊎◌, inl, inr, sym, ap, ◌∙◌, Bool, true, false, if◌then◌else◌, ◌==◌, arith,
  subst,
}
use kernel_development_with.Threads.{put}

pub record Linked (listed : ℕ → Bool) (nx pv rank : ℕ → ℕ) (head : ℕ) : Type 0 where
  pub null_unlisted : listed 0 ≡ false
  pub onward :
      (p : ℕ)
      → listed p ≡ true
      → nx p ≢ 0
      → (listed (nx p) ≡ true) × (pv (nx p) ≡ p) × (rank (nx p) < rank p)
  pub backward : (p : ℕ) → listed p ≡ true → pv p ≢ 0 → (listed (pv p) ≡ true) × (nx (pv p) ≡ p)
  pub first : (p : ℕ) → listed p ≡ true → pv p ≡ 0 → head ≡ p
  pub started : head ≢ 0 → (listed head ≡ true) × (pv head ≡ 0)

pub put-false : (f : ℕ → Bool) (i p : ℕ) → put f i false p ≡ true → (p ≢ i) × (f p ≡ true)
put-false f i p h = ground arith

pub put_else : (f : ℕ → Bool) (i p : ℕ) (b : Bool) → p ≢ i → f p ≡ true → put f i b p ≡ true
put_else f i p b n h = ground arith

less-ne : (a b : ℕ) → a < b → a ≡ b → 0 < 0
less-ne a b h e = omega (arith, h, e)

ranks-ne : (rank : ℕ → ℕ) (p q : ℕ) → rank p < rank q → p ≢ q
ranks-ne rank p q h e = elim (less-ne (rank p) (rank q) h (ap rank e)) [ ]

true-ne_false : true ≡ false → 0 < 0
true-ne_false h = ground arith

pub put-true : (f : ℕ → Bool) (i p : ℕ) → put f i true p ≡ true → (p ≡ i) ⊎ ((p ≢ i) × (f p ≡ true))
put-true f i p h = ground arith

put_self : {A : Type 0} (f : ℕ → A) (i : ℕ) (b : A) → put f i b i ≡ b
put_self f i b = ground arith

put-less : (f : ℕ → ℕ) (i p q a : ℕ) → p ≢ i → q ≢ i → f q < f p → put f i a q < put f i a p
put-less f i p q a n m h = ground arith

put-less_self :
    (f : ℕ → ℕ) (i p q : ℕ) {a : ℕ}
    → p ≡ i
    → q ≢ i
    → f q ≡ a
    → put f i (suc a) q < put f i (suc a) p
put-less_self f i p q e n h = ground arith

choose :
    {A : Type 0} (p q : ℕ) (a b c : A)
    → c ≡ (if p == q then a else b)
    → ((p ≡ q) × (c ≡ a)) ⊎ ((p ≢ q) × (c ≡ b))
choose p q a b c e = ground arith

module _ {listed : ℕ → Bool} {nx pv rank : ℕ → ℕ} {head : ℕ} where
  pub listed-ne_0 : Linked listed nx pv rank head → (p : ℕ) → listed p ≡ true → p ≢ 0
  listed-ne_0 L p lp e = let d = L.null_unlisted in grind arith

  unlink-onward :
      (L : Linked listed nx pv rank head) (i : ℕ) (hi : listed i ≡ true) (pv' : ℕ → ℕ)
      → ((q : ℕ) → listed q ≡ true → q ≢ i → pv' q ≡ (if q == nx i then pv i else pv q))
      → (p q : ℕ) → p ≢ i
      → listed p ≡ true
      → q ≡ (if p == pv i then nx i else nx p)
      → q ≢ 0
      → (q ≢ i) × (listed q ≡ true) × (pv' q ≡ p) × (rank q < rank p)
  unlink-onward L i hi pv' ep p q np lp eq k = elim (choose p (pv i) (nx i) (nx p) q eq) [
    | inl (e, e') ↦
        let u = L.onward i hi (λ z. k (e' ∙ z)) in
        let v = L.backward i hi (λ z. listed-ne_0 L p lp (e ∙ z)) in
        let w = L.onward p lp (λ z. listed-ne_0 L i hi (sym v.1 ∙ ap nx (sym e) ∙ z)) in
        let r : rank i < rank p = subst (λ z. rank z < rank p) (ap nx e ∙ v.1) w.2 in
        let l = subst (λ z. listed z ≡ true) (sym e') u.0 in
        let s : rank q < rank i = subst (λ z. rank z < rank i) (sym e') u.2 in
        let n : q ≢ i = ranks-ne rank q i s in
        let t = ep q l n in
        let r' : rank q < rank p = omega (arith, r, s) in
        elim (choose q (nx i) (pv i) (pv q) (pv' q) t) [
          | inl (f, f') ↦ (n, l, f' ∙ sym e, r')
          | inr (f, f') ↦ elim (f e') [ ]
        ]
    | inr (e, e') ↦
        let u = L.onward p lp (λ z. k (e' ∙ z)) in
        let l = subst (λ z. listed z ≡ true) (sym e') u.0 in
        let o : pv q ≡ p = ap pv e' ∙ u.1 in
        let r = subst (λ z. rank z < rank p) (sym e') u.2 in
        let n : q ≢ i = λ z. e (sym o ∙ ap pv z) in
        elim (choose q (nx i) (pv i) (pv q) (pv' q) (ep q l n)) [
          | inl (f, f') ↦ elim (np (sym o ∙ ap pv f ∙ (L.onward i hi (λ z. k (f ∙ z))).1)) [ ]
          | inr (f, f') ↦ (n, l, f' ∙ o, r)
        ]
  ]

  unlink-backward :
      (L : Linked listed nx pv rank head) (i : ℕ) (hi : listed i ≡ true) (nx' : ℕ → ℕ)
      → ((q : ℕ) → listed q ≡ true → q ≢ i → nx' q ≡ (if q == pv i then nx i else nx q))
      → (p q : ℕ) → p ≢ i
      → listed p ≡ true
      → q ≡ (if p == nx i then pv i else pv p)
      → q ≢ 0
      → (q ≢ i) × (listed q ≡ true) × (nx' q ≡ p)
  unlink-backward L i hi nx' en p q np lp eq k = elim (choose p (nx i) (pv i) (pv p) q eq) [
    | inl (e, e') ↦
        let v = L.backward i hi (λ z. k (e' ∙ z)) in
        let l = subst (λ z. listed z ≡ true) (sym e') v.0 in
        let o : nx q ≡ i = ap nx e' ∙ v.1 in
        let r = (L.onward q l (λ z. listed-ne_0 L i hi (sym o ∙ z))).2 in
        let r' : rank i < rank q = subst (λ z. rank z < rank q) o r in
        let n : q ≢ i = λ z. ranks-ne rank i q r' (sym z) in
        elim (choose q (pv i) (nx i) (nx q) (nx' q) (en q l n)) [
          | inl (f, f') ↦ (n, l, f' ∙ sym e)
          | inr (f, f') ↦ elim (f e') [ ]
        ]
    | inr (e, e') ↦
        let v = L.backward p lp (λ z. k (e' ∙ z)) in
        let l = subst (λ z. listed z ≡ true) (sym e') v.0 in
        let o : nx q ≡ p = ap nx e' ∙ v.1 in
        let n : q ≢ i = λ z. e (sym o ∙ ap nx z) in
        elim (choose q (pv i) (nx i) (nx q) (nx' q) (en q l n)) [
          | inl (f, f') ↦ elim (np (sym o ∙ ap nx f ∙ (L.backward i hi (λ z. k (f ∙ z))).1)) [ ]
          | inr (f, f') ↦ (n, l, f' ∙ o)
        ]
  ]

  unlink-first :
      (L : Linked listed nx pv rank head) (i : ℕ) (hi : listed i ≡ true) (head' : ℕ)
      → head' ≡ (if pv i == 0 then nx i else head)
      → (p : ℕ) → p ≢ i
      → listed p ≡ true
      → 0 ≡ (if p == nx i then pv i else pv p)
      → head' ≡ p
  unlink-first L i hi head' eh p np lp eq = elim (choose p (nx i) (pv i) (pv p) 0 eq) [
    | inl (e, e') ↦ ground arith
    | inr (e, e') ↦
        let z = L.first p lp (sym e') in let b = L.started in let w = L.first i hi in ground arith
  ]

  unlink-started :
      (L : Linked listed nx pv rank head) (i : ℕ) (hi : listed i ≡ true) (head' : ℕ) (pv' : ℕ → ℕ)
      → head' ≡ (if pv i == 0 then nx i else head)
      → ((q : ℕ) → listed q ≡ true → q ≢ i → pv' q ≡ (if q == nx i then pv i else pv q))
      → head' ≢ 0
      → (head' ≢ i) × (listed head' ≡ true) × (pv' head' ≡ 0)
  unlink-started L i hi head' pv' eh ep k = elim (choose (pv i) 0 (nx i) head head' eh) [
    | inl (e, e') ↦
        let u = L.onward i hi (λ z. k (e' ∙ z)) in
        let l = subst (λ z. listed z ≡ true) (sym e') u.0 in
        let s : rank head' < rank i = subst (λ z. rank z < rank i) (sym e') u.2 in
        let n : head' ≢ i = ranks-ne rank head' i s in let t = ep head' l n in (n, l, ground arith)
    | inr (e, e') ↦
        let u = L.started (λ z. k (e' ∙ z)) in
        let l = subst (λ z. listed z ≡ true) (sym e') u.0 in
        let n : head' ≢ i = λ z. e (ap pv (sym z ∙ e') ∙ u.1) in
        let o : pv head' ≡ 0 = ap pv e' ∙ u.1 in
        elim (choose head' (nx i) (pv i) (pv head') (pv' head') (ep head' l n)) [
          | inl (f, f') ↦
              elim (listed-ne_0 L i hi
                (sym (L.onward i hi (λ z. k (f ∙ z))).1 ∙ ap pv (sym f) ∙ o)) [ ]
          | inr (f, f') ↦ (n, l, f' ∙ o)
        ]
  ]

  pub unlink-Linked :
      (L : Linked listed nx pv rank head) (i : ℕ) (hi : listed i ≡ true) (nx' pv' : ℕ → ℕ)
      (head' : ℕ)
      → head' ≡ (if pv i == 0 then nx i else head)
      → ((q : ℕ) → listed q ≡ true → q ≢ i → nx' q ≡ (if q == pv i then nx i else nx q))
      → ((q : ℕ) → listed q ≡ true → q ≢ i → pv' q ≡ (if q == nx i then pv i else pv q))
      → Linked (put listed i false) nx' pv' rank head'
  unlink-Linked L i hi nx' pv' head' eh en ep = record {
    null_unlisted = let z = L.null_unlisted in ground arith;
    onward = λ p hp k.
        let (np, lp) = put-false listed i p hp in
        let (n, l, e, r) = unlink-onward L i hi pv' ep p (nx' p) np lp (en p lp np) k in
        (put_else listed i (nx' p) false n l, e, r);
    backward = λ p hp k.
        let (np, lp) = put-false listed i p hp in
        let (n, l, e) = unlink-backward L i hi nx' en p (pv' p) np lp (ep p lp np) k in
        (put_else listed i (pv' p) false n l, e);
    first = λ p hp k.
        let (np, lp) = put-false listed i p hp in
        unlink-first L i hi head' eh p np lp (sym k ∙ ep p lp np);
    started = λ k.
        let (n, l, e) = unlink-started L i hi head' pv' eh ep k in
        (put_else listed i head' false n l, e);
  }

  push-onward_new :
      (L : Linked listed nx pv rank head) (i : ℕ) (hi : listed i ≡ false) (pv' : ℕ → ℕ)
      → ((q : ℕ) → listed q ≡ true → pv' q ≡ (if q == head then i else pv q))
      → (p q : ℕ) → p ≡ i
      → q ≡ head
      → q ≢ 0
      → (put listed i true q ≡ true)
        × (pv' q ≡ p)
        × (put rank i (suc (rank head)) q < put rank i (suc (rank head)) p)
  push-onward_new L i hi pv' ep p q e e' k =
      let u = L.started (λ z. k (e' ∙ z)) in
      let l = subst (λ z. listed z ≡ true) (sym e') u.0 in
      let n : q ≢ i = λ z. elim (true-ne_false (sym l ∙ ap listed z ∙ hi)) [ ] in
      let t = ep q l in
      (put_else listed i q true n l, ground arith, put-less_self rank i p q e n (ap rank e'))

  push-onward_old :
      (L : Linked listed nx pv rank head) (i : ℕ) (hi : listed i ≡ false) (pv' : ℕ → ℕ)
      → ((q : ℕ) → listed q ≡ true → pv' q ≡ (if q == head then i else pv q))
      → (p q : ℕ) → p ≢ i
      → listed p ≡ true
      → q ≡ nx p
      → q ≢ 0
      → (put listed i true q ≡ true)
        × (pv' q ≡ p)
        × (put rank i (suc (rank head)) q < put rank i (suc (rank head)) p)
  push-onward_old L i hi pv' ep p q n lp e k =
      let u = L.onward p lp (λ z. k (e ∙ z)) in
      let l = subst (λ z. listed z ≡ true) (sym e) u.0 in
      let m : q ≢ i = λ z. elim (true-ne_false (sym l ∙ ap listed z ∙ hi)) [ ] in
      let o : pv q ≡ p = ap pv e ∙ u.1 in
      let r = subst (λ z. rank z < rank p) (sym e) u.2 in
      let w = λ (z : q ≡ head). (L.started (λ y. k (z ∙ y))).1 in
      let t = ep q l in
      let z0 = listed-ne_0 L p lp in
      (
        put_else listed i q true m l,
        elim (choose q head i (pv q) (pv' q) t) [
          | inl (f, f') ↦ elim (z0 (sym o ∙ ap pv f ∙ w f)) [ ]
          | inr (f, f') ↦ f' ∙ o
        ],
        put-less rank i p q (suc (rank head)) n m r,
      )

  push-backward :
      (L : Linked listed nx pv rank head) (i : ℕ) (hi : listed i ≡ false) (nx' : ℕ → ℕ)
      → nx' i ≡ head
      → ((q : ℕ) → listed q ≡ true → nx' q ≡ nx q)
      → (p q : ℕ) → listed p ≡ true
      → q ≡ (if p == head then i else pv p)
      → q ≢ 0
      → (put listed i true q ≡ true) × (nx' q ≡ p)
  push-backward L i hi nx' ni en p q lp eq k = elim (choose p head i (pv p) q eq) [
    | inl (e, e') ↦ (
      subst (λ z. put listed i true z ≡ true) (sym e') (put_self listed i true),
      ap nx' e' ∙ ni ∙ sym e,
    )
    | inr (e, e') ↦
        let v = L.backward p lp (λ z. k (e' ∙ z)) in
        let l = subst (λ z. listed z ≡ true) (sym e') v.0 in
        let m : q ≢ i = λ z. elim (true-ne_false (sym l ∙ ap listed z ∙ hi)) [ ] in
        (put_else listed i q true m l, en q l ∙ ap nx e' ∙ v.1)
  ]

  pub push-Linked :
      (L : Linked listed nx pv rank head) (i : ℕ) (hi : listed i ≡ false) (n0 : i ≢ 0)
      (nx' pv' : ℕ → ℕ)
      → nx' i ≡ head
      → pv' i ≡ 0
      → ((q : ℕ) → listed q ≡ true → nx' q ≡ nx q)
      → ((q : ℕ) → listed q ≡ true → pv' q ≡ (if q == head then i else pv q))
      → Linked (put listed i true) nx' pv' (put rank i (suc (rank head))) i
  push-Linked L i hi n0 nx' pv' ni pi en ep = record {
    null_unlisted = let z = L.null_unlisted in ground arith;
    onward = λ p hp k. elim (put-true listed i p hp) [
      | inl e ↦ push-onward_new L i hi pv' ep p (nx' p) e (ap nx' e ∙ ni) k
      | inr (n, lp) ↦ push-onward_old L i hi pv' ep p (nx' p) n lp (en p lp) k
    ];
    backward = λ p hp k. elim (put-true listed i p hp) [
      | inl e ↦ elim (k (ap pv' e ∙ pi)) [ ]
      | inr (n, lp) ↦ push-backward L i hi nx' ni en p (pv' p) lp (ep p lp) k
    ];
    first = λ p hp k. elim (put-true listed i p hp) [
      | inl e ↦ sym e
      | inr (n, lp) ↦
          let a = ep p lp in let b = L.first p lp in let c = listed-ne_0 L p lp in ground arith
    ];
    started = λ k. (put_self listed i true, pi);
  }

  -- Only the links of listed blocks count.
  pub same-Linked :
      (L : Linked listed nx pv rank head) (nx' pv' : ℕ → ℕ)
      → ((q : ℕ) → listed q ≡ true → nx' q ≡ nx q)
      → ((q : ℕ) → listed q ≡ true → pv' q ≡ pv q)
      → Linked listed nx' pv' rank head
  same-Linked L nx' pv' en ep = record {
    null_unlisted = L.null_unlisted;
    onward = λ p l k.
        let e = en p l in
        let (l', f, r) = L.onward p l (λ z. k (e ∙ z)) in
        (
          subst (λ z. listed z ≡ true) (sym e) l',
          ap pv' e ∙ ep (nx p) l' ∙ f,
          subst (λ z. rank z < rank p) (sym e) r,
        );
    backward = λ p l k.
        let e = ep p l in
        let (l', f) = L.backward p l (λ z. k (e ∙ z)) in
        (subst (λ z. listed z ≡ true) (sym e) l', ap nx' e ∙ en (pv p) l' ∙ f);
    first = λ p l k. L.first p l (sym (ep p l) ∙ k);
    started = λ k. let (l, e) = L.started k in (l, ep head l ∙ e);
  }
