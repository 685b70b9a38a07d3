-- ===== src/Future/Values.antt =====
-- kernel/future.h: what get returns, and that a future that is set lets its waiting threads go on.
use kernel_development_with.Prelude.{
  ℕ, zero, suc, ◌+◌, ◌≤◌, ◌<◌, ◌≡◌, ◌≢◌, refl, ap, ◌∙◌, Bool, true, false, List, [], ◌∷◌, arith,
  length, get_or, set, dec_lt, set-past, get_or-past,
}
use kernel_development_with.Future.{
  Phase, outside, checks, waits, passes, reads, got, Setting, unset, wrote, ready, finished,
  panicked, asserted, Future, System, Move, sets, gets, set_step, checked, down, get_step,
  after_set, after_get, step, run, outsiders, start,
}

true_clash : (b : Bool) → b ≡ true → b ≢ false
true_clash b p q = cc

module _ {A : Type 0} (v : A) where
  -- What a thread in get() knows, of the value and of `isReady`.
  abbrev pub Knows : Bool → Phase A → Type 0
  Knows r outside = Unit {0}
  Knows r checks = Unit {0}
  Knows r waits = Unit {0}
  Knows r passes = r ≡ true
  Knows r reads = r ≡ true
  Knows r (got x) = x ≡ v

  abbrev pub AllKnow : Bool → List (Phase A) → Type 0
  AllKnow r [] = Unit {0}
  AllKnow r (p ∷ ps) = Knows r p × AllKnow r ps

  abbrev pub passing : Phase A → ℕ
  passing passes = 1
  passing _ = 0

  abbrev pub number_passing : List (Phase A) → ℕ
  number_passing [] = 0
  number_passing (p ∷ ps) = passing p + number_passing ps

  abbrev pub is_finished : Setting → ℕ
  is_finished finished = 1
  is_finished _ = 0

  -- What the caller of set has done so far.
  abbrev pub Written : Setting → Future A → Type 0
  Written unset f = f.is_ready ≡ false
  Written wrote f = (f.t ≡ v) × (f.is_ready ≡ false)
  Written ready f = (f.t ≡ v) × (f.is_ready ≡ true)
  Written finished f = (f.t ≡ v) × (f.is_ready ≡ true)
  Written panicked f = zero < zero

  pub record Sound (s : System A) : Type 0 where
    pub written : Written s.setting s.future
    pub knowing : AllKnow s.future.is_ready s.phases
    pub balance : s.future.go + number_passing s.phases ≡ is_finished s.setting

  Knows-ready : (p : Phase A) → Knows false p → Knows true p
  Knows-ready outside k = tt
  Knows-ready checks k = tt
  Knows-ready waits k = tt
  Knows-ready passes k = refl
  Knows-ready reads k = refl
  Knows-ready (got x) k = k

  AllKnow-ready : (ps : List (Phase A)) → AllKnow false ps → AllKnow true ps
  AllKnow-ready [] k = tt
  AllKnow-ready (p ∷ ps) (k, ks) = (Knows-ready p k, AllKnow-ready ps ks)

  AllKnow-get_or :
      (r : Bool) (ps : List (Phase A)) (i : ℕ) → AllKnow r ps → Knows r (get_or ps i (got v))
  AllKnow-get_or r [] i k = refl
  AllKnow-get_or r (p ∷ ps) zero k = k.0
  AllKnow-get_or r (p ∷ ps) (suc i) k = AllKnow-get_or r ps i k.1

  AllKnow-set :
      (r : Bool) (ps : List (Phase A)) (i : ℕ) (q : Phase A)
      → AllKnow r ps
      → Knows r q
      → AllKnow r (set ps i q)
  AllKnow-set r [] i q k l = tt
  AllKnow-set r (p ∷ ps) zero q k l = (l, k.1)
  AllKnow-set r (p ∷ ps) (suc i) q k l = (k.0, AllKnow-set r ps i q k.1 l)

  number_passing-set :
      (ps : List (Phase A)) (i : ℕ) (q : Phase A)
      → i < length ps
      → number_passing (set ps i q) + passing (get_or ps i (got v)) ≡ number_passing ps + passing q
  number_passing-set [] i q h = elim h [ ]
  number_passing-set (p ∷ ps) zero q h = omega arith
  number_passing-set (p ∷ ps) (suc i) q h =
      omega (arith, number_passing-set ps i q (omega (arith, h)))

  asserted-Sound :
      (r : Bool) (f : Future A) (ps : List (Phase A))
      → f.is_ready ≡ r
      → f.is_ready ≡ false
      → AllKnow f.is_ready ps
      → f.go + number_passing ps ≡ 0
      → Sound (after_set ps (asserted r v f))
  asserted-Sound true f ps e w k b = elim (true_clash f.is_ready e w) [ ]
  asserted-Sound false f ps e w k b = record { written = (refl, w); knowing = k; balance = b }

  set_at-Sound :
      (w : Setting) (f : Future A) (ps : List (Phase A))
      → Written w f
      → AllKnow f.is_ready ps
      → f.go + number_passing ps ≡ is_finished w
      → Sound (after_set ps (set_step v w f))
  unfolding set_step
  set_at-Sound unset f ps w k b = asserted-Sound f.is_ready f ps refl w k b
  set_at-Sound wrote f ps w k b = record {
    written = (w.0, refl);
    knowing = AllKnow-ready ps (rw w.1 at k);
    balance = b;
  }
  set_at-Sound ready f ps w k b = record { written = w; knowing = k; balance = omega (arith, b) }
  set_at-Sound finished f ps w k b = record { written = w; knowing = k; balance = b }
  set_at-Sound panicked f ps w k b = elim w [ ]

  ready_is : (w : Setting) (f : Future A) → Written w f → f.is_ready ≡ true → f.t ≡ v
  ready_is unset f w r = elim (true_clash f.is_ready r w) [ ]
  ready_is wrote f w r = w.0
  ready_is ready f w r = w.0
  ready_is finished f w r = w.0
  ready_is panicked f w r = elim w [ ]

  finished_is : (w : Setting) (f : Future A) → Written w f → 0 < is_finished w → f.is_ready ≡ true
  finished_is unset f w r = elim r [ ]
  finished_is wrote f w r = elim r [ ]
  finished_is ready f w r = elim r [ ]
  finished_is finished f w r = w.1
  finished_is panicked f w r = elim w [ ]

  same-Written :
      (w : Setting) (f g : Future A)
      → g.is_ready ≡ f.is_ready
      → g.t ≡ f.t
      → Written w f
      → Written w g
  same-Written unset f g r t w = r ∙ w
  same-Written wrote f g r t w = (t ∙ w.0, r ∙ w.1)
  same-Written ready f g r t w = (t ∙ w.0, r ∙ w.1)
  same-Written finished f g r t w = (t ∙ w.0, r ∙ w.1)
  same-Written panicked f g r t w = w

  module _ (s : System A) (i : ℕ) (f : Sound s) (inside : i < length s.phases) where
    -- A step of get from one phase to another.
    moved-Sound :
        (p q : Phase A) (g : Future A)
        → get_or s.phases i (got v) ≡ p
        → g.is_ready ≡ s.future.is_ready
        → g.t ≡ s.future.t
        → Knows s.future.is_ready q
        → g.go + passing q ≡ s.future.go + passing p
        → Sound (after_get s.setting s.phases i (q, g))
    moved-Sound p q g e r t k b = record {
      written = same-Written s.setting s.future g r t f.written;
      knowing = rw r (AllKnow-set s.future.is_ready s.phases i q f.knowing k);
      balance = omega (arith, b, f.balance, rw e at (number_passing-set s.phases i q inside));
    }

    down-Sound :
        (count : ℕ)
        → s.future.go ≡ count
        → get_or s.phases i (got v) ≡ waits
        → Sound (after_get s.setting s.phases i (down count s.future))
    down-Sound zero e p = moved-Sound waits waits s.future p refl refl tt refl
    down-Sound (suc k) e p =
        moved-Sound waits passes (record s.future { go = k }) p refl refl
          (finished_is s.setting s.future f.written (omega (arith, f.balance, e)))
          (omega (arith, e))

    check-Sound :
        (r : Bool)
        → s.future.is_ready ≡ r
        → get_or s.phases i (got v) ≡ checks
        → Sound (after_get s.setting s.phases i (checked r, s.future))
    check-Sound true e p = moved-Sound checks reads s.future p refl refl e refl
    check-Sound false e p = moved-Sound checks waits s.future p refl refl tt refl

    get_at-Sound :
        (p : Phase A)
        → get_or s.phases i (got v) ≡ p
        → Sound (after_get s.setting s.phases i (get_step p s.future))
    unfolding get_step
    get_at-Sound outside e = moved-Sound outside checks s.future e refl refl tt refl
    get_at-Sound checks e = check-Sound s.future.is_ready refl e
    get_at-Sound waits e = down-Sound s.future.go refl e
    get_at-Sound passes e =
        moved-Sound passes reads (record s.future { go = suc s.future.go }) e refl refl
          (rw e at (AllKnow-get_or s.future.is_ready s.phases i f.knowing)) (omega arith)
    get_at-Sound reads e =
        moved-Sound reads (got s.future.t) s.future e refl refl
          (ready_is s.setting s.future f.written
            (rw e at (AllKnow-get_or s.future.is_ready s.phases i f.knowing)))
          refl
    get_at-Sound (got x) e =
        moved-Sound (got x) (got x) s.future e refl refl
          (rw e at (AllKnow-get_or s.future.is_ready s.phases i f.knowing)) refl

  get_past-Sound :
      (s : System A) (i : ℕ)
      → Sound s
      → length s.phases ≤ i
      → Sound (after_get s.setting s.phases i (get_step (get_or s.phases i (got v)) s.future))
  unfolding get_step
  get_past-Sound s i f h =
      let q : after_get s.setting s.phases i (got v, s.future) ≡ s =
        ap (λ ps. record s { phases = ps }) (set-past s.phases i (got v) h) in
      rw (get_or-past s.phases i (got v) h, q) f

  step-Sound : (s : System A) (m : Move) → Sound s → Sound (step v s m)
  unfolding step
  step-Sound s sets f = set_at-Sound s.setting s.future s.phases f.written f.knowing f.balance
  step-Sound s (gets i) f = elim (dec_lt i (length s.phases)) [
    | yes h ↦ get_at-Sound s i f h (get_or s.phases i (got v)) refl
    | no h ↦ get_past-Sound s i f (omega (arith, h))
  ]

  run_from-Sound : (s : System A) (ms : List Move) → Sound s → Sound (run v s ms)
  unfolding run
  run_from-Sound s [] f = f
  run_from-Sound s (m ∷ ms) f = run_from-Sound (step v s m) ms (step-Sound s m f)

  outsiders-know :
      (threads : ℕ) → AllKnow false (outsiders threads) × (number_passing (outsiders threads) ≡ 0)
  outsiders-know zero = (tt, refl)
  outsiders-know (suc threads) = let q = outsiders-know threads in ((tt, q.0), omega (arith, q.1))

  start-Sound : (threads : ℕ) (t : A) → Sound (start threads t)
  start-Sound threads t =
      let q = outsiders-know threads in
      record { written = refl; knowing = q.0; balance = omega (arith, q.1) }

  -- The threads that have got a value have got v.
  abbrev pub HasGot : Phase A → Type 0
  HasGot (got x) = x ≡ v
  HasGot _ = Unit {0}

  abbrev pub AllGot : List (Phase A) → Type 0
  AllGot [] = Unit {0}
  AllGot (p ∷ ps) = HasGot p × AllGot ps

  Knows-HasGot : (r : Bool) (p : Phase A) → Knows r p → HasGot p
  Knows-HasGot r outside k = tt
  Knows-HasGot r checks k = tt
  Knows-HasGot r waits k = tt
  Knows-HasGot r passes k = tt
  Knows-HasGot r reads k = tt
  Knows-HasGot r (got x) k = k

  AllKnow-AllGot : (r : Bool) (ps : List (Phase A)) → AllKnow r ps → AllGot ps
  AllKnow-AllGot r [] k = tt
  AllKnow-AllGot r (p ∷ ps) k = (Knows-HasGot r p k.0, AllKnow-AllGot r ps k.1)

  -- Whatever the interleaving of any number of threads that get a future and the one that sets it
  -- to v, every thread that has got a value has got v.
  pub run-AllGot :
      (threads : ℕ) (t : A) (ms : List Move) → AllGot (run v (start threads t) ms).phases
  run-AllGot threads t ms =
      let s = run v (start threads t) ms in
      AllKnow-AllGot s.future.is_ready s.phases
        (run_from-Sound (start threads t) ms (start-Sound threads t)).knowing

  -- Once set has returned, a thread that waits in get can go on, unless another thread is between
  -- its down and its up: the count and the threads there are one in number.
  pub run-wakes :
      (threads : ℕ) (t : A) (ms : List Move)
      → (run v (start threads t) ms).setting ≡ finished
      → (run v (start threads t) ms).future.go + number_passing (run v (start threads t) ms).phases
        ≡ 1
  run-wakes threads t ms e =
      let f = run_from-Sound (start threads t) ms (start-Sound threads t) in
      f.balance ∙ ap is_finished e
