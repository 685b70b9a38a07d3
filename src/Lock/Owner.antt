-- ===== src/Lock/Owner.antt =====
-- InterruptSafeLock of kernel/atomic.h: who has the lock, and what each core knows.
use kernel_development_with.Prelude.{
  ℕ, ◌≡◌, ◌≢◌, ◌⊎◌, inl, inr, refl, sym, ◌∙◌, Bool, true, false, ℕ_discrete, eq→==, ne→==,
}
use kernel_development_with.Threads.{put}
use kernel_development_with.Lock.{
  Phase, outside, waiting, trying, retrying, won, inside, leaving, released, System,
}

-- The phases in which a core has the lock.
abbrev pub has_lock : Phase → Bool
has_lock (won w) = true
has_lock (inside w) = true
has_lock (leaving v w) = true
has_lock _ = false

-- What a core in a phase knows: `flag` is what its interrupt flag was when it called lock().
abbrev pub Knows : Bool → Bool → Bool → Phase → Type 0
Knows flag was disabled outside = disabled ≡ flag
Knows flag was disabled waiting = disabled ≡ flag
Knows flag was disabled (trying w) = (disabled ≡ true) × (w ≡ flag)
Knows flag was disabled (retrying w) = (disabled ≡ true) × (w ≡ flag)
Knows flag was disabled (won w) = (disabled ≡ true) × (w ≡ flag)
Knows flag was disabled (inside w) = (disabled ≡ true) × (w ≡ flag) × (was ≡ flag)
Knows flag was disabled (leaving v w) = (disabled ≡ true) × (w ≡ flag) × (v ≡ flag)
Knows flag was disabled (released v w) = (disabled ≡ true) × (w ≡ flag) × (v ≡ flag)

-- The lock is free, or one core has it.
abbrev pub Owned : System → Type 0
Owned s =
    ((s.taken ≡ false) × ((c : ℕ) → has_lock (s.phase c) ≡ false))
    ⊎ ((h : ℕ) × (s.taken ≡ true)
        × (has_lock (s.phase h) ≡ true)
        × ((c : ℕ) → c ≢ h → has_lock (s.phase c) ≡ false))

-- `flags` are the interrupt flags outside the lock.
pub record Safe (flags : ℕ → Bool) (s : System) : Type 0 where
  pub owned : Owned s
  pub knows : (c : ℕ) → Knows (flags c) s.was (s.disabled c) (s.phase c)

pub clash {ℓ} : {A : Type ℓ} (b : Bool) → b ≡ true → b ≡ false → A
clash b p q = elim (bool_clash b p q) [ ]
  where
    bool_clash : (b : Bool) → b ≡ true → b ≢ false
    bool_clash b p q = cc

pub put_self {ℓ} : {A : Type ℓ} (f : ℕ → A) (i : ℕ) (a : A) → put f i a i ≡ a
put_self f i a = rw (eq→== i i refl) refl

pub put_ne {ℓ} : {A : Type ℓ} (f : ℕ → A) (i j : ℕ) (a : A) → j ≢ i → put f i a j ≡ f j
put_ne f i j a n = rw (ne→== i j (λ e. n (sym e))) refl

-- A phase that has the lock exactly if the old one had it.
pub same_lock :
    (f : ℕ → Phase) (core : ℕ) (p : Phase)
    → has_lock p ≡ has_lock (f core)
    → (c : ℕ) → has_lock (put f core p c) ≡ has_lock (f c)
same_lock f core p e c = elim (ℕ_discrete c core) [
  | yes q ↦ rw (q, put_self f core p) e
  | no n ↦ rw (put_ne f core c p n) refl
]

pub same_Owned :
    (s t : System)
    → t.taken ≡ s.taken
    → ((c : ℕ) → has_lock (t.phase c) ≡ has_lock (s.phase c))
    → Owned s
    → Owned t
same_Owned s t e f (inl (a, g)) = inl (e ∙ a, λ c. f c ∙ g c)
same_Owned s t e f (inr (h, a, b, g)) = inr (h, e ∙ a, f h ∙ b, λ c n. f c ∙ g c n)

-- A free lock that a core takes, and a lock that its core gives up.
pub taken_Owned :
    (s t : System) (core : ℕ) (p : Phase)
    → s.taken ≡ false
    → t.taken ≡ true
    → has_lock p ≡ true
    → t.phase ≡ put s.phase core p
    → Owned s
    → Owned t
taken_Owned s t core p a b h e (inl (x, g)) =
    inr (core, b, rw (e, put_self s.phase core p) h, λ c n. rw (e, put_ne s.phase core c p n) (g c))
taken_Owned s t core p a b h e (inr (k, x, y, g)) = clash s.taken x a

-- Only the owner has the lock.
pub only_owner :
    (s : System) (k : ℕ)
    → ((c : ℕ) → c ≢ k → has_lock (s.phase c) ≡ false)
    → (c : ℕ) → has_lock (s.phase c) ≡ true
    → c ≡ k
only_owner s k g c h = elim (ℕ_discrete c k) [
  | yes q ↦ q
  | no n ↦ clash (has_lock (s.phase c)) h (g c n)
]

pub given_Owned :
    (s t : System) (core : ℕ) (p : Phase)
    → t.taken ≡ false
    → has_lock (s.phase core) ≡ true
    → has_lock p ≡ false
    → t.phase ≡ put s.phase core p
    → Owned s
    → Owned t
given_Owned s t core p b h l e (inl (x, g)) = clash (has_lock (s.phase core)) h (g core)
given_Owned s t core p b h l e (inr (k, x, y, g)) = inl (
  b,
  λ c. elim (ℕ_discrete c core) [
    | yes q ↦ rw (e, q, put_self s.phase core p) l
    | no n ↦ rw (e, put_ne s.phase core c p n) (g c (λ q. n (q ∙ sym (only_owner s k g core h))))
  ],
)

pub Knows-no_lock :
    (flag was other disabled : Bool) (p : Phase)
    → has_lock p ≡ false
    → Knows flag was disabled p
    → Knows flag other disabled p
Knows-no_lock flag was other d outside h k = k
Knows-no_lock flag was other d waiting h k = k
Knows-no_lock flag was other d (trying w) h k = k
Knows-no_lock flag was other d (retrying w) h k = k
Knows-no_lock flag was other d (won w) h k = k
Knows-no_lock flag was other d (inside w) h k = clash true refl h
Knows-no_lock flag was other d (leaving v w) h k = k
Knows-no_lock flag was other d (released v w) h k = k

-- No other core has the lock when one has it.
pub alone_from :
    (s : System) (core c : ℕ)
    → c ≢ core
    → Owned s
    → has_lock (s.phase core) ≡ true
    → has_lock (s.phase c) ≡ false
alone_from s core c n (inl (a, g)) h = g c
alone_from s core c n (inr (k, a, b, g)) h = g c (λ q. n (q ∙ sym (only_owner s k g core h)))
