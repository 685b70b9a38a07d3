-- ===== src/Lock/Exclusion.antt =====
-- InterruptSafeLock of kernel/atomic.h: mutual exclusion, and the interrupt flag it restores.
use kernel_development_with.Prelude.{
  ℕ, ◌≡◌, ◌≢◌, inl, refl, sym, ◌∙◌, Bool, true, false, List, [], ◌∷◌, ℕ_discrete,
}
use kernel_development_with.Threads.{put}
use kernel_development_with.Lock.{
  Phase, outside, waiting, trying, retrying, won, inside, leaving, released, System, goes, disable,
  restore, exchanged, step_in, step, run, free_lock,
}
use kernel_development_with.Lock.Owner.{
  has_lock, Knows, Safe, put_self, put_ne, same_lock, same_Owned, taken_Owned, given_Owned,
  Knows-no_lock, alone_from,
}

module _ (flags : ℕ → Bool) (s : System) (core : ℕ) where
  -- A step of one core, from what it knows and what the others know.
  Knows-put :
      (t : System) (p : Phase)
      → t.phase ≡ put s.phase core p
      → Knows (flags core) t.was (t.disabled core) p
      → ((c : ℕ) → c ≢ core → Knows (flags c) t.was (t.disabled c) (s.phase c))
      → (c : ℕ) → Knows (flags c) t.was (t.disabled c) (t.phase c)
  Knows-put t p e own others c = elim (ℕ_discrete c core) [
    | yes q ↦ rw (e, q, put_self s.phase core p) own
    | no n ↦ rw (e, put_ne s.phase core c p n) (others c n)
  ]

  -- The others know what they knew when the flag of one core changes.
  others_flag :
      (b : Bool)
      → Safe flags s
      → (c : ℕ) → c ≢ core
      → Knows (flags c) s.was (put s.disabled core b c) (s.phase c)
  others_flag b k c n = rw (put_ne s.disabled core c b n) (k.knows c)

  -- An attempt starts from a phase without the lock, where the flag is the core's own.
  disable-Safe :
      (p : Phase)
      → s.phase core ≡ p
      → has_lock p ≡ false
      → s.disabled core ≡ flags core
      → Safe flags s
      → Safe flags (goes (disable s core) core (trying (s.disabled core)))
  disable-Safe p e h d k = record {
    owned =
        same_Owned s (goes (disable s core) core (trying (s.disabled core))) refl
          (same_lock s.phase core (trying (s.disabled core)) (rw e (sym h))) k.owned;
    knows =
        Knows-put (goes (disable s core) core (trying (s.disabled core))) (trying (s.disabled core))
          refl (put_self s.disabled core true, d) (others_flag true k);
  }

  restore-Safe :
      (w : Bool) (p q : Phase)
      → s.phase core ≡ p
      → has_lock p ≡ false
      → has_lock q ≡ false
      → ((was d : Bool) → d ≡ flags core → Knows (flags core) was d q)
      → w ≡ flags core
      → s.disabled core ≡ true
      → Safe flags s
      → Safe flags (goes (restore s core w) core q)
  restore-Safe true p q e h i n f d k = record {
    owned = same_Owned s (goes s core q) refl (same_lock s.phase core q (rw e (i ∙ sym h))) k.owned;
    knows = Knows-put (goes s core q) q refl (n s.was (s.disabled core) (d ∙ f)) (λ c n. k.knows c);
  }
  restore-Safe false p q e h i n f d k = record {
    owned =
        same_Owned s (goes (restore s core false) core q) refl
          (same_lock s.phase core q (rw e (i ∙ sym h))) k.owned;
    knows =
        Knows-put (goes (restore s core false) core q) q refl
          (n s.was (put s.disabled core false core) (put_self s.disabled core false ∙ f))
          (others_flag false k);
  }

  step_exchanged :
      (b w : Bool)
      → s.taken ≡ b
      → s.phase core ≡ trying w
      → Safe flags s
      → Safe flags (exchanged b s core w)
  step_exchanged true w a e k =
      let own : Knows (flags core) s.was (s.disabled core) (trying w) = rw e at (k.knows core) in
      record {
        owned =
            same_Owned s (goes s core (retrying w)) refl
              (same_lock s.phase core (retrying w) (rw e refl)) k.owned;
        knows = Knows-put (goes s core (retrying w)) (retrying w) refl own (λ c n. k.knows c);
      }
  step_exchanged false w a e k =
      let own : Knows (flags core) s.was (s.disabled core) (trying w) = rw e at (k.knows core) in
      record {
        owned =
            taken_Owned s (goes (record s { taken = true }) core (won w)) core (won w) a refl refl
              refl k.owned;
        knows =
            Knows-put (goes (record s { taken = true }) core (won w)) (won w) refl own
              (λ c n. k.knows c);
      }

  step_won : (w : Bool) → s.phase core ≡ won w → Safe flags s → Safe flags (step_in (won w) s core)
  unfolding step_in
  step_won w e k =
      let own : Knows (flags core) s.was (s.disabled core) (won w) = rw e at (k.knows core) in
      record {
        owned =
            same_Owned s (step_in (won w) s core) refl
              (same_lock s.phase core (inside w) (rw e refl)) k.owned;
        knows =
            Knows-put (step_in (won w) s core) (inside w) refl (own.0, own.1, own.1)
              (λ c n.
                Knows-no_lock (flags c) s.was w (s.disabled c) (s.phase c)
                  (alone_from s core c n k.owned (rw e refl)) (k.knows c));
      }

  step_inside :
      (w : Bool) → s.phase core ≡ inside w → Safe flags s → Safe flags (step_in (inside w) s core)
  unfolding step_in
  step_inside w e k =
      let own : Knows (flags core) s.was (s.disabled core) (inside w) = rw e at (k.knows core) in
      record {
        owned =
            same_Owned s (step_in (inside w) s core) refl
              (same_lock s.phase core (leaving s.was w) (rw e refl)) k.owned;
        knows = Knows-put (step_in (inside w) s core) (leaving s.was w) refl own (λ c n. k.knows c);
      }

  step_leaving :
      (v w : Bool)
      → s.phase core ≡ leaving v w
      → Safe flags s
      → Safe flags (step_in (leaving v w) s core)
  unfolding step_in
  step_leaving v w e k =
      let own : Knows (flags core) s.was (s.disabled core) (leaving v w) = rw e at (k.knows core) in
      record {
        owned =
            given_Owned s (step_in (leaving v w) s core) core (released v w) refl (rw e refl) refl
              refl k.owned;
        knows = Knows-put (step_in (leaving v w) s core) (released v w) refl own (λ c n. k.knows c);
      }

  -- A step of any core keeps the lock safe.
  step_phase : (p : Phase) → s.phase core ≡ p → Safe flags s → Safe flags (step_in p s core)
  unfolding step_in
  step_phase outside e k = disable-Safe outside e refl (rw e at (k.knows core)) k
  step_phase waiting e k = disable-Safe waiting e refl (rw e at (k.knows core)) k
  step_phase (trying w) e k = step_exchanged s.taken w refl e k
  step_phase (retrying w) e k =
      let own : Knows (flags core) s.was (s.disabled core) (retrying w) = rw e at (k.knows core) in
      restore-Safe w (retrying w) waiting e refl refl (λ x d h. h) own.1 own.0 k
  step_phase (won w) e k = step_won w e k
  step_phase (inside w) e k = step_inside w e k
  step_phase (leaving v w) e k = step_leaving v w e k
  step_phase (released v w) e k =
      let own : Knows (flags core) s.was (s.disabled core) (released v w) =
        rw e at (k.knows core) in
      restore-Safe v (released v w) outside e refl refl (λ x d h. h) own.2 own.0 k

run-Safe :
    (flags : ℕ → Bool) (s : System) (cores : List ℕ) → Safe flags s → Safe flags (run s cores)
unfolding run step
run-Safe flags s [] k = k
run-Safe flags s (core ∷ cores) k =
    run-Safe flags (step s core) cores (step_phase flags s core (s.phase core) refl k)

free-Safe : (flags : ℕ → Bool) → Safe flags (free_lock flags)
free-Safe flags = record { owned = inl (refl, λ c. refl); knows = λ c. refl }

-- Whatever the interleaving of the cores, while a core has the lock no other core has it.
pub run-exclusive :
    (flags : ℕ → Bool) (cores : List ℕ) (c d : ℕ)
    → has_lock ((run (free_lock flags) cores).phase c) ≡ true
    → d ≢ c
    → has_lock ((run (free_lock flags) cores).phase d) ≡ false
run-exclusive flags cores c d h n =
    alone_from (run (free_lock flags) cores) c d n
      (run-Safe flags (free_lock flags) cores (free-Safe flags)).owned h

-- The interrupt flag of a core in a phase.
abbrev pub flag_in : Bool → Phase → Bool
flag_in flag outside = flag
flag_in flag waiting = flag
flag_in flag _ = true

Knows-flag : (flag was d : Bool) (p : Phase) → Knows flag was d p → d ≡ flag_in flag p
Knows-flag flag was d outside k = k
Knows-flag flag was d waiting k = k
Knows-flag flag was d (trying w) k = k.0
Knows-flag flag was d (retrying w) k = k.0
Knows-flag flag was d (won w) k = k.0
Knows-flag flag was d (inside w) k = k.0
Knows-flag flag was d (leaving v w) k = k.0
Knows-flag flag was d (released v w) k = k.0

-- Whatever the interleaving of the cores, a core has its interrupts disabled from the start of an
-- attempt to take the lock until the attempt has failed, or until unlock() has restored its flag;
-- otherwise, also while it waits in lock() between two attempts, its interrupt flag is what it
-- was at the start.
pub run-flag :
    (flags : ℕ → Bool) (cores : List ℕ) (c : ℕ)
    → (run (free_lock flags) cores).disabled c
      ≡ flag_in (flags c) ((run (free_lock flags) cores).phase c)
run-flag flags cores c =
    let u = run (free_lock flags) cores in
    Knows-flag (flags c) u.was (u.disabled c) (u.phase c)
      ((run-Safe flags (free_lock flags) cores (free-Safe flags)).knows c)
