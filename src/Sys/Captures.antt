-- ===== src/Sys/Captures.antt =====
-- kernel/sys.cc: `SYS::exec` copies an argument to the kernel, up to its 0.
use kernel_development_with.Prelude.{
  ℕ, zero, suc, ◌+◌, ◌^◌, ◌≤◌, ◌<◌, ◌≡◌, ◌≢◌, refl, ap, some, List, [], ◌∷◌, ◌++◌, length, arith,
  eq→==, ne→==, map,
}
use kernel_development_with.Sys.{Bytes, strlen, fetch, capture}
use kernel_development_with.Sys.Memory.{At, add32_next}
use kernel_development_with.Sys.Strings.{Strings}

-- No byte of the string is the one that ends it.
abbrev pub Solid : List ℕ → Type 0
Solid [] = Unit {0}
Solid (c ∷ cs) = (c ≢ 0) × Solid cs

abbrev pub AllSolid : List (List ℕ) → Type 0
AllSolid [] = Unit {0}
AllSolid (s ∷ ss) = Solid s × AllSolid ss

strlen-At :
    (fuel : ℕ) (m : Bytes) (p : ℕ) (s : List ℕ)
    → At m p (s ++ 0 ∷ [])
    → Solid s
    → length s < fuel
    → p + length s < 2 ^ 32
    → strlen fuel m p ≡ some (length s)
unfolding strlen
strlen-At zero m p s a n h k = elim h [ ]
strlen-At (suc fuel) m p [] a n h k = rw (eq→== (m p) 0 a.0) refl
strlen-At (suc fuel) m p (c ∷ cs) a n h k =
    rw
      (
        a.0,
        ne→== c 0 n.0,
        add32_next p 1 (omega arith),
        strlen-At fuel m (p + 1) cs a.1 n.1 (omega arith) (omega arith),
      )
      refl

fetch-At :
    (m : Bytes) (p : ℕ) (s : List ℕ)
    → At m p (s ++ 0 ∷ [])
    → p + length s < 2 ^ 32
    → fetch m p (length s) ≡ s
unfolding fetch
fetch-At m p [] a k = refl
fetch-At m p (c ∷ cs) a k =
    rw (a.0, add32_next p 1 (omega arith), fetch-At m (p + 1) cs a.1 (omega arith)) refl

pub capture-At :
    (fuel : ℕ) (m : Bytes) (p : ℕ) (s : List ℕ)
    → At m p (s ++ 0 ∷ [])
    → Solid s
    → length s < fuel
    → p + length s < 2 ^ 32
    → capture fuel m p ≡ some s
unfolding capture
capture-At fuel m p s a n h k =
    rw (capture, strlen-At fuel m p s a n h k) (ap some (fetch-At m p s a k))

-- Arguments without a 0 among their bytes, which stand in user memory with a 0 after them, are
-- copied by exec byte for byte: the end of the memory they stand in is enough fuel for strlen.
pub captures-Strings :
    (m : Bytes) (lo hi : ℕ) (ps : List ℕ) (ss : List (List ℕ))
    → Strings m lo hi ps ss
    → AllSolid ss
    → hi ≤ 2 ^ 32
    → map (capture hi m) ps ≡ map some ss
captures-Strings m lo hi [] [] t n h = refl
captures-Strings m lo hi [] (s ∷ ss) t n h = elim t [ ]
captures-Strings m lo hi (a ∷ ps) [] t n h = elim t [ ]
captures-Strings m lo hi (a ∷ ps) (s ∷ ss) (l, u, t, r) (n, ns) h =
    rw (capture-At hi m a s t n (omega arith) (omega arith), captures-Strings m lo hi ps ss r ns h)
      refl
