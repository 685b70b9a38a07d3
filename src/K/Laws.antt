-- ===== src/K/Laws.antt =====
-- `strlen` and `streq` of kernel/libk.cc on C strings.
use kernel_development_with.Prelude.{
  ℕ, ◌≡◌, ◌≢◌, ◌↔◌, refl, true, List, [], ◌∷◌, ◌++◌, arith, length, ne→==,
}
use kernel_development_with.K.{strlen, streq}

-- A C string has no 0 before its end.
abbrev pub IsText : List ℕ → Type 0
IsText [] = Unit {0}
IsText (c ∷ cs) = (c ≢ 0) × IsText cs

pub strlen-append : (cs rest : List ℕ) → IsText cs → strlen (cs ++ 0 ∷ rest) ≡ length cs
unfolding strlen
strlen-append [] rest t = refl
strlen-append (c ∷ cs) rest t = rw (ne→== c 0 t.0, strlen-append cs rest t.1)

streq_sound : (xs ys : List ℕ) → IsText xs → IsText ys → streq xs ys ≡ true → xs ≡ ys
unfolding streq
streq_sound [] [] t u h = refl
streq_sound [] (y ∷ ys) t u h = ground (arith, u.0)
streq_sound (x ∷ xs) [] t u h = ground (arith, t.0)
streq_sound (x ∷ xs) (y ∷ ys) t u h = ground (arith, t.0, streq_sound xs ys t.1 u.1)

streq_refl : (xs : List ℕ) → IsText xs → streq xs xs ≡ true
unfolding streq
streq_refl [] t = refl
streq_refl (x ∷ xs) t = ground (arith, t.0, streq_refl xs t.1)

-- On C strings streq answers true exactly on equal strings, and strlen counts the bytes before
-- the terminator whatever follows it.
pub streq_iff :
    (xs ys rest : List ℕ)
    → IsText xs
    → IsText ys
    → ((streq xs ys ≡ true) ↔ (xs ≡ ys)) × (strlen (xs ++ 0 ∷ rest) ≡ length xs)
streq_iff xs ys rest t u =
    ((streq_sound xs ys t u, λ e. rw (← e) (streq_refl xs t)), strlen-append xs rest t)
