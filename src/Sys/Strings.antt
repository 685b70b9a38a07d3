-- ===== src/Sys/Strings.antt =====
-- kernel/sys.cc: what the two loops of `SYS::exec` leave on the stack, the arguments' bytes and
-- the words that point to them.
use kernel_development_with.Prelude.{
  ℕ, suc, ◌+◌, ◌-◌, ◌*◌, ◌^◌, ◌≤◌, ◌<◌, ◌≡◌, inr, refl, sym, ap, ◌∙◌, List, [], ◌∷◌, ◌++◌, length,
  arith, length-append, sub32, subst,
}
use kernel_development_with.Sys.{
  Bytes, store, store_word, word, total_len, place, push_word, push_words,
}
use kernel_development_with.Sys.Memory.{
  At, store-out, At-store, At-same, store_word-out, word-store_word, word-same,
}

-- At each address stand an argument's bytes and a 0, from lo to before hi.
abbrev pub Strings : Bytes → ℕ → ℕ → List ℕ → List (List ℕ) → Type 0
Strings m lo hi [] [] = Unit {0}
Strings m lo hi (a ∷ ps) (s ∷ ss) =
    (lo ≤ a) × (a + length s < hi) × At m a (s ++ 0 ∷ []) × Strings m lo hi ps ss
Strings m lo hi [] (s ∷ ss) = 0 < 0
Strings m lo hi (a ∷ ps) [] = 0 < 0

pub length-terminated : (s : List ℕ) → length (s ++ 0 ∷ []) ≡ length s + 1
length-terminated s = length-append s (0 ∷ [])

pub Strings-same :
    (m m' : Bytes) (lo lo' hi : ℕ) (ps : List ℕ) (ss : List (List ℕ))
    → lo' ≤ lo
    → ((q : ℕ) → lo ≤ q → m' q ≡ m q)
    → Strings m lo hi ps ss
    → Strings m' lo' hi ps ss
Strings-same m m' lo lo' hi [] [] k h t = tt
Strings-same m m' lo lo' hi [] (s ∷ ss) k h t = t
Strings-same m m' lo lo' hi (a ∷ ps) [] k h t = t
Strings-same m m' lo lo' hi (a ∷ ps) (s ∷ ss) k h (l, u, t, r) = (
  omega arith,
  u,
  At-same m m' a (s ++ 0 ∷ []) (λ q b c. h q (omega arith)) t,
  Strings-same m m' lo lo' hi ps ss k h r,
)

pub Strings-wider :
    (m : Bytes) (lo hi hi' : ℕ) (ps : List ℕ) (ss : List (List ℕ))
    → hi ≤ hi'
    → Strings m lo hi ps ss
    → Strings m lo hi' ps ss
Strings-wider m lo hi hi' [] [] k t = tt
Strings-wider m lo hi hi' [] (s ∷ ss) k t = t
Strings-wider m lo hi hi' (a ∷ ps) [] k t = t
Strings-wider m lo hi hi' (a ∷ ps) (s ∷ ss) k (l, u, t, r) =
    (l, omega arith, t, Strings-wider m lo hi hi' ps ss k r)

pub Strings-length :
    (m : Bytes) (lo hi : ℕ) (ps : List ℕ) (ss : List (List ℕ))
    → Strings m lo hi ps ss
    → length ps ≡ length ss
Strings-length m lo hi [] [] t = refl
Strings-length m lo hi [] (s ∷ ss) t = elim t [ ]
Strings-length m lo hi (a ∷ ps) [] t = elim t [ ]
Strings-length m lo hi (a ∷ ps) (s ∷ ss) (l, u, t, r) = ap suc (Strings-length m lo hi ps ss r)

pub sub32_below : (a b : ℕ) → b ≤ a → a < 2 ^ 32 → sub32 a b ≡ a - b
sub32_below a b h k = ground arith

pub place-Strings :
    (m : Bytes) (sp : ℕ) (args : List (List ℕ))
    → total_len args ≤ sp
    → sp < 2 ^ 32
    → ((place m sp args).sp + total_len args ≡ sp)
      × Strings (place m sp args).memory (place m sp args).sp sp (place m sp args).addresses args
unfolding place total_len
place-Strings m sp [] h k = (omega arith, tt)
place-Strings m sp (s ∷ ss) h k =
    let (e, t) = place-Strings m sp ss (omega arith) k in
    let rest = place m sp ss in
    let d : sub32 rest.sp (length s + 1) ≡ rest.sp - (length s + 1) =
      sub32_below rest.sp (length s + 1) (omega arith) (omega arith) in
    let a = sub32 rest.sp (length s + 1) in
    let w = length-terminated s in
    (
      omega arith,
      (
        omega arith,
        omega arith,
        At-store rest.memory a (s ++ 0 ∷ []) (omega arith),
        Strings-same rest.memory (store rest.memory a (s ++ 0 ∷ [])) rest.sp a sp rest.addresses ss
            (omega arith)
            (λ q l. store-out rest.memory a (s ++ 0 ∷ []) q (omega arith) (inr (omega arith))) t,
      ),
    )

-- The words `xs` stand at p, one after the other.
abbrev pub Words : Bytes → ℕ → List ℕ → Type 0
Words m p [] = Unit {0}
Words m p (x ∷ xs) = (word m p ≡ x) × Words m (p + 4) xs

pub Words-same :
    (m m' : Bytes) (p : ℕ) (xs : List ℕ)
    → p + 4 * length xs ≤ 2 ^ 32
    → ((q : ℕ) → p ≤ q → m' q ≡ m q)
    → Words m p xs
    → Words m' p xs
Words-same m m' p [] b h t = tt
Words-same m m' p (x ∷ xs) b h (e, t) = (
  word-same m m' p (omega arith) (λ q k l. h q k) ∙ e,
  Words-same m m' (p + 4) xs (omega arith) (λ q k. h q (omega arith)) t,
)

-- Every word is one of 32 bits.
abbrev pub Fits : List ℕ → Type 0
Fits [] = Unit {0}
Fits (x ∷ xs) = (x < 2 ^ 32) × Fits xs

pub Strings-Fits :
    (m : Bytes) (lo hi : ℕ) (ps : List ℕ) (ss : List (List ℕ))
    → hi < 2 ^ 32
    → Strings m lo hi ps ss
    → Fits ps
Strings-Fits m lo hi [] [] k t = tt
Strings-Fits m lo hi [] (s ∷ ss) k t = elim t [ ]
Strings-Fits m lo hi (a ∷ ps) [] k t = elim t [ ]
Strings-Fits m lo hi (a ∷ ps) (s ∷ ss) k (l, u, t, r) =
    (omega arith, Strings-Fits m lo hi ps ss k r)

pub push_words-Words :
    (s : Bytes × ℕ) (xs : List ℕ)
    → 4 * length xs ≤ s.1
    → s.1 < 2 ^ 32
    → Fits xs
    → ((push_words s xs).1 + 4 * length xs ≡ s.1)
      × Words (push_words s xs).0 (push_words s xs).1 xs
      × ((q : ℕ) → s.1 ≤ q → (push_words s xs).0 q ≡ s.0 q)
unfolding push_words push_word
push_words-Words s [] h k f = (omega arith, tt, λ q l. refl)
push_words-Words s (x ∷ xs) h k f =
    let (e, t, o) = push_words-Words s xs (omega arith) k f.1 in
    let rest = push_words s xs in
    let d : sub32 rest.1 4 ≡ rest.1 - 4 = sub32_below rest.1 4 (omega arith) (omega arith) in
    let a = sub32 rest.1 4 in
    let z : a + 4 ≡ rest.1 = omega arith in
    (
      omega arith,
      (
        word-store_word rest.0 a x (omega arith) f.0,
        subst (λ p. Words (store_word rest.0 a x) p xs) (sym z)
            (Words-same rest.0 (store_word rest.0 a x) rest.1 xs (omega arith)
              (λ q l. store_word-out rest.0 a x q (omega arith) (inr (omega arith))) t),
      ),
      (λ q l. store_word-out rest.0 a x q (omega arith) (inr (omega arith)) ∙ o q l),
    )
