-- ===== src/Sys/Memory.antt =====
-- kernel/sys.cc: reading back what was written to user memory.
use kernel_development_with.Prelude.{
  ℕ, ◌+◌, ◌*◌, ◌/◌, ◌%◌, ◌^◌, ◌≤◌, ◌<◌, ◌≡◌, ◌⊎◌, inl, refl, sym, ap, ◌∙◌, List, [], ◌∷◌, length,
  arith, add32, subst,
}
use kernel_development_with.Sys.{Bytes, store, store_word, word}
use kernel_development_with.Threads.{put}

-- The bytes `s` stand at p.
abbrev pub At : Bytes → ℕ → List ℕ → Type 0
At m p [] = Unit {0}
At m p (b ∷ bs) = (m p ≡ b) × At m (p + 1) bs

pub add32_next : (p k : ℕ) → p + k < 2 ^ 32 → add32 p k ≡ p + k
add32_next p k h = ground arith

pub store-out :
    (m : Bytes) (p : ℕ) (s : List ℕ) (q : ℕ)
    → p + length s ≤ 2 ^ 32
    → (q < p) ⊎ (p + length s ≤ q)
    → store m p s q ≡ m q
unfolding store
store-out m p [] q h o = refl
store-out m p (b ∷ []) q h o = ground arith
store-out m p (b ∷ c ∷ bs) q h o =
    rw (add32_next p 1 (omega arith))
      (store-out (put m p b) (p + 1) (c ∷ bs) q (omega arith) (ground arith) ∙ ground arith)

pub At-store : (m : Bytes) (p : ℕ) (s : List ℕ) → p + length s ≤ 2 ^ 32 → At (store m p s) p s
unfolding store
At-store m p [] h = tt
At-store m p (b ∷ []) h = (ground arith, tt)
At-store m p (b ∷ c ∷ bs) h =
    let m' = store (put m p b) (p + 1) (c ∷ bs) in
    let e : store m p (b ∷ c ∷ bs) ≡ m' =
      ap (λ z. store (put m p b) z (c ∷ bs)) (add32_next p 1 (omega arith)) in
    subst (λ z. At z p (b ∷ c ∷ bs)) (sym e)
      (
        store-out (put m p b) (p + 1) (c ∷ bs) p (omega arith) (inl (omega arith)) ∙ ground arith,
        At-store (put m p b) (p + 1) (c ∷ bs) (omega arith),
      )

-- Bytes stay while nothing is written where they stand.
pub At-same :
    (m m' : Bytes) (p : ℕ) (s : List ℕ)
    → ((q : ℕ) → p ≤ q → q < p + length s → m' q ≡ m q)
    → At m p s
    → At m' p s
At-same m m' p [] h a = tt
At-same m m' p (b ∷ bs) h a = (
  h p (omega arith) (omega arith) ∙ a.0,
  At-same m m' (p + 1) bs (λ q k l. h q (omega arith) (omega arith)) a.1,
)

pub store_word-out :
    (m : Bytes) (p x q : ℕ) → p + 4 ≤ 2 ^ 32 → (q < p) ⊎ (p + 4 ≤ q) → store_word m p x q ≡ m q
unfolding store_word
store_word-out m p x q h o =
    store-out m p (x % 256 ∷ x / 256 % 256 ∷ x / 256 ^ 2 % 256 ∷ x / 256 ^ 3 % 256 ∷ []) q h o

bytes-word :
    (x : ℕ)
    → x < 2 ^ 32
    → x % 256
        + 256 * (x / 256 % 256)
        + 256 ^ 2 * (x / 256 ^ 2 % 256)
        + 256 ^ 3 * (x / 256 ^ 3 % 256)
      ≡ x
bytes-word x h = omega (arith, h)

word-At :
    (m : Bytes) (p a b c d : ℕ)
    → p + 4 ≤ 2 ^ 32
    → At m p (a ∷ b ∷ c ∷ d ∷ [])
    → word m p ≡ a + 256 * b + 256 ^ 2 * c + 256 ^ 3 * d
unfolding word
word-At m p a b c d h (e0, (e1, (e2, (e3, t)))) =
    let f2 : m (p + 2) ≡ c = ap m (omega arith) ∙ e2 in
    let f3 : m (p + 3) ≡ d = ap m (omega arith) ∙ e3 in
    rw
      (
        add32_next p 1 (omega arith),
        add32_next p 2 (omega arith),
        add32_next p 3 (omega arith),
        e0,
        e1,
        f2,
        f3,
      )
      refl

pub word-store_word :
    (m : Bytes) (p x : ℕ) → p + 4 ≤ 2 ^ 32 → x < 2 ^ 32 → word (store_word m p x) p ≡ x
unfolding store_word
word-store_word m p x k h =
    let s = x % 256 ∷ x / 256 % 256 ∷ x / 256 ^ 2 % 256 ∷ x / 256 ^ 3 % 256 ∷ [] in
    word-At (store m p s) p (x % 256) (x / 256 % 256) (x / 256 ^ 2 % 256) (x / 256 ^ 3 % 256) k
      (At-store m p s k)
    ∙ bytes-word x h

pub word-same :
    (m m' : Bytes) (p : ℕ)
    → p + 4 ≤ 2 ^ 32
    → ((q : ℕ) → p ≤ q → q < p + 4 → m' q ≡ m q)
    → word m' p ≡ word m p
unfolding word
word-same m m' p k h =
    rw
      (
        add32_next p 1 (omega arith),
        add32_next p 2 (omega arith),
        add32_next p 3 (omega arith),
        h p (omega arith) (omega arith),
        h (p + 1) (omega arith) (omega arith),
        h (p + 2) (omega arith) (omega arith),
        h (p + 3) (omega arith) (omega arith),
      )
      refl
