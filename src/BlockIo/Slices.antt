-- ===== src/BlockIo/Slices.antt =====
-- The bytes `f a`, `f (a + 1)`, … of a disk or a file, and how lists of them are cut and joined.
use kernel_development_with.Prelude.{
  ℕ, zero, suc, ◌+◌, ◌-◌, ◌≤◌, ◌≡◌, refl, ap, List, [], ◌∷◌, ◌++◌, arith, length, take, drop,
}

abbrev pub slice : (ℕ → ℕ) → ℕ → ℕ → List ℕ
slice f a zero = []
slice f a (suc n) = f a ∷ slice f (suc a) n

pub length-slice : (f : ℕ → ℕ) (a n : ℕ) → length (slice f a n) ≡ n
length-slice f a zero = refl
length-slice f a (suc n) = ap suc (length-slice f (suc a) n)

pub take-slice : (f : ℕ → ℕ) (a n k : ℕ) → k ≤ n → take k (slice f a n) ≡ slice f a k
take-slice f a n zero h = refl
take-slice f a zero (suc k) h = elim h [ ]
take-slice f a (suc n) (suc k) h = ap (◌∷◌ (f a)) (take-slice f (suc a) n k (omega arith))

pub drop-slice : (f : ℕ → ℕ) (a n k : ℕ) → k ≤ n → drop k (slice f a n) ≡ slice f (a + k) (n - k)
drop-slice f a n zero h = ground (arith)
drop-slice f a zero (suc k) h = elim h [ ]
drop-slice f a (suc n) (suc k) h = ground (arith, drop-slice f (suc a) n k)

pub slice-append : (f : ℕ → ℕ) (a m n : ℕ) → slice f a m ++ slice f (a + m) n ≡ slice f a (m + n)
slice-append f a zero n = ground arith
slice-append f a (suc m) n =
    let e : suc m + n ≡ suc (m + n) = omega arith in
    let g : a + suc m ≡ suc a + m = omega arith in
    rw (e, g) (ap (◌∷◌ (f a)) (slice-append f (suc a) m n))
