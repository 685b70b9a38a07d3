-- ===== src/PhysMem/Places.antt =====
-- Lists of frames of kernel/physmem.cc from which the one at a place is removed.
use kernel_development_with.Prelude.{
  ℕ, zero, suc, ◌<◌, ◌≡◌, ◌≢◌, refl, sym, ap, List, [], ◌∷◌, arith, length, get_or, Apart, Distinct,
  Disjoint,
}
use kernel_development_with.PhysMem.Frames.{IsFrame, AllFrames}

abbrev pub remove_at : ℕ → List ℕ → List ℕ
remove_at i [] = []
remove_at zero (x ∷ xs) = xs
remove_at (suc i) (x ∷ xs) = x ∷ remove_at i xs

pub Apart-remove_at : (y i : ℕ) (xs : List ℕ) → Apart y xs → Apart y (remove_at i xs)
Apart-remove_at y i [] a = tt
Apart-remove_at y zero (x ∷ xs) a = a.1
Apart-remove_at y (suc i) (x ∷ xs) a = (a.0, Apart-remove_at y i xs a.1)

pub Distinct-remove_at : (i : ℕ) (xs : List ℕ) → Distinct xs → Distinct (remove_at i xs)
Distinct-remove_at i [] d = tt
Distinct-remove_at zero (x ∷ xs) d = d.1
Distinct-remove_at (suc i) (x ∷ xs) d = (Apart-remove_at x i xs d.0, Distinct-remove_at i xs d.1)

pub AllFrames-remove_at :
    (s a i : ℕ) (xs : List ℕ) → AllFrames s a xs → AllFrames s a (remove_at i xs)
AllFrames-remove_at s a i [] d = tt
AllFrames-remove_at s a zero (x ∷ xs) d = d.1
AllFrames-remove_at s a (suc i) (x ∷ xs) d = (d.0, AllFrames-remove_at s a i xs d.1)

pub Disjoint-remove_at : (i : ℕ) (ys xs : List ℕ) → Disjoint ys xs → Disjoint ys (remove_at i xs)
Disjoint-remove_at i [] xs d = tt
Disjoint-remove_at i (y ∷ ys) xs d = (Apart-remove_at y i xs d.0, Disjoint-remove_at i ys xs d.1)

pub length-remove_at :
    (i : ℕ) (xs : List ℕ) → i < length xs → length xs ≡ suc (length (remove_at i xs))
length-remove_at i [] h = omega (arith, h)
length-remove_at zero (x ∷ xs) h = refl
length-remove_at (suc i) (x ∷ xs) h = ap suc (length-remove_at i xs (omega (arith, h)))

pub get_or-IsFrame :
    (s a i : ℕ) (xs : List ℕ) → i < length xs → AllFrames s a xs → IsFrame s a (get_or xs i 0)
get_or-IsFrame s a i [] h f = elim h [ ]
get_or-IsFrame s a zero (x ∷ xs) h f = f.0
get_or-IsFrame s a (suc i) (x ∷ xs) h f = get_or-IsFrame s a i xs (omega (arith, h)) f.1

pub Apart-get_or : (y i : ℕ) (xs : List ℕ) → i < length xs → Apart y xs → y ≢ get_or xs i 0
Apart-get_or y i [] h a = elim h [ ]
Apart-get_or y zero (x ∷ xs) h a = a.0
Apart-get_or y (suc i) (x ∷ xs) h a = Apart-get_or y i xs (omega (arith, h)) a.1

pub get_or-Apart :
    (i : ℕ) (xs : List ℕ) → i < length xs → Distinct xs → Apart (get_or xs i 0) (remove_at i xs)
get_or-Apart i [] h d = elim h [ ]
get_or-Apart zero (x ∷ xs) h d = d.0
get_or-Apart (suc i) (x ∷ xs) h d = (
  λ e. Apart-get_or x i xs (omega (arith, h)) d.0 (sym e),
  get_or-Apart i xs (omega (arith, h)) d.1,
)

pub get_or-Disjoint :
    (i : ℕ) (ys xs : List ℕ) → i < length xs → Disjoint ys xs → Apart (get_or xs i 0) ys
get_or-Disjoint i [] xs h d = tt
get_or-Disjoint i (y ∷ ys) xs h d =
    (λ e. Apart-get_or y i xs h d.0 (sym e), get_or-Disjoint i ys xs h d.1)
