-- ===== src/Prelude/Lists.antt =====
-- Lists measured and indexed by native numbers, under the library's names.
use Prim.Native.Nat.{ℕ, zero, suc, ◌+◌, ◌-◌, ◌≤◌, ◌<◌, min}
use mathlib.Core.Path.{◌≡◌, refl, sym, ap}
use mathlib.Core.Logic.{◌≢◌}
use mathlib.Core.List.{List, [], ◌∷◌, ◌++◌}
use mathlib.Core.Option.{Option, none, some}
use native.Mathlib.Omega.{arith}

module _ {ℓ} {A : Type ℓ} where
  abbrev pub length : List A → ℕ
  length [] = 0
  length (x ∷ xs) = suc (length xs)

  abbrev pub get_elem? : List A → ℕ → Option A
  get_elem? [] i = none
  get_elem? (x ∷ xs) zero = some x
  get_elem? (x ∷ xs) (suc i) = get_elem? xs i

  abbrev pub get_or : List A → ℕ → A → A
  get_or [] i d = d
  get_or (x ∷ xs) zero d = x
  get_or (x ∷ xs) (suc i) d = get_or xs i d

  -- A write out of bounds changes nothing.
  abbrev pub set : List A → ℕ → A → List A
  set [] i v = []
  set (x ∷ xs) zero v = v ∷ xs
  set (x ∷ xs) (suc i) v = x ∷ set xs i v

  abbrev pub take : ℕ → List A → List A
  take zero xs = []
  take (suc n) [] = []
  take (suc n) (x ∷ xs) = x ∷ take n xs

  abbrev pub drop : ℕ → List A → List A
  drop zero xs = xs
  drop (suc n) [] = []
  drop (suc n) (x ∷ xs) = drop n xs

  pub length-append : (xs ys : List A) → length (xs ++ ys) ≡ length xs + length ys
  length-append [] ys = omega arith
  length-append (x ∷ xs) ys = omega (arith, length-append xs ys)

module _ {ℓ} {A : Type ℓ} where
  pub length-set : (xs : List A) (i : ℕ) (v : A) → length (set xs i v) ≡ length xs
  length-set [] i v = refl
  length-set (x ∷ xs) zero v = refl
  length-set (x ∷ xs) (suc i) v = ap suc (length-set xs i v)

  pub get_or-set_self :
      (xs : List A) (i : ℕ) (v d : A) → i < length xs → get_or (set xs i v) i d ≡ v
  get_or-set_self [] i v d h = elim h [ ]
  get_or-set_self (x ∷ xs) zero v d h = refl
  get_or-set_self (x ∷ xs) (suc i) v d h = get_or-set_self xs i v d (omega arith)

  pub get_or-set_ne :
      (xs : List A) (i j : ℕ) (v d : A) → i ≢ j → get_or (set xs i v) j d ≡ get_or xs j d
  get_or-set_ne [] i j v d h = refl
  get_or-set_ne (x ∷ xs) zero zero v d h = elim (h refl) [ ]
  get_or-set_ne (x ∷ xs) zero (suc j) v d h = refl
  get_or-set_ne (x ∷ xs) (suc i) zero v d h = refl
  get_or-set_ne (x ∷ xs) (suc i) (suc j) v d h = get_or-set_ne xs i j v d (λ e. h (ap suc e))

  -- Past the end there is only the default, and a write does nothing.
  pub set-past : (xs : List A) (i : ℕ) (v : A) → length xs ≤ i → set xs i v ≡ xs
  set-past [] i v h = refl
  set-past (x ∷ xs) zero v h = elim h [ ]
  set-past (x ∷ xs) (suc i) v h = ap (λ r. x ∷ r) (set-past xs i v (omega (arith, h)))

  pub get_or-past : (xs : List A) (i : ℕ) (d : A) → length xs ≤ i → get_or xs i d ≡ d
  get_or-past [] i d h = refl
  get_or-past (x ∷ xs) zero d h = elim h [ ]
  get_or-past (x ∷ xs) (suc i) d h = get_or-past xs i d (omega (arith, h))

  pub length-take : (n : ℕ) (xs : List A) → length (take n xs) ≡ min n (length xs)
  length-take zero xs = omega arith
  length-take (suc n) [] = omega arith
  length-take (suc n) (x ∷ xs) = omega (arith, length-take n xs)

  pub length-drop : (n : ℕ) (xs : List A) → length (drop n xs) ≡ length xs - n
  length-drop zero xs = omega arith
  length-drop (suc n) [] = omega arith
  length-drop (suc n) (x ∷ xs) = omega (arith, length-drop n xs)

  pub take-append : (n : ℕ) (xs ys : List A) → n ≤ length xs → take n (xs ++ ys) ≡ take n xs
  take-append zero xs ys h = refl
  take-append (suc n) [] ys h = elim h [ ]
  take-append (suc n) (x ∷ xs) ys h = ap (◌∷◌ x) (take-append n xs ys (omega arith))

-- Pairwise different elements, by recursion, so that the tactics can read them.
abbrev pub Apart : ℕ → List ℕ → Type 0
Apart x [] = Unit {0}
Apart x (y ∷ ys) = (x ≢ y) × Apart x ys

abbrev pub Distinct : List ℕ → Type 0
Distinct [] = Unit {0}
Distinct (x ∷ xs) = Apart x xs × Distinct xs

abbrev pub last_of : ℕ → List ℕ → ℕ
last_of x [] = x
last_of x (y ∷ ys) = last_of y ys

pub Apart-last_of : (x y : ℕ) (ys : List ℕ) → Apart x (y ∷ ys) → x ≢ last_of y ys
Apart-last_of x y [] h = h.0
Apart-last_of x y (z ∷ ys) h = Apart-last_of x z ys h.1

pub last_of-snoc : (x t : ℕ) (xs : List ℕ) → last_of x (xs ++ t ∷ []) ≡ t
last_of-snoc x t [] = refl
last_of-snoc x t (y ∷ ys) = last_of-snoc y t ys

pub Apart-snoc : (x t : ℕ) (xs : List ℕ) → Apart x xs → x ≢ t → Apart x (xs ++ t ∷ [])
Apart-snoc x t [] a h = (h, tt)
Apart-snoc x t (y ∷ ys) a h = (a.0, Apart-snoc x t ys a.1 h)

pub Distinct-snoc : (t : ℕ) (xs : List ℕ) → Distinct xs → Apart t xs → Distinct (xs ++ t ∷ [])
Distinct-snoc t [] d a = (tt, tt)
Distinct-snoc t (x ∷ xs) d a =
    (Apart-snoc x t xs d.0 (λ e. a.0 (sym e)), Distinct-snoc t xs d.1 a.1)

abbrev pub Disjoint : List ℕ → List ℕ → Type 0
Disjoint [] ys = Unit {0}
Disjoint (x ∷ xs) ys = Apart x ys × Disjoint xs ys

pub Disjoint-nil : (xs : List ℕ) → Disjoint xs []
Disjoint-nil [] = tt
Disjoint-nil (x ∷ xs) = (tt, Disjoint-nil xs)

pub Disjoint-snoc :
    (xs ys : List ℕ) (t : ℕ) → Disjoint xs ys → Apart t xs → Disjoint xs (ys ++ t ∷ [])
Disjoint-snoc [] ys t d a = tt
Disjoint-snoc (x ∷ xs) ys t d a =
    (Apart-snoc x t ys d.0 (λ e. a.0 (sym e)), Disjoint-snoc xs ys t d.1 a.1)

pub snoc-Disjoint :
    (xs ys : List ℕ) (t : ℕ) → Disjoint xs ys → Apart t ys → Disjoint (xs ++ t ∷ []) ys
snoc-Disjoint [] ys t d a = (a, tt)
snoc-Disjoint (x ∷ xs) ys t d a = (d.0, snoc-Disjoint xs ys t d.1 a)

pub Disjoint-cons : (xs ys : List ℕ) (t : ℕ) → Disjoint xs ys → Apart t xs → Disjoint xs (t ∷ ys)
Disjoint-cons [] ys t d a = tt
Disjoint-cons (x ∷ xs) ys t d a = ((λ e. a.0 (sym e), d.0), Disjoint-cons xs ys t d.1 a.1)

pub Disjoint-symm : (xs ys : List ℕ) → Disjoint xs ys → Disjoint ys xs
Disjoint-symm [] ys d = Disjoint-nil ys
Disjoint-symm (x ∷ xs) ys d = Disjoint-cons ys xs x (Disjoint-symm xs ys d.1) d.0

pub Apart-last_of-Disjoint :
    (x : ℕ) (xs ys : List ℕ) → Disjoint (x ∷ xs) ys → Apart (last_of x xs) ys
Apart-last_of-Disjoint x [] ys d = d.0
Apart-last_of-Disjoint x (y ∷ xs) ys d = Apart-last_of-Disjoint y xs ys d.1

pub Disjoint-tail : (xs : List ℕ) (y : ℕ) (ys : List ℕ) → Disjoint xs (y ∷ ys) → Disjoint xs ys
Disjoint-tail [] y ys d = tt
Disjoint-tail (x ∷ xs) y ys d = (d.0.1, Disjoint-tail xs y ys d.1)
