-- ===== src/BoundedBuffer/Ring.antt =====
-- The ring of kernel/bb.h: the items from the head on, in an array that wraps at its size.
use native.Mathlib.Nat.{mod-eq_of_lt, mod-eq-sub-mod}
use kernel_development_with.Prelude.{
  ℕ, suc, ◌+◌, ◌-◌, ◌%◌, ◌^◌, ◌≤◌, ◌<◌, ◌≡◌, ◌≢◌, refl, ◌∙◌, if◌then◌else◌, ltb, List, [], ◌∷◌,
  ◌++◌, arith, length, dec_lt, lt→ltb, ge→ltb, eq→==, ne→==, add32,
}
use kernel_development_with.Threads.{put}

-- The place of the item `k` behind the head.
abbrev pub place : ℕ → ℕ → ℕ → ℕ
place size head k = if ltb (head + k) size then head + k else head + k - size

-- The items from `k` on.
abbrev pub Ring {ℓ} : {A : Type ℓ} → (ℕ → A) → ℕ → ℕ → ℕ → List A → Type ℓ
Ring slots size head k [] = Unit
Ring slots size head k (x ∷ xs) = (slots (place size head k) ≡ x) × Ring slots size head (suc k) xs

-- The source's index of an item.
pub place_mod :
    (size head k : ℕ)
    → head < size
    → k ≤ size
    → size < 2 ^ 31
    → add32 head k % size ≡ place size head k
place_mod size head k h l b = elim (dec_lt (head + k) size) [
  | yes q ↦
      let e : add32 head k ≡ head + k = omega (arith, q) in
      rw (e, lt→ltb (head + k) size q) (mod-eq_of_lt q)
  | no q ↦
      let e : add32 head k ≡ head + k = omega (arith, h, l, b) in
      let lt : head + k - size < size = omega (arith, h, l) in
      rw (e, ge→ltb (head + k) size (omega (arith, q)))
        (mod-eq-sub-mod (omega (arith, q)) ∙ mod-eq_of_lt lt)
]

place_ne :
    (size head k j : ℕ) → head < size → k < j → j < size → place size head j ≢ place size head k
place_ne size head k j h l b e = ground arith

module _ {ℓ} {A : Type ℓ} (slots : ℕ → A) (size head : ℕ) (inside : head < size) where
  -- A write behind the last item keeps the items before it.
  Ring-put :
      (k j : ℕ) (t : A) (xs : List A)
      → k + length xs ≤ j
      → j < size
      → Ring slots size head k xs
      → Ring (put slots (place size head j) t) size head k xs
  Ring-put k j t [] l b r = tt
  Ring-put k j t (x ∷ xs) l b (e, r) = (
    rw
        (ne→== (place size head j) (place size head k)
          (place_ne size head k j inside (omega (arith, l)) b))
        e,
    Ring-put (suc k) j t xs (omega (arith, l)) b r,
  )

  Ring-end :
      (k : ℕ) (t : A) (xs : List A)
      → Ring slots size head k xs
      → slots (place size head (k + length xs)) ≡ t
      → Ring slots size head k (xs ++ t ∷ [])
  Ring-end k t [] r e = let q : k + 0 ≡ k = omega arith in (rw q at e, tt)
  Ring-end k t (x ∷ xs) (a, r) e =
      let q : k + suc (length xs) ≡ suc k + length xs = omega arith in
      (a, Ring-end (suc k) t xs r (rw q at e))

  -- The items behind the first, from the next head on.
  pub Ring-tail :
      (k : ℕ) (xs : List A)
      → k + length xs < size
      → Ring slots size head (suc k) xs
      → Ring slots size (place size head 1) k xs
  Ring-tail k [] l r = tt
  Ring-tail k (x ∷ xs) l (e, r) =
      let q : place size (place size head 1) k ≡ place size head (suc k) = ground arith in
      (rw q e, Ring-tail (suc k) xs (omega (arith, l)) r)

-- The write of put appends an item.
pub Ring-snoc {ℓ} :
    {A : Type ℓ} (slots : ℕ → A) (size head : ℕ) (t : A) (xs : List A)
    → head < size
    → length xs < size
    → Ring slots size head 0 xs
    → Ring (put slots (place size head (length xs)) t) size head 0 (xs ++ t ∷ [])
Ring-snoc slots size head t xs h l r =
    Ring-end (put slots (place size head (length xs)) t) size head h 0 t xs
      (Ring-put slots size head h 0 (length xs) t xs (omega arith) l r) self
  where
    self : put slots (place size head (length xs)) t (place size head (0 + length xs)) ≡ t
    self =
        let z : 0 + length xs ≡ length xs = omega arith in
        rw (z, eq→== (place size head (length xs)) (place size head (length xs)) refl) refl
