-- ===== src/Ext2/Volume/Parts.antt =====
-- Ext2::find of kernel/ext2.h: the parts of a path, and what the scanning loops find of them.
use kernel_development_with.Prelude.{
  ℕ, suc, ◌+◌, ◌≤◌, ◌<◌, ◌≡◌, ◌⊎◌, inl, inr, refl, sym, ap, ◌∙◌, Bool, true, false, if◌then◌else◌,
  leb, ◌==◌, ◌||◌, List, [], ◌∷◌, arith, length, Bool-cases, le→leb, lt→ltb, gt→leb, ge→ltb, dec_lt,
  ne→==, ==→eq,
}
use kernel_development_with.Prelude.Outcome.{Outcome, ok, ◌>>=◌, ◌>>◌, assert}
use kernel_development_with.Ext2.Volume.Paths.{skip_slashes, at_end, read_part}

abbrev cons_head : ℕ → List (List ℕ) → List (List ℕ)
cons_head c [] = (c ∷ []) ∷ []
cons_head c (w ∷ ws) = (c ∷ w) ∷ ws

-- A path cut at its slashes, up to its terminator.
unfoldable pub segments : List ℕ → List (List ℕ)
segments [] = [] ∷ []
segments (c ∷ cs) =
    let rest = segments cs in
    if c == 0 then [] ∷ [] else if c == b'/' then [] ∷ rest else cons_head c rest

abbrev pub not_empty : List (List ℕ) → List (List ℕ)
not_empty [] = []
not_empty ([] ∷ ws) = not_empty ws
not_empty ((c ∷ w) ∷ ws) = (c ∷ w) ∷ not_empty ws

-- The parts of a path: what stands between its slashes, empty parts left out.
abbrev pub parts : List ℕ → List (List ℕ)
parts path = not_empty (segments path)

-- The bytes of a path up to a slash or its end, and what follows.
abbrev pub stops : ℕ → Bool
stops c = (c == 0) || (c == b'/')

unfoldable pub word : List ℕ → List ℕ
word [] = []
word (c ∷ cs) = let rest = word cs in if stops c then [] else c ∷ rest

unfoldable pub after : List ℕ → List ℕ
after [] = []
after (c ∷ cs) = let rest = after cs in if stops c then c ∷ cs else rest

pub read_part_eq :
    (i : ℕ) (path : List ℕ)
    → i ≤ 256
    → read_part i path ≡ (assert (leb (i + length (word path)) 256) >> ok (word path, after path))
unfolding read_part word after
read_part_eq i [] h = rw (le→leb (i + 0) 256 (omega (arith, h))) refl
read_part_eq i (c ∷ cs) h = elim (Bool-cases (stops c)) [
  | inl s ↦ rw (read_part, word, after, s, le→leb (i + 0) 256 (omega (arith, h))) refl
  | inr s ↦ elim (dec_lt i 256) [
    | yes l ↦
        let q : i + suc (length (word cs)) ≡ suc i + length (word cs) = omega arith in
        rw
          (read_part, word, after, s, lt→ltb i 256 l, read_part_eq (suc i) cs (omega (arith, l)), q)
          (assert_cons (leb (suc i + length (word cs)) 256) c (word cs) (after cs))
    | no l ↦
        rw
          (
            read_part,
            word,
            after,
            s,
            ge→ltb i 256 (omega (arith, l)),
            gt→leb (i + suc (length (word cs))) 256 (omega (arith, l)),
          )
          refl
  ]
]
  where
    kept : Bool → List ℕ → List ℕ → Outcome (List ℕ × List ℕ)
    kept b w p = assert b >> ok (w, p)

    cons_part : ℕ → List ℕ × List ℕ → Outcome (List ℕ × List ℕ)
    cons_part c r = ok (c ∷ r.0, r.1)

    assert_cons :
        (b : Bool) (c : ℕ) (w p : List ℕ) → (kept b w p >>= cons_part c) ≡ kept b (c ∷ w) p
    assert_cons true c w p = refl
    assert_cons false c w p = refl

-- The segments behind the first.
abbrev pub others : List ℕ → List (List ℕ)
others [] = []
others (c ∷ cs) = if c == 0 then [] else segments cs

segments_eq : (path : List ℕ) → segments path ≡ word path ∷ others (after path)
unfolding segments word after
segments_eq [] = refl
segments_eq (c ∷ cs) = elim (Bool-cases (c == 0)) [
  | inl z ↦ rw (segments, word, after, z) (rw z refl)
  | inr z ↦ elim (Bool-cases (c == b'/')) [
    | inl s ↦ rw (segments, word, after, z, s) (rw z refl)
    | inr s ↦ rw (segments, word, after, z, s, segments_eq cs) refl
  ]
]

skip_slash : (c : ℕ) (cs : List ℕ) → (c == b'/') ≡ true → skip_slashes (c ∷ cs) ≡ skip_slashes cs
unfolding skip_slashes
skip_slash c cs s = rw (skip_slashes, s) refl

skip_other : (c : ℕ) (cs : List ℕ) → (c == b'/') ≡ false → skip_slashes (c ∷ cs) ≡ c ∷ cs
unfolding skip_slashes
skip_other c cs s = rw (skip_slashes, s) refl

slash-parts : (c : ℕ) (cs : List ℕ) → (c == b'/') ≡ true → parts (c ∷ cs) ≡ parts cs
unfolding segments
slash-parts c cs s =
    let z : (c == 0) ≡ false = ne→== c 0 (omega (arith, ==→eq c b'/' s)) in rw (segments, z, s) refl

pub skip-parts : (path : List ℕ) → parts (skip_slashes path) ≡ parts path
unfolding skip_slashes
skip-parts [] = refl
skip-parts (c ∷ cs) = elim (Bool-cases (c == b'/')) [
  | inl s ↦ ap parts (skip_slash c cs s) ∙ skip-parts cs ∙ sym (slash-parts c cs s)
  | inr s ↦ ap parts (skip_other c cs s)
]

-- After the slashes a path is at its end, or its first byte belongs to a part.
pub skip_cases :
    (path : List ℕ)
    → (at_end (skip_slashes path) ≡ true)
      ⊎ ((c : ℕ) × (cs : List ℕ) × (skip_slashes path ≡ c ∷ cs)
          × (stops c ≡ false)
          × (length cs < length path))
unfolding skip_slashes at_end
skip_cases [] = inl refl
skip_cases (c ∷ cs) = elim (Bool-cases (c == b'/')) [
  | inl s ↦ elim (skip_cases cs) [
    | inl e ↦ inl (rw (skip_slash c cs s) e)
    | inr (d, ds, e, n, l) ↦ inr (d, ds, skip_slash c cs s ∙ e, n, omega (arith, l))
  ]
  | inr s ↦ elim (Bool-cases (c == 0)) [
    | inl z ↦ inl (rw (skip_other c cs s) z)
    | inr z ↦ inr (c, cs, skip_other c cs s, rw z s, omega arith)
  ]
]

pub end-parts : (path : List ℕ) → at_end path ≡ true → parts path ≡ []
unfolding at_end segments
end-parts [] e = refl
end-parts (c ∷ cs) e = rw (segments, e) refl

-- A path that begins with a part.
pub part_first :
    (c : ℕ) (cs : List ℕ)
    → stops c ≡ false
    → parts (c ∷ cs) ≡ (c ∷ word cs) ∷ not_empty (others (after cs))
unfolding word after
part_first c cs n = ap not_empty (segments_eq (c ∷ cs)) ∙ rw (word, after, n) refl

end_is : (c : ℕ) (cs : List ℕ) → (c == 0) ≡ true → at_end (c ∷ cs) ≡ true
unfolding at_end
end_is c cs z = z

pub end_not : (c : ℕ) (cs : List ℕ) → stops c ≡ false → at_end (c ∷ cs) ≡ false
unfolding at_end
end_not c cs s = elim (Bool-cases (c == 0)) [
  | inl z ↦ let q : true ≡ false = rw z at s in z ∙ q
  | inr z ↦ z
]

stop-parts : (c : ℕ) (cs : List ℕ) → stops c ≡ true → parts (c ∷ cs) ≡ not_empty (others (c ∷ cs))
stop-parts c cs s = elim (Bool-cases (c == 0)) [
  | inl z ↦ end-parts_cons z
  | inr z ↦ let q : (c == b'/') ≡ true = rw z at s in slash-parts c cs q ∙ rw z refl
]
  where
    end-parts_cons : (c == 0) ≡ true → parts (c ∷ cs) ≡ not_empty (others (c ∷ cs))
    end-parts_cons z = end-parts (c ∷ cs) (end_is c cs z) ∙ rw z refl

-- What follows a part has the other parts.
pub after-parts : (cs : List ℕ) → parts (after cs) ≡ not_empty (others (after cs))
unfolding after segments
after-parts [] = refl
after-parts (c ∷ cs) = elim (Bool-cases (stops c)) [
  | inl s ↦ rw (after, s) (stop-parts c cs s)
  | inr s ↦ rw (after, s) (after-parts cs)
]

pub length-after : (cs : List ℕ) → length (after cs) ≤ length cs
unfolding after
length-after [] = omega arith
length-after (c ∷ cs) = elim (Bool-cases (stops c)) [
  | inl s ↦ rw (after, s) (omega arith)
  | inr s ↦ rw (after, s) (omega (arith, length-after cs))
]

pub word_first : (c : ℕ) (cs : List ℕ) → stops c ≡ false → word (c ∷ cs) ≡ c ∷ word cs
unfolding word
word_first c cs n = rw (word, n) refl

pub after_first : (c : ℕ) (cs : List ℕ) → stops c ≡ false → after (c ∷ cs) ≡ after cs
unfolding after
after_first c cs n = rw (after, n) refl
