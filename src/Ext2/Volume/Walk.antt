-- ===== src/Ext2/Volume/Walk.antt =====
-- Ext2::find of kernel/ext2.h: the walk over the parts of a path.
use kernel_development_with.Prelude.{
  ℕ, zero, suc, ◌+◌, ◌<◌, ◌≡◌, inl, inr, refl, sym, ap, ◌∙◌, Bool, true, false, if◌then◌else◌, leb,
  ◌==◌, Option, none, some, List, [], ◌∷◌, arith, length, Bool-cases, fun_ext,
}
use kernel_development_with.Prelude.Outcome.{Outcome, ok, panic, spinning, ◌>>=◌, ◌>>◌, assert}
use kernel_development_with.BlockIo.{BlockDevice}
use kernel_development_with.Ext2.{NodeData}
use kernel_development_with.Ext2.Directory
use kernel_development_with.Ext2.Volume.{Volume, get_node, enter, find_loop, find}
use kernel_development_with.Ext2.Volume.Paths.{skip_slashes}
use kernel_development_with.Ext2.Volume.Parts.{
  parts, not_empty, word, after, read_part_eq, others, skip-parts, skip_cases, end-parts,
  part_first, after-parts, end_not, length-after, word_first, after_first,
}

module _ (ide : BlockDevice) (v : Volume) where
  -- The walk: each part is looked up in the node of the part before it. A part of more than 256
  -- bytes panics, a part that is not there ends the walk with a null reference.
  unfoldable pub walk : NodeData → List (List ℕ) → Outcome (Option NodeData)
  walk node [] = ok (some node)
  walk node (part ∷ ps) =
      assert (leb (length part) 256)
      >> (Directory.find ide v.block_size node part >>= λ number.
          if number == 0 then ok none else (get_node ide v number >>= λ next. walk next ps))

abbrev scanned : List ℕ → List ℕ → Outcome (List ℕ × List ℕ)
scanned w rest = ok (w, rest)

module _ (ide : BlockDevice) (v : Volume) where
  -- A lookup's number that both go on from.
  next_eq :
      (fuel : ℕ) (rest : List ℕ) (ps : List (List ℕ)) (number : ℕ)
      → ((node : NodeData) → find_loop ide v fuel (some node) rest ≡ walk ide v node ps)
      → 0 < fuel
      → (enter ide v number >>= λ next. find_loop ide v fuel next rest)
        ≡ (if number == 0 then ok none else (get_node ide v number >>= λ next. walk ide v next ps))
  unfolding enter find_loop
  next_eq zero rest ps number ih p = elim p [ ]
  next_eq (suc fuel) rest ps number ih p = elim (Bool-cases (number == 0)) [
    | inl z ↦ rw (enter, z) refl
    | inr z ↦ rw (enter, z) (go (get_node ide v number))
  ]
    where
      go :
          (o : Outcome NodeData)
          → ((o >>= λ node. ok (some node)) >>= λ next. find_loop ide v (suc fuel) next rest)
            ≡ (o >>= λ next. walk ide v next ps)
      go (ok node) = ih node
      go panic = refl
      go spinning = refl

  -- A round of the loop, as far as the lookup.
  guarded :
      (b : Bool) (fuel : ℕ) (node : NodeData) (w rest : List ℕ) (ps : List (List ℕ))
      → ((number : ℕ)
          → (enter ide v number >>= λ next. find_loop ide v fuel next rest) ≡ (
              if number == 0
              then ok none
              else (get_node ide v number >>= λ next. walk ide v next ps)))
      → ((assert b >> scanned w rest) >>= λ r.
          Directory.find ide v.block_size node r.0 >>= λ number.
          enter ide v number >>= λ next. find_loop ide v fuel next r.1)
        ≡ (assert b
            >> (Directory.find ide v.block_size node w >>= λ number.
                if number == 0
                then ok none
                else (get_node ide v number >>= λ next. walk ide v next ps)))
  guarded true fuel node w rest ps e =
      ap (λ k. Directory.find ide v.block_size node w >>= k) (fun_ext e)
  guarded false fuel node w rest ps e = refl

  loop-walk :
      (fuel : ℕ) (node : NodeData) (path : List ℕ)
      → length path < fuel
      → find_loop ide v fuel (some node) path ≡ walk ide v node (parts path)
  unfolding find_loop walk
  loop-walk zero node path h = elim h [ ]
  loop-walk (suc fuel) node path h = elim (skip_cases path) [
    | inl e ↦ rw (find_loop, e, sym (skip-parts path), end-parts (skip_slashes path) e) refl
    | inr (c, cs, e, n, l) ↦
        let ps : List (List ℕ) = not_empty (others (after cs)) in
        let q : parts path ≡ (c ∷ word cs) ∷ ps =
          sym (skip-parts path) ∙ ap parts e ∙ part_first c cs n in
        let ih : (next : NodeData)
            → find_loop ide v fuel (some next) (after cs) ≡ walk ide v next ps =
          λ next.
            loop-walk fuel next (after cs) (omega (arith, h, l, length-after cs))
            ∙ ap (walk ide v next) (after-parts cs) in
        let z : 0 + suc (length (word cs)) ≡ suc (length (word cs)) = omega arith in
        rw
          (
            find_loop,
            e,
            end_not c cs n,
            q,
            read_part_eq 0 (c ∷ cs) (omega arith),
            word_first c cs n,
            after_first c cs n,
            z,
          )
          (guarded (leb (suc (length (word cs))) 256) fuel node (c ∷ word cs) (after cs) ps
            (λ number. next_eq fuel (after cs) ps number ih (omega (arith, h, l))))
  ]

  -- find is the walk over the parts of the path, from the node on, and its own loops end: a part
  -- of more than 256 bytes panics, a part that is not in its directory gives a null reference,
  -- and another part goes on from the node of its number.
  pub find-walk :
      (node : NodeData) (path : List ℕ) → find ide v node path ≡ walk ide v node (parts path)
  unfolding find
  find-walk node path = loop-walk (suc (length path)) node path (omega arith)
