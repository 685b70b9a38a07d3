-- ===== src/Ext2/Volume/Paths.antt =====
-- The scanning loops of Ext2::find in kernel/ext2.h, on a path as a list of bytes. Reading past the
-- end of the list gives the terminator 0.
use kernel_development_with.Prelude.{
  ℕ, suc, Bool, true, if◌then◌else◌, ltb, ◌==◌, ◌||◌, List, [], ◌∷◌,
}
use kernel_development_with.Prelude.Outcome.{Outcome, ok, ◌>>=◌, ◌>>◌, assert}

-- while (path[idx] == '/') idx++;
unfoldable pub skip_slashes : List ℕ → List ℕ
skip_slashes [] = []
skip_slashes (c ∷ cs) = let rest = skip_slashes cs in if c == b'/' then rest else c ∷ cs

-- path[idx] == 0
unfoldable pub at_end : List ℕ → Bool
at_end [] = true
at_end (c ∷ cs) = c == 0

-- The loop that copies a part, with `i` bytes copied: the part and the path after it.
unfoldable pub read_part : ℕ → List ℕ → Outcome (List ℕ × List ℕ)
read_part i [] = ok ([], [])
read_part i (c ∷ cs) =
    let rest = read_part (suc i) cs in
    if (c == 0) || (c == b'/')
    then ok ([], c ∷ cs)
    else assert (ltb i 256) >> (rest >>= λ r. ok (c ∷ r.0, r.1))
