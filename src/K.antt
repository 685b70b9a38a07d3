-- ===== src/K.antt =====
-- kernel/libk.h and kernel/libk.cc: the kernel's small library, on strings as lists of bytes. A C
-- string is a list of bytes that are not 0; reading past its end gives the terminator 0.
pub mod Laws
mod Tests
use kernel_development_with.Prelude.{
  ℕ, suc, Bool, true, false, if◌then◌else◌, ltb, leb, ◌==◌, ◌&&◌, not, List, [], ◌∷◌,
}

-- K::min, on two values.
abbrev pub lesser : ℕ → ℕ → ℕ
lesser a b = if ltb a b then a else b

-- K::isdigit
abbrev pub isdigit : ℕ → Bool
isdigit c = leb b'0' c && leb c b'9'

-- K::strlen: the number of bytes before the first 0.
unfoldable pub strlen : List ℕ → ℕ
strlen [] = 0
strlen (c ∷ cs) = if c == 0 then 0 else suc (strlen cs)

-- K::streq: the bytes are compared in step, up to a difference or a 0.
unfoldable pub streq : List ℕ → List ℕ → Bool
streq [] [] = true
streq [] (y ∷ ys) = y == 0
streq (x ∷ xs) [] = x == 0
streq (x ∷ xs) (y ∷ ys) =
    let rest = streq xs ys in if not (x == y) then false else if x == 0 then true else rest
