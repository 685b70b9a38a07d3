-- ===== src/Ext2/Words.antt =====
-- Little-endian numbers in lists of bytes, as the structures of kernel/ext2.h lie on the disk.
use kernel_development_with.Prelude.{ℕ, ◌+◌, ◌*◌, List, [], ◌∷◌}

abbrev pub le_number : List ℕ → ℕ
le_number [] = 0
le_number (b ∷ bs) = b + 256 * le_number bs
