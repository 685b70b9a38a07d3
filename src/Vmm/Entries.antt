-- ===== src/Vmm/Entries.antt =====
-- kernel/vmm.cc: entries of page directories and page tables, which stand in different frames.
use Prim.Native.Nat.{bit_or}
use kernel_development_with.Prelude.{
  ℕ, ◌+◌, ◌*◌, ◌/◌, ◌%◌, ◌^◌, ◌<◌, ◌≡◌, ◌≢◌, ◌⊎◌, inl, inr, refl, false, arith, ne→==, Bool-cases,
  low_bits,
}
use kernel_development_with.Prelude.Bits.{bit_or_nibble}
use kernel_development_with.Vmm.{
  Config, absent, target, directory_index, table_index, entry_bits, is_special,
}

pub directory_index_lt : (va : ℕ) → va < 2 ^ 32 → directory_index va < 1024
directory_index_lt va h = omega (arith, h)

pub table_index_lt : (va : ℕ) → table_index va < 1024
table_index_lt va = omega arith

-- An address's page is its two indices.
pub same_page :
    (a b : ℕ)
    → directory_index a ≡ directory_index b
    → table_index a ≡ table_index b
    → a / 4096 ≡ b / 4096
same_page a b e f = omega (arith, e, f)

-- Two entries of frames are one only if frame and index are.
pub entry_ne_frame :
    (p q i j : ℕ)
    → p % 4096 ≡ 0
    → q % 4096 ≡ 0
    → p ≢ q
    → i < 1024
    → j < 1024
    → p + 4 * i ≢ q + 4 * j
entry_ne_frame p q i j a b n h l e = omega (arith, a, b, n, h, l, e)

pub target-aligned : (e : ℕ) → target e % 4096 ≡ 0
target-aligned e = omega arith

module _ (config : Config) (va p : ℕ) (aligned : p % 4096 ≡ 0) where
  entry_bits_cases : (entry_bits config va ≡ 3) ⊎ (entry_bits config va ≡ 7)
  entry_bits_cases = elim (Bool-cases (is_special config va)) [
    | inl e ↦ inl (rw e refl)
    | inr e ↦ inr (rw e refl)
  ]

  pub bit_or-entry_bits : bit_or p (entry_bits config va) ≡ p + entry_bits config va
  bit_or-entry_bits = elim entry_bits_cases [
    | inl e ↦ bit_or_nibble p (entry_bits config va) (omega (arith, aligned)) (omega (arith, e))
    | inr e ↦ bit_or_nibble p (entry_bits config va) (omega (arith, aligned)) (omega (arith, e))
  ]

  -- The entry that map makes is present and points to its frame.
  pub target-bit_or : target (bit_or p (entry_bits config va)) ≡ p
  target-bit_or = rw bit_or-entry_bits (elim entry_bits_cases [
    | inl e ↦ omega (arith, e, aligned)
    | inr e ↦ omega (arith, e, aligned)
  ])

  pub absent-bit_or : absent (bit_or p (entry_bits config va)) ≡ false
  absent-bit_or = rw bit_or-entry_bits (ne→== (low_bits (p + entry_bits config va) 1) 0 odd)
    where
      odd : low_bits (p + entry_bits config va) 1 ≢ 0
      odd = elim entry_bits_cases [
        | inl e ↦ omega (arith, e, aligned)
        | inr e ↦ omega (arith, e, aligned)
      ]
