-- ===== src/Sys.antt =====
-- kernel/sys.cc: system calls. Here: `strlen`, and the stack that `SYS::exec` builds for the new
-- program. User memory is a function from 32-bit addresses to bytes; an argument that has been copied to
-- the kernel is the list of its bytes before the 0.
pub mod Memory
pub mod Strings
pub mod Stack
pub mod Audio
pub mod Playing
pub mod Calls
pub mod Captures
pub mod Guards
mod Tests
use kernel_development_with.Prelude.{
  ℕ, zero, suc, ◌+◌, ◌-◌, ◌*◌, ◌/◌, ◌%◌, ◌^◌, Bool, true, false, if◌then◌else◌, ltb, leb, ◌==◌, not,
  ◌&&◌, ◌||◌, Option, none, some, List, [], ◌∷◌, ◌++◌, length, add32, sub32,
}
use kernel_development_with.Threads.{put}

abbrev pub Bytes : Type 0
Bytes = ℕ → ℕ

-- strlen(string): `none` when the fuel is spent before a 0 is met.
unfoldable pub strlen : ℕ → Bytes → ℕ → Option ℕ
strlen zero m p = none
strlen (suc fuel) m p =
    let rest = strlen fuel m (add32 p 1) in
    if m p == 0 then some 0 else elim rest [ none ↦ none | some n ↦ some (suc n) ]

-- memcpy from user memory, and into it
unfoldable pub fetch : Bytes → ℕ → ℕ → List ℕ
fetch m p zero = []
fetch m p (suc n) = m p ∷ fetch m (add32 p 1) n

unfoldable pub store : Bytes → ℕ → List ℕ → Bytes
store m p [] = m
store m p (b ∷ bs) = store (put m p b) (add32 p 1) bs

-- exec: one argument, copied to a buffer
unfoldable pub capture : ℕ → Bytes → ℕ → Option (List ℕ)
capture fuel m p = elim (strlen fuel m p) [ none ↦ none | some n ↦ some (fetch m p n) ]

-- *((uint32_t*) sp) = x, and the word that stands at an address
unfoldable pub store_word : Bytes → ℕ → ℕ → Bytes
store_word m p x = store m p (x % 256 ∷ x / 256 % 256 ∷ x / 256 ^ 2 % 256 ∷ x / 256 ^ 3 % 256 ∷ [])

unfoldable pub word : Bytes → ℕ → ℕ
word m p = m p + 256 * m (add32 p 1) + 256 ^ 2 * m (add32 p 2) + 256 ^ 3 * m (add32 p 3)

-- exec: totalLen, with each argument's 0, and alignedLen
unfoldable pub total_len : List (List ℕ) → ℕ
total_len [] = 0
total_len (s ∷ ss) = length s + 1 + total_len ss

unfoldable pub aligned_len : ℕ → ℕ
aligned_len n = (n + 4) / 4 * 4

-- exec: where the stack is while it grows down. `addresses` are those of the arguments from the
-- first one placed on.
pub record Stacking : Type 0 where
  pub memory : Bytes
  pub sp : ℕ
  pub addresses : List ℕ

-- exec: the loop that copies the arguments, the last one first
unfoldable pub place : Bytes → ℕ → List (List ℕ) → Stacking
place m sp [] = record { memory = m; sp = sp; addresses = [] }
place m sp (s ∷ ss) =
    let rest = place m sp ss in
    let sp' = sub32 rest.sp (length s + 1) in
    record {
      memory = store rest.memory sp' (s ++ 0 ∷ []);
      sp = sp';
      addresses = sp' ∷ rest.addresses;
    }

-- exec: one word is pushed, and the loop that pushes the addresses, the last one first
unfoldable pub push_word : Bytes × ℕ → ℕ → Bytes × ℕ
push_word (m, sp) x = (store_word m (sub32 sp 4) x, sub32 sp 4)

unfoldable pub push_words : Bytes × ℕ → List ℕ → Bytes × ℕ
push_words s [] = s
push_words s (x ∷ xs) = push_word (push_words s xs) x

abbrev pub stack_top : ℕ
stack_top = 0xefffe000

-- exec: from the padding to the number of arguments
unfoldable pub build_stack : Bytes → List (List ℕ) → Bytes × ℕ
build_stack m args =
    let total = total_len args in
    let s = place m (sub32 stack_top (aligned_len total - total)) args in
    let listed = push_words (push_word (s.memory, s.sp) 0) s.addresses in
    let argv : Bytes × ℕ = (store_word listed.0 (sub32 listed.1 4) listed.1, sub32 listed.1 4) in
    push_word argv (length args)
