-- ===== src/Sys/Stack.antt =====
-- kernel/sys.cc: the stack that `SYS::exec` builds, as the new program finds it.
use kernel_development_with.Prelude.{
  ℕ, ◌+◌, ◌-◌, ◌*◌, ◌%◌, ◌^◌, ◌≤◌, ◌<◌, ◌≡◌, inr, sym, ◌∙◌, List, length, arith, sub32, subst,
}
use kernel_development_with.Sys.{
  Bytes, store_word, word, total_len, aligned_len, place, push_word, push_words, stack_top,
  build_stack,
}
use kernel_development_with.Sys.Memory.{store_word-out, word-store_word, word-same}
use kernel_development_with.Sys.Strings.{
  Strings, Strings-same, Strings-wider, Strings-length, Strings-Fits, place-Strings, Words,
  Words-same, push_words-Words, sub32_below,
}

-- What a program with these arguments finds at `sp`: their number, argv, the words of argv with a
-- null after them, and the arguments above.
pub record Entered (m : Bytes) (sp : ℕ) (args : List (List ℕ)) : Type 0 where
  pub aligned : sp % 4 ≡ 0
  pub above : 2 ^ 31 ≤ sp
  pub argc : word m sp ≡ length args
  pub argv : word m (sp + 4) ≡ sp + 8
  pub addresses : List ℕ
  pub listed : Words m (sp + 8) addresses
  pub ended : word m (sp + 8 + 4 * length args) ≡ 0
  pub strings : Strings m (sp + 12 + 4 * length args) stack_top addresses args

aligned_len-bounds :
    (n : ℕ) → (n < aligned_len n) × (aligned_len n ≤ n + 4) × (aligned_len n % 4 ≡ 0)
unfolding aligned_len
aligned_len-bounds n = (omega arith, omega arith, omega arith)

-- For arguments that fit between the bottom of user memory and the top of the stack, the stack
-- that exec builds is aligned and in user memory, and holds the number of arguments, argv, the
-- words of argv with a null after them, and, at the address in each word, the bytes of the
-- argument with a 0 after them, below the top of the stack.
pub build_stack-Entered :
    (m : Bytes) (args : List (List ℕ))
    → total_len args + 4 * length args + 16 ≤ 0x6fffe000
    → Entered (build_stack m args).0 (build_stack m args).1 args
unfolding build_stack push_word
build_stack-Entered m args h =
    let total = total_len args in
    let (b0, b1, b2) = aligned_len-bounds total in
    let top = sub32 stack_top (aligned_len total - total) in
    let t0 : top ≡ stack_top - (aligned_len total - total) =
      sub32_below stack_top (aligned_len total - total) (omega arith) (omega arith) in
    let s = place m top args in
    let (e1, S) = place-Strings m top args (omega arith) (omega arith) in
    let n = Strings-length s.memory s.sp top s.addresses args S in
    let F = Strings-Fits s.memory s.sp top s.addresses args (omega arith) S in
    let p0 = sub32 s.sp 4 in
    let d0 : p0 ≡ s.sp - 4 = sub32_below s.sp 4 (omega arith) (omega arith) in
    let m0 = store_word s.memory p0 0 in
    let listed = push_words (m0, p0) s.addresses in
    let (e2, W, o2) = push_words-Words (m0, p0) s.addresses (omega arith) (omega arith) F in
    let p1 = sub32 listed.1 4 in
    let d1 : p1 ≡ listed.1 - 4 = sub32_below listed.1 4 (omega arith) (omega arith) in
    let m1 = store_word listed.0 p1 listed.1 in
    let p2 = sub32 p1 4 in
    let d2 : p2 ≡ p1 - 4 = sub32_below p1 4 (omega arith) (omega arith) in
    let m2 = store_word m1 p2 (length args) in
    let out : (q : ℕ) → listed.1 ≤ q → m2 q ≡ listed.0 q = λ q l.
      store_word-out m1 p2 (length args) q (omega arith) (inr (omega arith))
      ∙ store_word-out listed.0 p1 listed.1 q (omega arith) (inr (omega arith)) in
    let f : p2 + 8 ≡ listed.1 = omega arith in
    let f1 : p2 + 4 ≡ p1 = omega arith in
    let f0 : p2 + 8 + 4 * length args ≡ p0 = omega arith in
    let fs : p2 + 12 + 4 * length args ≡ s.sp = omega arith in
    record {
      aligned = omega arith;
      above = omega arith;
      argc = word-store_word m1 p2 (length args) (omega arith) (omega arith);
      argv =
          subst (λ z. word m2 z ≡ p2 + 8) (sym f1)
            (word-same m1 m2 p1 (omega arith)
                (λ q k l. store_word-out m1 p2 (length args) q (omega arith) (inr (omega arith)))
              ∙ word-store_word listed.0 p1 listed.1 (omega arith) (omega arith)
              ∙ sym f);
      addresses = s.addresses;
      listed =
          subst (λ z. Words m2 z s.addresses) (sym f)
            (Words-same listed.0 m2 listed.1 s.addresses (omega arith) out W);
      ended =
          subst (λ z. word m2 z ≡ 0) (sym f0)
            (word-same m0 m2 p0 (omega arith) (λ q k l. out q (omega arith) ∙ o2 q k)
              ∙ word-store_word s.memory p0 0 (omega arith) (omega arith));
      strings =
          subst (λ z. Strings m2 z stack_top s.addresses args) (sym fs)
            (Strings-wider m2 s.sp top stack_top s.addresses args (omega arith) (
              Strings-same s.memory m2 s.sp s.sp top s.addresses args (omega arith)
                (λ q k.
                  out q (omega arith)
                  ∙ o2 q (omega arith)
                  ∙ store_word-out s.memory p0 0 q (omega arith) (inr (omega arith)))
                S));
    }
