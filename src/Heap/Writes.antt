-- ===== src/Heap/Writes.antt =====
-- The operations of kernel/heap.cc that write to the array, as the array they leave.
use kernel_development_with.Prelude.{
  ℕ, ◌+◌, ◌-◌, ◌^◌, ◌≤◌, ◌<◌, ◌≡◌, refl, true, false, if◌then◌else◌, ◌==◌, arith, ℕ_discrete,
  lt→ltb, eq→==, ne→==,
}
use kernel_development_with.Heap.{
  Heap, done, ◌>>=◌, write, negate, abs, size, footer_from_header, set_next, set_prev, bypass,
  remove, make_taken, make_avail,
}
use kernel_development_with.Heap.Reads.{
  Plan, Held, abs-mark, add32_small, sub32_small, next-at, prev-at,
}
use kernel_development_with.Threads.{put}

pub write-inside :
    (s : Heap) (i v : ℕ) → i < s.len → write s i v ≡ done (record s { array = put s.array i v })
write-inside s i v h = rw (lt→ltb i s.len h) refl

pub set_next-inside :
    (s : Heap) (i v : ℕ)
    → i + 1 < s.len
    → s.len ≤ 2 ^ 30
    → set_next s i v ≡ done (record s { array = put s.array (i + 1) v })
unfolding set_next
set_next-inside s i v h r = rw (add32_small i 1 (omega arith)) (write-inside s (i + 1) v h)

pub set_prev-inside :
    (s : Heap) (i v : ℕ)
    → i + 2 < s.len
    → s.len ≤ 2 ^ 30
    → set_prev s i v ≡ done (record s { array = put s.array (i + 2) v })
unfolding set_prev
set_prev-inside s i v h r = rw (add32_small i 2 (omega arith)) (write-inside s (i + 2) v h)

-- The state with the links past a block between `p` and `n`.
abbrev pub bypassed : Heap → ℕ → ℕ → Heap
bypassed s p n =
    if p == 0 then record s { avail = n } else record s { array = put s.array (p + 1) n }

pub bypassed-len : (s : Heap) (p n : ℕ) → (bypassed s p n).len ≡ s.len
bypassed-len s p n = ground arith

abbrev pub linked_back : Heap → ℕ → ℕ → Heap
linked_back s n p = if n == 0 then s else record s { array = put s.array (n + 2) p }

abbrev pub unlinked : Heap → ℕ → Heap
unlinked s i =
    linked_back (bypassed s (s.array (i + 2)) (s.array (i + 1))) (s.array (i + 1)) (s.array (i + 2))

-- A block's two ends, and the links in it.
abbrev pub ends : (ℕ → ℕ) → ℕ → ℕ → ℕ → ℕ → ℕ
ends a i n w = put (put a i w) (i + n - 1) w

abbrev pub links : (ℕ → ℕ) → ℕ → ℕ → ℕ → ℕ
links a i x = put (put a (i + 1) x) (i + 2) 0

footer-of :
    (s : Heap) (i n : ℕ)
    → abs (s.array i) ≡ n
    → 2 ≤ n
    → i + n ≤ s.len
    → s.len ≤ 2 ^ 30
    → footer_from_header s i ≡ done (i + n - 1)
unfolding footer_from_header size
footer-of s i n e n2 h r =
    rw
      (
        lt→ltb i s.len (omega arith),
        ◌>>=◌,
        e,
        add32_small i n (omega arith),
        sub32_small (i + n) 1 (omega arith) (omega arith),
      )
      refl

abs-put : (a : ℕ → ℕ) (i w n : ℕ) → abs w ≡ n → abs (put a i w i) ≡ n
abs-put a i w n e = ground arith

-- Both ends of a block are written.
write_ends :
    (s : Heap) (i n w : ℕ)
    → abs w ≡ n
    → 2 ≤ n
    → i + n ≤ s.len
    → s.len ≤ 2 ^ 30
    → (write s i w >>= λ s1. footer_from_header s1 i >>= λ footer. write s1 footer w)
      ≡ done (record s { array = ends s.array i n w })
write_ends s i n w e n2 h r =
    rw
      (
        write-inside s i w (omega arith),
        ◌>>=◌,
        footer-of (record s { array = put s.array i w }) i n (abs-put s.array i w n e) n2 h r,
      )
      (write-inside (record s { array = put s.array i w }) (i + n - 1) w (omega arith))

pub make_taken-inside :
    (s : Heap) (i n : ℕ)
    → 2 ≤ n
    → i + n ≤ s.len
    → s.len ≤ 2 ^ 30
    → make_taken s i n ≡ done (record s { array = ends s.array i n (negate n) })
unfolding make_taken
make_taken-inside s i n n2 h r =
    write_ends s i n (negate n) (abs-mark false n (omega arith) (omega arith)) n2 h r

-- The state with a block in front of the list.
abbrev pub pushed : Heap → ℕ → ℕ → Heap
pushed s i n =
    let a = links (ends s.array i n n) i s.avail in
    record s { array = if s.avail == 0 then a else put a (s.avail + 2) i; avail = i }

pub make_avail-inside :
    (s : Heap) (i n : ℕ)
    → 4 ≤ n
    → i + n ≤ s.len
    → s.len ≤ 2 ^ 30
    → s.avail + 2 < s.len
    → make_avail s i n ≡ done (pushed s i n)
unfolding make_avail
make_avail-inside s i n n4 h r k =
    let s2 = record s { array = ends s.array i n n } in
    let s3 = record s2 { array = put s2.array (i + 1) s.avail } in
    let s4 = record s3 { array = put s3.array (i + 2) 0 } in
    rw
      (
        write-inside s i n (omega arith),
        ◌>>=◌,
        footer-of (record s { array = put s.array i n }) i n
            (abs-put s.array i n n (abs-mark true n (omega arith) (omega arith))) (omega arith) h r,
        write-inside (record s { array = put s.array i n }) (i + n - 1) n (omega arith),
        set_next-inside s2 i s.avail (omega arith) r,
        set_prev-inside s3 i 0 (omega arith) r,
      )
      (elim (ℕ_discrete s.avail 0) [
        | yes e ↦ rw (eq→== s.avail 0 e) refl
        | no e ↦ rw (ne→== s.avail 0 e, set_prev-inside s4 s.avail i k r, ◌>>=◌) refl
      ])

module _ (s : Heap) (g : Plan) (lo hi : ℕ) (H : Held s g lo hi) (i : ℕ)
    (l : g.listed i ≡ true) where
  bypass-inside :
      bypass s (s.array (i + 2)) (s.array (i + 1))
      ≡ done (bypassed s (s.array (i + 2)) (s.array (i + 1)))
  unfolding bypass
  bypass-inside = elim (ℕ_discrete (s.array (i + 2)) 0) [
    | yes e ↦ rw (eq→== (s.array (i + 2)) 0 e) refl
    | no e ↦
        let p = H.inner (s.array (i + 2)) (H.linked.backward i l e).0 in
        rw (ne→== (s.array (i + 2)) 0 e)
          (set_next-inside s (s.array (i + 2)) (s.array (i + 1)) (omega arith) H.room)
  ]

  pub remove-inside : remove s i ≡ done (unlinked s i)
  unfolding remove
  remove-inside =
      rw (prev-at s g lo hi H i l, ◌>>=◌, next-at s g lo hi H i l, bypass-inside)
        (elim (ℕ_discrete (s.array (i + 1)) 0) [
          | yes e ↦ rw (eq→== (s.array (i + 1)) 0 e) refl
          | no e ↦
              let n = H.inner (s.array (i + 1)) (H.linked.onward i l e).0 in
              let k = bypassed-len s (s.array (i + 2)) (s.array (i + 1)) in
              let r = H.room in
              rw (ne→== (s.array (i + 1)) 0 e) (
                set_prev-inside (bypassed s (s.array (i + 2)) (s.array (i + 1))) (s.array (i + 1))
                  (s.array (i + 2)) (omega arith) (omega arith))
        ])
