-- ===== src/Vmm/Growth.antt =====
-- kernel/vmm.cc: a new page table.
use kernel_development_with.Prelude.{
  ℕ, ◌+◌, ◌*◌, ◌%◌, ◌^◌, ◌<◌, ◌≡◌, ◌≢◌, ◌⊎◌, inl, inr, refl, sym, ap, ◌∙◌, true, false, List, ◌∷◌,
  arith, ℕ_discrete, Bool-cases, Apart,
}
use kernel_development_with.Queue.{update}
use kernel_development_with.PhysMem.{Memory}
use kernel_development_with.Vmm.{entry, absent, target, directory_index, table_index, translate}
use kernel_development_with.Vmm.Entries.{
  directory_index_lt, table_index_lt, entry_ne_frame, target-aligned,
}
use kernel_development_with.Vmm.Mapping.{In, Apart-In, Space, update_self, update_ne, bool_clash}

-- A frame that is not in use becomes the page table of `va`: `t` is the memory after the
-- allocation, which has zeroes in the frame.
module _ (m t : Memory) (pd : ℕ) (live : List ℕ) (s : Space m pd live) (va f b : ℕ)
    (h : va < 2 ^ 32) (missing : absent (entry m pd (directory_index va)) ≡ true)
    (fresh : Apart f live) (f_aligned : f % 4096 ≡ 0) (zeroes : (j : ℕ) → j < 4096 → t (f + j) ≡ 0)
    (others : (x j : ℕ) → x ≢ f → x % 4096 ≡ 0 → j < 4096 → t (x + j) ≡ m (x + j))
    (points : target b ≡ f) (present : absent b ≡ false) where
  abbrev pub grown : Memory
  grown = update t (pd + 4 * directory_index va) b

  pd_ne : pd ≢ f
  pd_ne e = Apart-In f pd live fresh s.directory_in (sym e)

  pub grown-own : entry grown pd (directory_index va) ≡ b
  grown-own = update_self t (pd + 4 * directory_index va) b

  grown-other : (i : ℕ) → i < 1024 → i ≢ directory_index va → entry grown pd i ≡ entry m pd i
  grown-other i l n =
      update_ne t (pd + 4 * directory_index va) b (pd + 4 * i) (omega (arith, n))
      ∙ others pd (4 * i) pd_ne s.aligned (omega (arith, l))

  -- The words of another frame that is not the page directory.
  grown-frame : (x j : ℕ) → x % 4096 ≡ 0 → x ≢ pd → j < 1024 → entry grown x j ≡ entry t x j
  grown-frame x j a n l = update_ne t (pd + 4 * directory_index va) b (x + 4 * j) (
      entry_ne_frame pd x (directory_index va) j s.aligned a (λ e. n (sym e))
        (directory_index_lt va h) l)

  -- An entry that was present is not the one of `va`, and its table is not the new frame.
  present_ne : (i : ℕ) → absent (entry m pd i) ≡ false → i ≢ directory_index va
  present_ne i q e = elim (bool_clash (absent (entry m pd i)) (rw e missing) q) [ ]

  table_ne : (i : ℕ) → i < 1024 → absent (entry m pd i) ≡ false → target (entry m pd i) ≢ f
  table_ne i l q e = Apart-In f (target (entry m pd i)) live fresh (s.tables_in i l q) (sym e)

  -- No address is translated otherwise than before.
  pub grown-translate :
      (other : ℕ) → other < 2 ^ 32 → translate grown pd other ≡ translate m pd other
  unfolding translate
  grown-translate other l = elim (ℕ_discrete (directory_index other) (directory_index va)) [
    | yes d ↦
        let z : entry grown f (table_index other) ≡ 0 =
          grown-frame f (table_index other) f_aligned (λ e. pd_ne (sym e)) (table_index_lt other)
          ∙ zeroes (4 * table_index other) (omega (arith, table_index_lt other)) in
        rw (translate, d, grown-own, present, points, z, missing) refl
    | no d ↦ elim (Bool-cases (absent (entry m pd (directory_index other)))) [
      | inl q ↦
          rw (translate, grown-other (directory_index other) (directory_index_lt other l) d, q) refl
      | inr q ↦
          let x = target (entry m pd (directory_index other)) in
          let w : entry grown x (table_index other) ≡ entry m x (table_index other) =
            grown-frame x (table_index other) (target-aligned (entry m pd (directory_index other)))
              (s.apart (directory_index other) (directory_index_lt other l) q)
              (table_index_lt other)
            ∙ others x (4 * table_index other)
                (table_ne (directory_index other) (directory_index_lt other l) q)
                (target-aligned (entry m pd (directory_index other)))
                (omega (arith, table_index_lt other)) in
          rw (translate, grown-other (directory_index other) (directory_index_lt other l) d, q, w)
            refl
    ]
  ]

  grown-entry :
      (i : ℕ)
      → i < 1024
      → ((i ≡ directory_index va) × (entry grown pd i ≡ b))
        ⊎ ((i ≢ directory_index va) × (entry grown pd i ≡ entry m pd i))
  grown-entry i l = elim (ℕ_discrete i (directory_index va)) [
    | yes e ↦ inl (e, rw e grown-own)
    | no n ↦ inr (n, grown-other i l n)
  ]

  grown-tables-In :
      (i : ℕ)
      → i < 1024
      → absent (entry grown pd i) ≡ false
      → In (target (entry grown pd i)) (f ∷ live)
  grown-tables-In i l q = elim (grown-entry i l) [
    | inl (e, w) ↦ inl (ap target w ∙ points)
    | inr (n, w) ↦
        let k : In (target (entry grown pd i)) live = rw w (s.tables_in i l (rw w at q)) in inr k
  ]

  grown-apart :
      (i : ℕ) → i < 1024 → absent (entry grown pd i) ≡ false → target (entry grown pd i) ≢ pd
  grown-apart i l q = elim (grown-entry i l) [
    | inl (e, w) ↦ rw (w, points) (λ r. pd_ne (sym r))
    | inr (n, w) ↦ rw w (s.apart i l (rw w at q))
  ]

  grown-distinct :
      (i j : ℕ)
      → i < 1024
      → j < 1024
      → i ≢ j
      → absent (entry grown pd i) ≡ false
      → absent (entry grown pd j) ≡ false
      → target (entry grown pd i) ≢ target (entry grown pd j)
  grown-distinct i j l k n q r = elim (grown-entry i l) [
    | inl (e, w) ↦ elim (grown-entry j k) [
      | inl (d, v) ↦ elim (n (e ∙ sym d)) [ ]
      | inr (d, v) ↦ rw (w, v, points) (λ x. table_ne j k (rw v at r) (sym x))
    ]
    | inr (e, w) ↦ elim (grown-entry j k) [
      | inl (d, v) ↦ rw (w, v, points) (table_ne i l (rw w at q))
      | inr (d, v) ↦ rw (w, v) (s.distinct i j l k n (rw w at q) (rw v at r))
    ]
  ]

  -- The page directory with its new table is sound.
  pub grown-Space : Space grown pd (f ∷ live)
  grown-Space = record {
    aligned = s.aligned;
    directory_in = inr s.directory_in;
    tables_in = grown-tables-In;
    apart = grown-apart;
    distinct = grown-distinct;
  }

  pub grown-present : absent (entry grown pd (directory_index va)) ≡ false
  grown-present = rw grown-own present
