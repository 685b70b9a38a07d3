-- ===== src/Vmm/Elsewhere.antt =====
-- kernel/vmm.cc: writes to a frame that is no table of a page directory.
use kernel_development_with.Prelude.{
  ℕ, ◌+◌, ◌*◌, ◌%◌, ◌^◌, ◌<◌, ◌≡◌, ◌≢◌, inl, inr, refl, false, List, arith, Bool-cases,
}
use kernel_development_with.PhysMem.{Memory}
use kernel_development_with.Vmm.{entry, absent, target, directory_index, table_index, translate}
use kernel_development_with.Vmm.Entries.{directory_index_lt, table_index_lt, target-aligned}
use kernel_development_with.Vmm.Mapping.{Space}

-- `t` is the memory after writes to the frame `f` only.
module _ (m t : Memory) (pd : ℕ) (live : List ℕ) (s : Space m pd live) (f : ℕ)
    (others : (x j : ℕ) → x ≢ f → x % 4096 ≡ 0 → j < 4096 → t (x + j) ≡ m (x + j)) (pd_ne : pd ≢ f)
    (tables_ne : (i : ℕ)
      → i < 1024
      → absent (entry m pd i) ≡ false
      → target (entry m pd i) ≢ f) where
  same_entry : (i : ℕ) → i < 1024 → entry t pd i ≡ entry m pd i
  same_entry i l = others pd (4 * i) pd_ne s.aligned (omega (arith, l))

  -- The translation of every address stays.
  pub elsewhere-translate :
      (other : ℕ) → other < 2 ^ 32 → translate t pd other ≡ translate m pd other
  unfolding translate
  elsewhere-translate other l = elim (Bool-cases (absent (entry m pd (directory_index other)))) [
    | inl q ↦
        rw (translate, same_entry (directory_index other) (directory_index_lt other l), q) refl
    | inr q ↦
        let x = target (entry m pd (directory_index other)) in
        let w : entry t x (table_index other) ≡ entry m x (table_index other) =
          others x (4 * table_index other)
            (tables_ne (directory_index other) (directory_index_lt other l) q)
            (target-aligned (entry m pd (directory_index other)))
            (omega (arith, table_index_lt other)) in
        rw (translate, same_entry (directory_index other) (directory_index_lt other l), q, w) refl
  ]

  pub elsewhere-Space : Space t pd live
  elsewhere-Space = record {
    aligned = s.aligned;
    directory_in = s.directory_in;
    tables_in = λ i l q. let d = same_entry i l in rw d (s.tables_in i l (rw d at q));
    apart = λ i l q. let d = same_entry i l in rw d (s.apart i l (rw d at q));
    distinct = λ i j l k n q r.
        let d = same_entry i l in
        let c = same_entry j k in rw (d, c) (s.distinct i j l k n (rw d at q) (rw c at r));
  }
