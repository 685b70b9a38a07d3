-- ===== src/Vmm/Mapping.antt =====
-- kernel/vmm.cc: what map and unmap do to the translation of addresses.
use kernel_development_with.Prelude.{
  ℕ, zero, ◌+◌, ◌*◌, ◌/◌, ◌%◌, ◌^◌, ◌<◌, ◌≡◌, ◌≢◌, ◌⊎◌, inl, inr, refl, sym, ◌∙◌, Bool, true, false,
  if◌then◌else◌, ◌==◌, Option, List, [], ◌∷◌, arith, ℕ_discrete, eq→==, ne→==, Bool-cases, Apart,
}
use kernel_development_with.Queue.{update}
use kernel_development_with.PhysMem.{Memory}
use kernel_development_with.Vmm.{
  entry, absent, target, directory_index, table_index, page, translate,
}
use kernel_development_with.Vmm.Entries.{
  directory_index_lt, table_index_lt, same_page, entry_ne_frame, target-aligned,
}

-- A frame is in use.
abbrev pub In : ℕ → List ℕ → Type 0
In x [] = zero < zero
In x (y ∷ ys) = (x ≡ y) ⊎ In x ys

pub Apart-In : (p x : ℕ) (live : List ℕ) → Apart p live → In x live → p ≢ x
Apart-In p x [] a i = elim i [ ]
Apart-In p x (y ∷ ys) a (inl e) = λ q. a.0 (q ∙ e)
Apart-In p x (y ∷ ys) a (inr i) = Apart-In p x ys a.1 i

-- A page directory and its page tables are different frames in use.
pub record Space (m : Memory) (pd : ℕ) (live : List ℕ) : Type 0 where
  pub aligned : pd % 4096 ≡ 0
  pub directory_in : In pd live
  pub tables_in :
      (i : ℕ) → i < 1024 → absent (entry m pd i) ≡ false → In (target (entry m pd i)) live
  pub apart : (i : ℕ) → i < 1024 → absent (entry m pd i) ≡ false → target (entry m pd i) ≢ pd
  pub distinct :
      (i j : ℕ)
      → i < 1024
      → j < 1024
      → i ≢ j
      → absent (entry m pd i) ≡ false
      → absent (entry m pd j) ≡ false
      → target (entry m pd i) ≢ target (entry m pd j)

pub directory_of_page : (a b : ℕ) → a / 4096 ≡ b / 4096 → directory_index a ≡ directory_index b
directory_of_page a b e = omega (arith, e)

pub table_of_page : (a b : ℕ) → a / 4096 ≡ b / 4096 → table_index a ≡ table_index b
table_of_page a b e = omega (arith, e)

pub update_self : (m : Memory) (p e : ℕ) → update m p e p ≡ e
update_self m p e = rw (eq→== p p refl) refl

pub update_ne : (m : Memory) (p e q : ℕ) → p ≢ q → update m p e q ≡ m q
update_ne m p e q n = rw (ne→== p q n) refl

-- The translation by one entry, for another page and for the page itself.
unfoldable pub changed_page : ℕ → ℕ → Option ℕ → Option ℕ → Option ℕ
changed_page other va new old = if other / 4096 == va / 4096 then new else old

pub bool_clash : (b : Bool) → b ≡ true → b ≡ false → zero < zero
bool_clash b p q = elim (clash b p q) [ ]
  where
    clash : (b : Bool) → b ≡ true → b ≢ false
    clash b p q = cc

module _ (m : Memory) (pd : ℕ) (live : List ℕ) (s : Space m pd live) (va e : ℕ) (h : va < 2 ^ 32)
    (p : absent (entry m pd (directory_index va)) ≡ false) where
  -- The page table of `va`, and the memory after a write to its entry.
  abbrev pub table : ℕ
  table = target (entry m pd (directory_index va))

  abbrev pub written : Memory
  written = update m (table + 4 * table_index va) e

  pub written-directory : (i : ℕ) → i < 1024 → entry written pd i ≡ entry m pd i
  written-directory i l = update_ne m (table + 4 * table_index va) e (pd + 4 * i) (
      entry_ne_frame table pd (table_index va) i (target-aligned (entry m pd (directory_index va)))
        s.aligned (s.apart (directory_index va) (directory_index_lt va h) p) (table_index_lt va) l)

  -- The case of a directory entry that is present.
  translate_present :
      (other : ℕ)
      → other < 2 ^ 32
      → absent (entry m pd (directory_index other)) ≡ false
      → page (entry written (target (entry m pd (directory_index other))) (table_index other))
        ≡ changed_page other va
            (page e)
            (page (entry m (target (entry m pd (directory_index other))) (table_index other)))
  unfolding changed_page
  translate_present other l q = elim (ℕ_discrete (directory_index other) (directory_index va)) [
    | yes d ↦ elim (ℕ_discrete (table_index other) (table_index va)) [
      | yes t ↦
          rw
            (
              d,
              t,
              update_self m (table + 4 * table_index va) e,
              eq→== (other / 4096) (va / 4096) (same_page other va d t),
            )
            refl
      | no t ↦
          rw
            (
              d,
              update_ne m (table + 4 * table_index va) e (table + 4 * table_index other)
                  (omega (arith, t)),
              ne→== (other / 4096) (va / 4096) (λ r. t (table_of_page other va r)),
            )
            refl
    ]
    | no d ↦
        rw
          (
            update_ne m (table + 4 * table_index va) e
                (target (entry m pd (directory_index other)) + 4 * table_index other)
                (entry_ne_frame table (target (entry m pd (directory_index other))) (table_index va)
                  (table_index other) (target-aligned (entry m pd (directory_index va)))
                  (target-aligned (entry m pd (directory_index other)))
                  (s.distinct (directory_index va) (directory_index other) (directory_index_lt va h)
                    (directory_index_lt other l) (λ r. d (sym r)) p q)
                  (table_index_lt va) (table_index_lt other)),
            ne→== (other / 4096) (va / 4096) (λ r. d (directory_of_page other va r)),
          )
          refl
  ]

  absent_elsewhere :
      (other : ℕ) → absent (entry m pd (directory_index other)) ≡ true → other / 4096 ≢ va / 4096
  absent_elsewhere other q r = elim (both (directory_of_page other va r)) [ ]
    where
      both : directory_index other ≡ directory_index va → zero < zero
      both d =
          let z : absent (entry m pd (directory_index va)) ≡ true = rw d at q in
          bool_clash (absent (entry m pd (directory_index va))) z p

  -- A write to the entry of `va` changes the translation of its page only.
  pub translate-written :
      (other : ℕ)
      → other < 2 ^ 32
      → translate written pd other ≡ changed_page other va (page e) (translate m pd other)
  unfolding translate changed_page
  translate-written other l = elim (Bool-cases (absent (entry m pd (directory_index other)))) [
    | inl q ↦
        rw
          (
            translate,
            written-directory (directory_index other) (directory_index_lt other l),
            q,
            changed_page,
            ne→== (other / 4096) (va / 4096) (absent_elsewhere other q),
          )
          refl
    | inr q ↦
        rw (translate, written-directory (directory_index other) (directory_index_lt other l), q)
          (translate_present other l q)
  ]

  pub written-Space : Space written pd live
  written-Space = record {
    aligned = s.aligned;
    directory_in = s.directory_in;
    tables_in = λ i l q. let d = written-directory i l in rw d (s.tables_in i l (rw d at q));
    apart = λ i l q. let d = written-directory i l in rw d (s.apart i l (rw d at q));
    distinct = λ i j l k n q r.
        let d = written-directory i l in
        let c = written-directory j k in rw (d, c) (s.distinct i j l k n (rw d at q) (rw c at r));
  }
